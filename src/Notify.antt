-- ===== src/Notify.antt =====
-- src/notify.rs: the parts of the notifier, from an event to the message that a backend sends.
mod Tests
pub mod Events
pub mod Limit
pub mod Outbox
pub mod Hold
pub mod Dispatch
pub mod Schedule
pub mod Reload
pub mod Senders
pub mod Poll
