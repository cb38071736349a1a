-- ===== src/CommandProcessor.antt =====
-- src/command_processor.rs: what a command does and what it answers.
mod Tests
pub mod Replies
pub mod Watchlist
pub mod Process
