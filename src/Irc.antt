-- ===== src/Irc.antt =====
-- src/irc_processor.rs: the bot's side of an IRC connection.
mod Tests
pub mod Whois
pub mod Outbound
pub mod Identity
pub mod Connection
pub mod Presence
pub mod Routing
