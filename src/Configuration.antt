-- ===== src/Configuration.antt =====
-- src/config.rs: the options, what is accepted of them, and how they are reloaded.
pub mod Sections
pub mod Data
pub mod Checks
pub mod Summary
pub mod Loading
pub mod Watching
mod Tests
