-- ===== src/Supervisor.antt =====
-- src/supervisor.rs: the services that the container's first process keeps running.
mod Tests
pub mod Services
pub mod Shutdown
pub mod Paths
