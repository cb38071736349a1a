-- ===== src/Platforms.antt =====
-- src/platforms/: the tracker side of the program.
pub mod UrlTemplate
pub mod Http
