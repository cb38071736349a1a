-- ===== src/Clients/Qbittorrent.antt =====
-- src/clients/qbittorrent.rs: the client of the qBittorrent WebUI.
pub mod Version
pub mod Multipart
pub mod Session
pub mod Listing
pub mod Adding
