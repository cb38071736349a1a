-- ===== src/Clients.antt =====
-- src/clients: the torrent clients.
pub mod Qbittorrent
mod Tests
