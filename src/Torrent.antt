-- ===== src/Torrent.antt =====
-- The registry of torrents: `src/torrent/`.
pub mod Types
pub mod Diff
pub mod Refresh
pub mod Manager
