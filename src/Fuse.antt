-- ===== src/Fuse.antt =====
-- The FUSE layer: `src/fuse/`.
pub mod ReadBuffer
pub mod Read
pub mod Inode
