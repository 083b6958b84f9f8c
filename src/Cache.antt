-- ===== src/Cache.antt =====
-- The disk cache: `src/cache/`.
pub mod ByteRanges
pub mod RangeDb
pub mod Worker
pub mod Session
pub mod ReadAt
pub mod Item
pub mod Eviction
pub mod Store
