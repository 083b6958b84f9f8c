-- ===== src/Repair.antt =====
-- The repair of broken torrents: `src/repair/`, and the queue of src/torrent/repair_enqueue.rs.
pub mod Account
pub mod Ephemeral
pub mod Reasons
pub mod Detect
pub mod Strategies
pub mod Preflight
pub mod PassiveHead
pub mod Engine
pub mod Capacity
pub mod Queue
