-- ===== src/Rd.antt =====
-- The Real-Debrid client: `src/rd/`.
pub mod TokenPool
pub mod Client
pub mod Unrestrict
