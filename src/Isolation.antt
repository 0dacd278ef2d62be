-- ===== src/Isolation.antt =====
-- The isolation of a worker (src/isolation.rs).
pub mod Setup
pub mod Mounts
mod Tests
