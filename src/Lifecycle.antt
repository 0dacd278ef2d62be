-- ===== src/Lifecycle.antt =====
-- The cleanup of src/lifecycle.rs.
pub mod Guard
pub mod Signals
mod Tests
