-- ===== src/Reporter.antt =====
-- The reporters of src/reporter.rs.
pub mod Events
mod Outputs
mod Purity
mod Tests
