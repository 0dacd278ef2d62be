-- ===== src/Junit.antt =====
-- The JUnit reporter of src/junit.rs.
mod Ansi
mod Report
mod Bookkeeping
mod Tests
