-- ===== src/Watch.antt =====
-- The watch mode of src/watch.rs.
mod Events
mod Bursts
mod Tests
