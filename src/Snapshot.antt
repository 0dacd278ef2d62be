-- ===== src/Snapshot.antt =====
-- The snapshots of src/snapshot.rs: which memory of a worker is kept, and what a page fault of a
-- reset worker restores. The kernel (memory reads, userfaultfd) is a parameter.
pub mod Regions
pub mod Pages
pub mod Manager
pub mod Golden
pub mod Restore
mod Faults
mod Tests
