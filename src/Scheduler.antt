-- ===== src/Scheduler.antt =====
-- The scheduler of src/scheduler.rs: dispatch to the zygote, collection of results, stale workers.
pub mod State
pub mod Steps
mod Active
mod Invariant
mod Accounts
pub mod Counts
pub mod Delivered
pub mod Shape
mod Tests
