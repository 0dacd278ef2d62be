-- ===== src/Zygote.antt =====
-- The fork server of src/zygote.rs and its workers. The interpreter and the forks are parameters.
pub mod Commands
mod Rounds
mod Served
mod Dispatched
mod Composed
pub mod Worker
mod Actions
mod Isolated
pub mod Collector
mod Forward
pub mod Reset
mod Snapshot
mod Tests
mod WorkerTests
