-- ===== src/Session.antt =====
-- A test session from discovery to the end of the scheduler's run (src/main.rs), over the components.
pub mod Select
pub mod Run
pub mod Start
mod Supervised
mod Captured
mod Tests
mod StartTests
