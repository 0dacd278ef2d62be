-- ===== src/Resolver.antt =====
-- src/resolver.rs: fixture lookup, and the order in which a test's fixtures are set up.
pub mod Registry
pub mod Outcome
pub mod Resolve
pub mod Order
pub mod Known
pub mod Fuel
pub mod Errors
pub mod Precedence
pub mod Batch
mod Tests
pub mod Total
