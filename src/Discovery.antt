-- ===== src/Discovery.antt =====
-- src/discovery.rs: static discovery of tests and fixtures in parsed Python modules.
pub mod Types
pub mod Ast
pub mod Decorators
pub mod Injected
pub mod Mocks
pub mod Module
pub mod Walk
pub mod Kept
pub mod Suite
pub mod Classes
pub mod Injection
mod Tests
