-- ===== src/Debugger.antt =====
-- The debugging sessions of src/debugger.rs and the signals of src/signals.rs. Terminal attributes are
-- a parameter, with cfmakeraw.
pub mod Terminal
mod Hook
pub mod Pipe
mod Order
pub mod Session
mod Restored
pub mod Interrupt
mod Tests
