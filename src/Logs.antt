-- ===== src/Logs.antt =====
-- The log buffers of src/logcapture.rs. The memory files and the descriptors are those of the kernel.
pub mod Utf8
pub mod Capture
mod Roundtrip
pub mod Slots
mod Tests
