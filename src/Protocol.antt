-- ===== src/Protocol.antt =====
-- src/protocol.rs: the messages between supervisor, zygote and workers, and their framing.
pub mod Messages
pub mod Bytes
pub mod Frames
pub mod Limits
mod Tests
