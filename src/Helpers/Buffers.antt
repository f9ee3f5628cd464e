-- ===== src/Helpers/Buffers.antt =====
-- src/helpers/buffers: what stands between a stream of bytes and the messages of a protocol.
pub mod Spare
pub mod Receiver
pub mod Ordering
