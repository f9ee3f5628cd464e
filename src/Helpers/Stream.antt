-- ===== src/Helpers/Stream.antt =====
-- src/helpers/transport/stream: items read from a stream of bytes.
pub mod Deque
pub mod Records
