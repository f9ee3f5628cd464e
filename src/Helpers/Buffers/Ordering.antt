-- ===== src/Helpers/Buffers/Ordering.antt =====
-- src/helpers/buffers/ordering_sender.rs: messages sent in any order, serialized by their index.
pub mod State
pub mod Space
pub mod Progress
pub mod Waiting
pub mod Sorted
pub mod Parked
pub mod Sender
pub mod Order
pub mod Take
pub mod Trace
