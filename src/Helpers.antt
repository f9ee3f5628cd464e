-- ===== src/Helpers.antt =====
-- src/helpers: who the three helpers are, and the role that each plays in a query.
pub mod Role
pub mod Assignment
pub mod Buffers
pub mod Stream
