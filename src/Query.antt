-- ===== src/Query.antt =====
-- src/query: the queries that a helper takes part in, from their announcement to their result.
pub mod State
pub mod Processor
pub mod Server
pub mod Announcement
