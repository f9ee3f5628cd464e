-- ===== src/Protocol.antt =====
-- src/protocol: the protocols that the three helpers run together.
pub mod Exchange
pub mod Computes
pub mod Basics
pub mod Boolean
pub mod Context
pub mod Prss
