-- ===== src/Protocol/Context.antt =====
-- src/protocol/context: the validation of a computation against additive attacks.
pub mod Validator
pub mod Macs
pub mod Deviation
pub mod MaliciousMul
