-- ===== src/Protocol/Boolean.antt =====
-- src/protocol/boolean: logic on shared bits, which are 0 or 1 in a field.
pub mod Xor
pub mod Or
pub mod SaturatingSum
pub mod Comparison
pub mod Zeroes
pub mod AddConstant
pub mod LessThanPrime
