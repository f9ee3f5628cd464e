-- ===== src/Protocol/Basics.antt =====
-- src/protocol/basics: the protocols from which all others are built.
pub mod ZeroPositions
pub mod Mul
pub mod SecureMul
pub mod Reveal
pub mod Reshare
pub mod CheckZero
pub mod IfElse
pub mod SumOfProducts
pub mod KnownValue
