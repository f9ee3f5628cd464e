-- ===== src/Ff.antt =====
-- src/ff: the fields that values are shared over.
pub mod PrimeField
