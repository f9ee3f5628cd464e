-- ===== src/Ff/PrimeField.antt =====
-- src/ff/prime_field.rs: `field_impl!`, arithmetic modulo a prime that fits its storage type.
pub mod Modular
pub mod Ring
pub mod Bytes
use raw_ipa.Prelude.{
  ℕ, ◌+◌, ◌-◌, ◌*◌, ◌%◌, ◌^◌, ◌≤◌, ◌<◌, ◌≡◌, Option, none, some, leb, bit_length, if◌then◌else◌,
}

-- The arguments of the macro: `$bits`, the width of `$store`, and `$prime`.
pub record Params : Type 0 where
  pub bits : ℕ
  pub prime : ℕ

-- `field_impl! { Fp31, u8, 8, 31 }` and `field_impl! { Fp32BitPrime, u32, 32, 4_294_967_291 }`.
abbrev pub fp31 : Params
fp31 = record { bits = 8; prime = 31 }

abbrev pub fp32_bit_prime : Params
fp32_bit_prime = record { bits = 32; prime = 4294967291 }

-- What the debug assertions and the types of the macro ask of its arguments.
pub record IsSound (p : Params) : Type 0 where
  pub at_least_two : 2 ≤ p.prime
  pub fits_store : p.prime < 2 ^ p.bits
  pub fits_u32 : p.prime < 2 ^ 32

module _ (p : Params) where
  open p use {bits, prime}

  -- `as <Self as SharedValue>::Storage`.
  abbrev pub to_store : ℕ → ℕ
  to_store v = v % 2 ^ bits

  -- `u64` arithmetic, in which the operators compute.
  abbrev pub to_u64 : ℕ → ℕ
  to_u64 v = v % 2 ^ 64

  -- `truncate_from`, of a `u128`.
  unfoldable pub truncate_from : ℕ → ℕ
  truncate_from v = to_store (v % prime)

  unfoldable pub add_raw : ℕ → ℕ → ℕ
  add_raw a b = to_store (to_u64 (a + b) % prime)

  -- `Self::PRIME - self.0` is computed in the storage type.
  unfoldable pub neg_raw : ℕ → ℕ
  neg_raw a = to_store (prime + 2 ^ bits - a) % prime

  -- `c(Self::PRIME) + c(self.0) - c(rhs.0)`.
  unfoldable pub sub_raw : ℕ → ℕ → ℕ
  sub_raw a b = to_store (to_u64 (to_u64 (prime + a) + 2 ^ 64 - b) % prime)

  unfoldable pub mul_raw : ℕ → ℕ → ℕ
  mul_raw a b = to_store (to_u64 (a * b) % prime)

  -- `TryFrom<u128>`, which tests `u128::BITS - v.leading_zeros() <= Self::BITS`. `none` is the error.
  unfoldable pub try_from : ℕ → Option ℕ
  unfolding truncate_from
  try_from v = if leb (bit_length v) bits then some (truncate_from v) else none
