-- ===== src/Prelude/Digits.antt =====
-- The number of binary digits of a `u128`.
use Prim.Native.Nat.{ℕ, zero, suc, ◌/◌, ◌^◌, ◌≤◌, ◌<◌}
use mathlib.Core.Path.{◌≡◌}
use mathlib.Core.Bool.{true, false}
use native.Mathlib.Nat.{pow-succ'}
use native.Mathlib.Omega.{arith}
use raw_ipa.Prelude.Tests.{◌==◌}

-- How often a number can be halved, in so many rounds at most.
unfoldable pub significant_bits : ℕ → ℕ → ℕ
significant_bits zero n = 0
significant_bits (suc fuel) n = elim (n == 0) [
  | true ↦ 0
  | false ↦ suc (significant_bits fuel (n / 2))
]

-- `u128::BITS - n.leading_zeros()`
unfoldable pub bit_length : ℕ → ℕ
bit_length n = significant_bits 128 n

not_zero : (n : ℕ) → 0 < n → (n == 0) ≡ false
not_zero n h = ground arith

pub pow_pos : (n : ℕ) → 0 < 2 ^ n
pow_pos zero = omega arith
pow_pos (suc n) = omega (arith, pow-succ' 2 n, pow_pos n)

pub pow_mono : (m n : ℕ) → m ≤ n → 2 ^ m ≤ 2 ^ n
pow_mono zero n h = omega (arith, pow_pos n)
pow_mono (suc m) zero h = absurd (omega arith)
pow_mono (suc m) (suc n) h = omega (arith, pow-succ' 2 m, pow-succ' 2 n, pow_mono m n (omega arith))

pub significant_bits-le : (fuel l n : ℕ) → n < 2 ^ l → significant_bits fuel n ≤ l
unfolding significant_bits
significant_bits-le zero l n h = omega arith
significant_bits-le (suc fuel) l zero h = omega arith
significant_bits-le (suc fuel) zero (suc n) h = absurd (omega arith)
significant_bits-le (suc fuel) (suc l) (suc n) h =
    rw (significant_bits, not_zero (suc n) (omega arith))
      (omega (arith, significant_bits-le fuel l (suc n / 2) (omega (arith, pow-succ' 2 l))))

pub significant_bits-gt : (fuel l n : ℕ) → n < 2 ^ fuel → 2 ^ l ≤ n → l < significant_bits fuel n
unfolding significant_bits
significant_bits-gt zero l n h m = absurd (omega (arith, pow_pos l))
significant_bits-gt (suc fuel) zero n h m = rw (significant_bits, not_zero n m) (omega arith)
significant_bits-gt (suc fuel) (suc l) n h m =
    let e = pow-succ' 2 l in
    rw (significant_bits, not_zero n (omega (arith, e, pow_pos l)))
      (omega (
        arith,
        significant_bits-gt fuel l (n / 2) (omega (arith, pow-succ' 2 fuel)) (omega (arith, e)),
      ))

-- A number has at most so many digits exactly if it is below that power of two.
pub bit_length-le : (l n : ℕ) → n < 2 ^ l → bit_length n ≤ l
unfolding bit_length
bit_length-le l n h = significant_bits-le 128 l n h

pub bit_length-gt : (l n : ℕ) → n < 2 ^ 128 → 2 ^ l ≤ n → l < bit_length n
unfolding bit_length
bit_length-gt l n h m = significant_bits-gt 128 l n h m
