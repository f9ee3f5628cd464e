-- ===== src/Ff/PrimeField/Modular.antt =====
-- src/ff/prime_field.rs: the operators as arithmetic on numbers.
use raw_ipa.Prelude.{ℕ, ◌+◌, ◌-◌, ◌*◌, ◌%◌, ◌^◌, ◌<◌, ◌≡◌, ap, ◌∙◌, arith}
use native.Mathlib.Nat.{
  mod-lt, mod-eq_of_lt, le_trans, lt_trans, lt_of_le_of_lt, mul-le-mul, add-mod_right,
}
use raw_ipa.Ff.PrimeField.{
  Params, IsSound, to_store, truncate_from, add_raw, neg_raw, sub_raw, mul_raw,
}

-- The product of two numbers below 2 ^ 32 is below 2 ^ 64.
mul_small : (a b : ℕ) → a < 2 ^ 32 → b < 2 ^ 32 → a * b < 2 ^ 64
mul_small a b ha hb =
    lt_of_le_of_lt (mul-le-mul {n₂ = 4294967295} {m₂ = 4294967295} (omega arith) (omega arith))
      (omega arith)

sub_small :
    (p a b : ℕ) → p < 2 ^ 32 → a < 2 ^ 32 → b < p → (p + a + 2 ^ 64 - b) % 2 ^ 64 ≡ p + a - b
sub_small p a b hp ha hb =
    ap (λ v. v % 2 ^ 64) regroup ∙ add-mod_right (p + a - b) (2 ^ 64) ∙ mod-eq_of_lt (omega arith)
  where
    regroup : p + a + 2 ^ 64 - b ≡ p + a - b + 2 ^ 64
    regroup = omega arith

neg_small : (w p a : ℕ) → p < w → a < p → (p + w - a) % w ≡ p - a
neg_small w p a hw ha =
    ap (λ v. v % w) regroup ∙ add-mod_right (p - a) w ∙ mod-eq_of_lt (omega arith)
  where
    regroup : p + w - a ≡ p - a + w
    regroup = omega arith

module _ (p : Params) (s : IsSound p) where
  open p use {bits, prime}

  pub prime_pos : 0 < prime
  prime_pos = le_trans (omega arith) s.at_least_two

  small : {a : ℕ} → a < prime → a < 2 ^ 32
  small ha = lt_trans ha s.fits_u32

  store_mod : (v : ℕ) → to_store p (v % prime) ≡ v % prime
  store_mod v = mod-eq_of_lt (lt_trans (mod-lt v prime_pos) s.fits_store)

  fit : (v : ℕ) → v < 2 ^ 64 → to_store p (v % 2 ^ 64 % prime) ≡ v % prime
  fit v hv = ap (λ u. to_store p (u % prime)) (mod-eq_of_lt hv) ∙ store_mod v

  pub truncate_from_lem : (v : ℕ) → truncate_from p v ≡ v % prime
  unfolding truncate_from
  truncate_from_lem v = store_mod v

  pub add_raw_lem : (a b : ℕ) → a < prime → b < prime → add_raw p a b ≡ (a + b) % prime
  unfolding add_raw
  add_raw_lem a b ha hb = fit (a + b) (sum_small (small ha) (small hb))
    where
      sum_small : a < 2 ^ 32 → b < 2 ^ 32 → a + b < 2 ^ 64
      sum_small x y = omega arith

  pub neg_raw_lem : (a : ℕ) → a < prime → neg_raw p a ≡ (prime - a) % prime
  unfolding neg_raw
  neg_raw_lem a ha = ap (λ v. v % prime) (neg_small (2 ^ bits) prime a s.fits_store ha)

  pub sub_raw_lem : (a b : ℕ) → a < prime → b < prime → sub_raw p a b ≡ (prime + a - b) % prime
  unfolding sub_raw
  sub_raw_lem a b ha hb =
      ap (λ v. to_store p ((v + 2 ^ 64 - b) % 2 ^ 64 % prime))
        (mod-eq_of_lt (sum_small s.fits_u32 (small ha)))
      ∙ ap (λ v. to_store p (v % prime)) (sub_small prime a b s.fits_u32 (small ha) hb)
      ∙ store_mod (prime + a - b)
    where
      sum_small : prime < 2 ^ 32 → a < 2 ^ 32 → prime + a < 2 ^ 64
      sum_small x y = omega arith

  pub mul_raw_lem : (a b : ℕ) → a < prime → b < prime → mul_raw p a b ≡ a * b % prime
  unfolding mul_raw
  mul_raw_lem a b ha hb = fit (a * b) (mul_small a b (small ha) (small hb))
