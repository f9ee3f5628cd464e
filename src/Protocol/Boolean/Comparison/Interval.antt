-- ===== src/Protocol/Boolean/Comparison/Interval.antt =====
-- src/protocol/boolean/comparison.rs: the bounds between which the mask lies.
use raw_ipa.Prelude.{
  ℕ, ◌+◌, ◌-◌, ◌%◌, ◌≤◌, ◌<◌, ◌≡◌, ap, ◌∙◌, not, ◌&&◌, ltb, ltb→lt, ltb→ge, ◌⊎◌, inl, inr, dec_lt,
  Bool-cases, arith,
}
use native.Mathlib.Nat.{mod-lt, mod-eq_of_lt, add-mod_right}
use raw_ipa.Protocol.Boolean.Comparison.{compute_r_bounds, evaluate}

above :
    (a r c p b : ℕ)
    → r < p
    → c < b
    → (b ≡ r + a) ⊎ (b + p ≡ r + a)
    → a < p
    → not (ltb (b - c - 1) r && ltb r (b + 1)) ≡ ltb c a
above a r c p b hr l h ha = ground arith

below :
    (a r c p b : ℕ)
    → r < p
    → b ≤ c
    → (b ≡ r + a) ⊎ (b + p ≡ r + a)
    → c < p
    → a < p
    → (ltb b r && ltb r (p + b - c)) ≡ ltb c a
below a r c p b hr l h hc ha = ground arith

refill : (n p : ℕ) → ¬ (n < p) → n ≡ (n - p) + p
refill n p h = omega (arith, h)

wrapped : (a r p : ℕ) → a < p → r < p → ((r + a) % p ≡ r + a) ⊎ ((r + a) % p + p ≡ r + a)
wrapped a r p ha hr = elim (dec_lt (r + a) p) [
  | yes l ↦ inl (mod-eq_of_lt l)
  | no l ↦ inr (
      ap (λ t. t + p)
        (ap (λ t. t % p) (refill (r + a) p l)
          ∙ add-mod_right (r + a - p) p
          ∙ mod-eq_of_lt (omega (arith, l)))
      ∙ omega (arith, l))
]

rest_lt : (n : ℕ) {k : ℕ} (p : ℕ) → k < p → n % p < p
rest_lt n p h = mod-lt n (omega arith)

-- For values below the prime, the mask lies between the bounds, or outside where they are inverted,
-- exactly if the masked value is greater than `c`. The bounds are at most the prime.
pub compute_r_bounds_lem :
    (a r c p : ℕ)
    → a < p
    → r < p
    → c < p
    → (evaluate (compute_r_bounds ((r + a) % p) c p) r ≡ ltb c a)
      × ((compute_r_bounds ((r + a) % p) c p).r_lo < p)
      × ((compute_r_bounds ((r + a) % p) c p).r_hi ≤ p)
unfolding compute_r_bounds evaluate
compute_r_bounds_lem a r c p ha hr hc = elim (Bool-cases (ltb c ((r + a) % p))) [
  | inl t ↦
      rw (compute_r_bounds, t)
        (
          above a r c p ((r + a) % p) hr (ltb→lt _ _ t) (wrapped a r p ha hr) ha,
          omega (arith, rest_lt (r + a) p ha),
          omega (arith, rest_lt (r + a) p ha),
        )
  | inr t ↦
      rw (compute_r_bounds, t)
        (
          below a r c p ((r + a) % p) hr (ltb→ge _ _ t) (wrapped a r p ha hr) hc ha,
          omega (arith, ltb→ge _ _ t),
          omega (arith, ltb→ge _ _ t),
        )
]
