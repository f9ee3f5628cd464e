-- ===== src/Protocol/Boolean/Comparison/Greater.antt =====
-- src/protocol/boolean/comparison.rs: a shared value against a known one, without its bits.
use raw_ipa.Prelude.{
  ℕ, ◌+◌, ◌%◌, ◌^◌, ◌≤◌, ◌<◌, ◌≡◌, refl, sym, ap, ◌∙◌, subst, Bool, true, false, not, ◌&&◌, List,
  length, ltb, lt→ltb, if◌then◌else◌, arith,
}
use mathlib.Core.Logic.{if_pos}
use native.Mathlib.Nat.{mod-eq_of_lt}
use raw_ipa.Algebra.{Field, IsRing, ◌⊕◌}
use raw_ipa.Helpers.Role.{zip_three}
use raw_ipa.SecretSharing.Replicated.{add}
use raw_ipa.SecretSharing.Sharing.{Sharing, Shares, IsReplicated, add-Shares}
use raw_ipa.Protocol.Computes.{Computes}
use raw_ipa.Protocol.Basics.SecureMul.{mul-Computes}
use raw_ipa.Protocol.Basics.Reveal.{reveal_all_lem}
use raw_ipa.Protocol.Boolean.Xor.{bit}
use raw_ipa.Protocol.Boolean.SaturatingSum.Bits.{AllBits, from_bits, bit-mul}
use raw_ipa.Protocol.Boolean.Comparison.{
  RBounds, compute_r_bounds, evaluate, RandomBitsShare, flipped, compare_masked, agreeing,
  greater_than_constant,
}
use raw_ipa.Protocol.Boolean.Comparison.FirstBit.{flipped-Shares}
use raw_ipa.Protocol.Boolean.Comparison.Constant.{
  bitwise_greater_than_constant-Computes, bitwise_less_than_constant-Computes,
}
use raw_ipa.Protocol.Boolean.Comparison.Interval.{compute_r_bounds_lem}

-- The elements of a field are the numbers below a prime, with addition modulo the prime.
pub record IsModular {ℓ} (A : Type ℓ) ⦃f : Field A⦄ (as_u128 : A → ℕ) (prime : ℕ) : Type ℓ where
  pub is_below : (a : A) → as_u128 a < prime
  pub is_sum : (a b : A) → as_u128 (a ⊕ b) ≡ (as_u128 a + as_u128 b) % prime

same_test :
    (bounds : RBounds) (n m : ℕ)
    → bounds.r_lo < m
    → bounds.r_hi < m
    → (if bounds.invert
        then not (ltb (bounds.r_lo % m) n && ltb n (bounds.r_hi % m))
        else ltb (bounds.r_lo % m) n && ltb n (bounds.r_hi % m))
      ≡ evaluate bounds n
unfolding evaluate
same_test bounds n m h k = rw (mod-eq_of_lt h, mod-eq_of_lt k) refl

module _ {ℓ} {A : Type ℓ} ⦃f : Field A⦄ where
  -- The shares of a random value, and of all its bits: enough for any value below the prime.
  pub record IsRandomBits (as_u128 : A → ℕ) (prime : ℕ) (r : RandomBitsShare A) : Type ℓ where
    pub random : A
    pub bits : List Bool
    pub shares_b_p : Shares r.b_p random
    pub shares_b_b : AllBits r.b_b bits
    pub same_number : as_u128 random ≡ from_bits bits
    pub some_bits : 0 < length bits
    pub few_bits : length bits ≤ 128
    pub enough_bits : prime < 2 ^ length bits

module _ {ℓ} {A : Type ℓ} ⦃f : Field A⦄ (ring : IsRing A) (dec : Discrete A) (debug : Bool)
    (as_u128 : A → ℕ) (prime : ℕ) (modular : IsModular A as_u128 prime)
    (lo_prss hi_prss : ℕ → Sharing A) (lo_dot_prss hi_dot_prss and_prss : Sharing A)
    (h_lo : (i : ℕ) → IsReplicated (lo_prss i)) (h_hi : (i : ℕ) → IsReplicated (hi_prss i))
    (h_lo_dot : IsReplicated lo_dot_prss) (h_hi_dot : IsReplicated hi_dot_prss)
    (h_and : IsReplicated and_prss) where
  invert_if :
      (invert b : Bool) (s : Sharing A)
      → Shares s (bit b)
      → Shares (if invert then flipped s else s) (bit (if invert then not b else b))
  invert_if true b s h = flipped-Shares ring s b h
  invert_if false b s h = h

  facts :
      (r : RandomBitsShare A) (h : IsRandomBits as_u128 prime r) (c : ℕ) (v : A)
      → c < prime
      → (evaluate (compute_r_bounds (as_u128 (h.random ⊕ v)) c prime) (from_bits h.bits)
          ≡ ltb c (as_u128 v))
        × ((compute_r_bounds (as_u128 (h.random ⊕ v)) c prime).r_lo < prime)
        × ((compute_r_bounds (as_u128 (h.random ⊕ v)) c prime).r_hi ≤ prime)
  facts r h c v l =
      subst
        (λ b.
          (evaluate (compute_r_bounds b c prime) (from_bits h.bits) ≡ ltb c (as_u128 v))
          × ((compute_r_bounds b c prime).r_lo < prime)
          × ((compute_r_bounds b c prime).r_hi ≤ prime))
        (sym (modular.is_sum h.random v ∙ ap (λ n. (n + as_u128 v) % prime) h.same_number))
        (compute_r_bounds_lem (as_u128 v) (from_bits h.bits) c prime (modular.is_below v)
          (subst (λ n. n < prime) h.same_number (modular.is_below h.random)) l)

  compare_masked-Computes :
      (r : RandomBitsShare A) (h : IsRandomBits as_u128 prime r) (c : ℕ) (v : A)
      → c < prime
      → Computes
          (compare_masked dec debug as_u128 prime lo_prss hi_prss lo_dot_prss hi_dot_prss and_prss r
            c
            (h.random ⊕ v))
          (bit (ltb c (as_u128 v)))
  unfolding compare_masked
  compare_masked-Computes r h c v l =
      let bounds = compute_r_bounds (as_u128 (h.random ⊕ v)) c prime in
      let (gt, e1, k1) =
        bitwise_greater_than_constant-Computes ring dec debug lo_prss h_lo lo_dot_prss h_lo_dot
          r.b_b h.bits bounds.r_lo h.shares_b_b h.some_bits h.few_bits in
      let (lt, e2, k2) =
        bitwise_less_than_constant-Computes ring dec debug hi_prss h_hi hi_dot_prss h_hi_dot r.b_b
          h.bits bounds.r_hi h.shares_b_b h.some_bits h.few_bits in
      let (both, e3, k3) = mul-Computes ring dec debug gt lt and_prss k1 k2 h_and in
      (
        (if bounds.invert then flipped both else both),
        rw (compare_masked, e1, e2, e3) refl,
        subst (λ b. Shares (if bounds.invert then flipped both else both) (bit b))
            (same_test bounds (from_bits h.bits) (2 ^ length h.bits)
                (omega (arith, (facts r h c v l).1, h.enough_bits))
                (omega (arith, (facts r h c v l).2, h.enough_bits))
              ∙ (facts r h c v l).0)
            (invert_if bounds.invert _ both (subst (Shares both) (bit-mul ring _ _) k3)),
      )

  -- With correlated randomness and shared random bits, enough for any value below the prime, the
  -- protocol computes from a shared value and any `c` below the prime a sharing of the bit that
  -- tells whether the value is greater than `c`, in a field whose elements are the numbers below
  -- the prime.
  pub greater_than_constant-Computes :
      (r : RandomBitsShare A) (h : IsRandomBits as_u128 prime r) (a : Sharing A) (c : ℕ) (v : A)
      → c < prime
      → Shares a v
      → Computes
          (greater_than_constant dec debug as_u128 prime lo_prss hi_prss lo_dot_prss hi_dot_prss
            and_prss r a c)
          (bit (ltb c (as_u128 v)))
  unfolding greater_than_constant agreeing
  greater_than_constant-Computes r h a c v l s =
      rw
        (
          greater_than_constant,
          lt→ltb c prime l,
          reveal_all_lem ring (zip_three add r.b_p a) (add-Shares ring r.b_p a h.shares_b_p s),
          if_pos (dec (h.random ⊕ v) (h.random ⊕ v)) refl,
          if_pos (dec (h.random ⊕ v) (h.random ⊕ v)) refl,
        )
        (compare_masked-Computes r h c v l)
