-- ===== src/Protocol/Boolean/Zeroes/Equal.antt =====
-- src/protocol/boolean/bitwise_equal.rs: the equality of numbers that are shared bit by bit.
use raw_ipa.Prelude.{
  ℕ, suc, ◌+◌, ◌*◌, ◌%◌, ◌^◌, ◌≤◌, ◌<◌, ◌≡◌, refl, sym, ap, ◌∙◌, subst, Bool, true, false, not,
  ◌&&◌, ◌||◌, List, [], ◌∷◌, length, leb, ◌==◌, le→leb, arith,
}
use mathlib.Core.Bool.{xor as xor_bool}
use raw_ipa.Algebra.{Field, IsRing, 𝟘, 𝟙, ◌⊕◌, ◌⊖◌}
use raw_ipa.Algebra.Solver.{Expr_field, solve, values, normalise}
use raw_ipa.Helpers.Role.{zip_three}
use raw_ipa.SecretSharing.Replicated.{sub}
use raw_ipa.SecretSharing.Sharing.{Sharing, Shares, IsReplicated, sub-Shares}
use raw_ipa.Protocol.Computes.{Computes}
use raw_ipa.Protocol.Boolean.Xor.{bit}
use raw_ipa.Protocol.Boolean.SaturatingSum.Bits.{
  AllBits, none, more, number, from_bits, length-AllBits,
}
use raw_ipa.Protocol.Boolean.Comparison.{xored_bits}
use raw_ipa.Protocol.Boolean.Comparison.Plain.{
  any, xors, low, length-xors, Verdict, greater, less, equal, verdict,
}
use raw_ipa.Protocol.Boolean.Comparison.FirstBit.{xored_bits-AllBits}
use raw_ipa.Protocol.Boolean.Comparison.Constant.{low_bits}
use raw_ipa.Protocol.Boolean.Zeroes.{zip_sub, all_zeroes, bitwise_equal_constant, bitwise_equal_gf2}
use raw_ipa.Protocol.Boolean.Zeroes.Tree.{all_zeroes-Computes}

same_is : (m n : ℕ) → m ≡ n → (m == n) ≡ true
same_is m n e = ground arith

less_is : (m n : ℕ) → m < n → (m == n) ≡ false
less_is m n h = ground arith

greater_is : (m n : ℕ) → n < m → (m == n) ≡ false
greater_is m n h = ground arith

Verdict-eq : (xs bits : List Bool) (n c : ℕ) → Verdict xs bits n c → not (any xs) ≡ (n == c)
Verdict-eq xs bits n c (greater e p q l) = ap not e ∙ sym (greater_is n c l)
Verdict-eq xs bits n c (less e p q l) = ap not e ∙ sym (less_is n c l)
Verdict-eq xs bits n c (equal e p q h) = ap not e ∙ sym (same_is n c h)

-- The bits in which two numbers differ.
abbrev pub differ : List Bool → List Bool → List Bool
differ [] bs = []
differ (a ∷ as') [] = []
differ (a ∷ as') (b ∷ bs) = xor_bool a b ∷ differ as' bs

one_more :
    (a b rest : Bool) (m n : ℕ)
    → not rest ≡ (m == n)
    → not (xor_bool a b || rest) ≡ (number a + 2 * m == number b + 2 * n)
unfolding xor_bool
one_more true true rest m n e = e ∙ ground arith
one_more true false rest m n e = ground arith
one_more false true rest m n e = ground arith
one_more false false rest m n e = e ∙ ground arith

differ_lem :
    (as' bs : List Bool)
    → length as' ≡ length bs
    → not (any (differ as' bs)) ≡ (from_bits as' == from_bits bs)
differ_lem [] [] e = refl
differ_lem [] (b ∷ bs) e = absurd (omega arith)
differ_lem (a ∷ as') [] e = absurd (omega arith)
differ_lem (a ∷ as') (b ∷ bs) e =
    one_more a b (any (differ as' bs)) (from_bits as') (from_bits bs)
      (differ_lem as' bs (omega arith))

length-differ : (as' bs : List Bool) → length as' ≡ length bs → length (differ as' bs) ≡ length as'
length-differ [] bs e = refl
length-differ (a ∷ as') [] e = absurd (omega arith)
length-differ (a ∷ as') (b ∷ bs) e = ap suc (length-differ as' bs (omega arith))

accepted : (debug : Bool) (m n : ℕ) → m ≡ n → (debug && not (m == n)) ≡ false
accepted true m n e = ap not (same_is m n e)
accepted false m n e = refl

module _ {ℓ} {A : Type ℓ} ⦃f : Field A⦄ (r : IsRing A) (two_zero : ◌≡◌ {A = A} (𝟙 ⊕ 𝟙) 𝟘) where
  sub_bits : (a b : Bool) → bit a ⊖ bit b ≡ bit {A = A} (xor_bool a b)
  unfolding xor_bool normalise
  sub_bits true true = solve r (values []) (𝟙 ⊖ 𝟙) 𝟘 refl
  sub_bits true false = solve r (values []) (𝟙 ⊖ 𝟘) 𝟙 refl
  sub_bits false true = ap (λ z. z ⊖ 𝟙) (sym two_zero) ∙ solve r (values []) (𝟙 ⊕ 𝟙 ⊖ 𝟙) 𝟙 refl
  sub_bits false false = solve r (values []) (𝟘 ⊖ 𝟘) 𝟘 refl

  zip_sub-AllBits :
      {ss ts : List (Sharing A)} {as' bs : List Bool}
      → AllBits ss as'
      → AllBits ts bs
      → AllBits (zip_sub ss ts) (differ as' bs)
  zip_sub-AllBits none k = none
  zip_sub-AllBits (more h hs) none = none
  zip_sub-AllBits (more {s} {b} h hs) (more {s = t} {b = c} k ks) =
      more (subst (λ v. Shares (zip_three sub s t) v) (sub_bits b c) (sub-Shares r s t h k))
        (zip_sub-AllBits hs ks)

module _ {ℓ} {A : Type ℓ} ⦃f : Field A⦄ (r : IsRing A) (dec : Discrete A) (debug : Bool)
    (prss : ℕ → Sharing A) (hp : (i : ℕ) → IsReplicated (prss i)) where
  -- With correlated randomness, on sharings of 1 to 128 bits the protocol computes a sharing of the
  -- bit that tells whether their number is that of the same number of low bits of `c`.
  pub bitwise_equal_constant-Computes :
      (a : List (Sharing A)) (bits : List Bool) (c : ℕ)
      → AllBits a bits
      → 0 < length bits
      → length bits ≤ 128
      → Computes
          (bitwise_equal_constant dec debug prss a c)
          (bit (from_bits bits == (c % 2 ^ length bits)))
  unfolding bitwise_equal_constant
  bitwise_equal_constant-Computes a bits c h l m =
      let fits : leb (length a) 128 ≡ true = le→leb _ _ (omega (arith, length-AllBits h)) in
      rw (bitwise_equal_constant, fits)
        (subst (λ b. Computes (all_zeroes dec debug prss (xored_bits c 0 a)) (bit b))
          (Verdict-eq (xors c 0 bits) bits (from_bits bits) (low c 0 (length bits))
              (verdict c 0 bits)
            ∙ ap (λ t. from_bits bits == t) (low_bits c (length bits)))
          (all_zeroes-Computes r dec debug prss hp (xored_bits-AllBits r c 0 h)
            (omega (arith, length-xors c 0 bits))))

  -- With correlated randomness, over a field in which 1 + 1 is 0, on sharings of two lists of equally
  -- many bits, one at least, the protocol computes a sharing of the bit that tells whether their
  -- numbers are equal.
  pub bitwise_equal_gf2-Computes :
      (two_zero : ◌≡◌ {A = A} (𝟙 ⊕ 𝟙) 𝟘)
      → (a b : List (Sharing A)) (as' bs : List Bool) → AllBits a as'
      → AllBits b bs
      → length as' ≡ length bs
      → 0 < length as'
      → Computes (bitwise_equal_gf2 dec debug prss a b) (bit (from_bits as' == from_bits bs))
  unfolding bitwise_equal_gf2
  bitwise_equal_gf2-Computes two_zero a b as' bs h k e l =
      rw
        (
          bitwise_equal_gf2,
          accepted debug (length a) (length b) (length-AllBits h ∙ e ∙ sym (length-AllBits k)),
        )
        (subst (λ c. Computes (all_zeroes dec debug prss (zip_sub a b)) (bit c))
          (differ_lem as' bs e)
          (all_zeroes-Computes r dec debug prss hp (zip_sub-AllBits r two_zero h k)
            (omega (arith, length-differ as' bs e, l))))
