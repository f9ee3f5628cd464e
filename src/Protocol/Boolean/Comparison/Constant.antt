-- ===== src/Protocol/Boolean/Comparison/Constant.antt =====
-- src/protocol/boolean/comparison.rs: a number that is shared bit by bit against a known one.
use raw_ipa.Prelude.{
  ℕ, ◌%◌, ◌^◌, ◌≤◌, ◌<◌, ◌≡◌, sym, ap, ◌∙◌, subst, Bool, true, not, List, length, map, leb, ltb,
  lt→ltb, ge→ltb, le→leb, arith,
}
use raw_ipa.Algebra.{Field, IsRing}
use raw_ipa.SecretSharing.Sharing.{Sharing, IsReplicated}
use raw_ipa.Protocol.Computes.{Computes}
use raw_ipa.Protocol.Boolean.Xor.{bit}
use raw_ipa.Protocol.Boolean.SaturatingSum.Bits.{AllBits, from_bits, length-AllBits}
use raw_ipa.Protocol.Basics.SumOfProducts.{sum_of_products_all}
use raw_ipa.Protocol.Boolean.Comparison.{
  zip_pairs, flip_bits, bitwise_greater_than_constant, bitwise_less_than_constant,
}
use raw_ipa.Protocol.Boolean.Comparison.Plain.{
  xors, chosen, low, low_lem, Verdict, greater, less, equal, verdict,
}
use raw_ipa.Protocol.Boolean.Comparison.FirstBit.{
  first_differing_bit_lem, choose, flip_bits-AllBits,
}

Verdict-gt : (xs bits : List Bool) (n c : ℕ) → Verdict xs bits n c → chosen xs bits ≡ ltb c n
Verdict-gt xs bits n c (greater e p q l) = p ∙ sym (lt→ltb c n l)
Verdict-gt xs bits n c (less e p q l) = p ∙ sym (ge→ltb c n (omega arith))
Verdict-gt xs bits n c (equal e p q l) = p ∙ sym (ge→ltb c n (omega arith))

Verdict-lt :
    (xs bits : List Bool) (n c : ℕ) → Verdict xs bits n c → chosen xs (map not bits) ≡ ltb n c
Verdict-lt xs bits n c (greater e p q l) = q ∙ sym (ge→ltb n c (omega arith))
Verdict-lt xs bits n c (less e p q l) = q ∙ sym (lt→ltb n c l)
Verdict-lt xs bits n c (equal e p q l) = q ∙ sym (ge→ltb n c (omega arith))

-- The bits of `c` from the first on.
pub low_bits : (c n : ℕ) → low c 0 n ≡ c % 2 ^ n
low_bits c n = low_lem c 0 n ∙ ap (λ t. t % 2 ^ n) (omega arith)

module _ {ℓ} {A : Type ℓ} ⦃f : Field A⦄ (r : IsRing A) (dec : Discrete A) (debug : Bool)
    (prss : ℕ → Sharing A) (hp : (i : ℕ) → IsReplicated (prss i)) (dot_prss : Sharing A)
    (hd : IsReplicated dot_prss) where
  -- With correlated randomness, on sharings of 1 to 128 bits the protocol computes a sharing of the
  -- bit that tells whether their number is greater than that of the same number of low bits of `c`.
  pub bitwise_greater_than_constant-Computes :
      (a : List (Sharing A)) (bits : List Bool) (c : ℕ)
      → AllBits a bits
      → 0 < length bits
      → length bits ≤ 128
      → Computes
          (bitwise_greater_than_constant dec debug prss dot_prss a c)
          (bit (ltb (c % 2 ^ length bits) (from_bits bits)))
  unfolding bitwise_greater_than_constant
  bitwise_greater_than_constant-Computes a bits c h l m =
      let (ss, e, hs) = first_differing_bit_lem r dec debug prss hp c l h in
      let fits : leb (length a) 128 ≡ true = le→leb _ _ (omega (arith, length-AllBits h)) in
      rw (bitwise_greater_than_constant, fits, e)
        (subst (λ b. Computes (sum_of_products_all (zip_pairs ss a) dot_prss) (bit b))
          (Verdict-gt (xors c 0 bits) bits (from_bits bits) (low c 0 (length bits))
              (verdict c 0 bits)
            ∙ ap (λ t. ltb t (from_bits bits)) (low_bits c (length bits)))
          (choose r dec debug prss hp dot_prss (xors c 0 bits) bits hd hs h))

  -- The same, for the bit that tells whether their number is less.
  pub bitwise_less_than_constant-Computes :
      (a : List (Sharing A)) (bits : List Bool) (c : ℕ)
      → AllBits a bits
      → 0 < length bits
      → length bits ≤ 128
      → Computes
          (bitwise_less_than_constant dec debug prss dot_prss a c)
          (bit (ltb (from_bits bits) (c % 2 ^ length bits)))
  unfolding bitwise_less_than_constant
  bitwise_less_than_constant-Computes a bits c h l m =
      let (ss, e, hs) = first_differing_bit_lem r dec debug prss hp c l h in
      let fits : leb (length a) 128 ≡ true = le→leb _ _ (omega (arith, length-AllBits h)) in
      rw (bitwise_less_than_constant, fits, e)
        (subst (λ b. Computes (sum_of_products_all (zip_pairs ss (flip_bits a)) dot_prss) (bit b))
          (Verdict-lt (xors c 0 bits) bits (from_bits bits) (low c 0 (length bits))
              (verdict c 0 bits)
            ∙ ap (λ t. ltb (from_bits bits) t) (low_bits c (length bits)))
          (choose r dec debug prss hp dot_prss (xors c 0 bits) (map not bits) hd hs
            (flip_bits-AllBits r h)))
