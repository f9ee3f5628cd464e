-- ===== src/Protocol/Boolean/SaturatingSum/Delta.antt =====
-- src/protocol/boolean/saturating_sum.rs: the distance of a sum from its saturation point.
use raw_ipa.Prelude.{
  ℕ, zero, suc, ◌+◌, ◌-◌, ◌*◌, ◌%◌, ◌^◌, ◌≤◌, ◌≡◌, refl, sym, ap, subst, ◌∙◌, Bool, true, false,
  not, List, [], ◌∷◌, length, le→leb, ltb, lt→ltb, take, arith, length-take,
}
use native.Mathlib.Nat.{pow-succ', mul_assoc, mod_self, zero-mod, mul-zero, mul-one}
use raw_ipa.Algebra.{Field, IsRing, 𝟘, 𝟙, ◌⊕◌}
use raw_ipa.SecretSharing.Sharing.{Sharing, Shares, IsReplicated, zero_sharing}
use raw_ipa.Protocol.Exchange.{Outcome, done}
use raw_ipa.Protocol.Basics.KnownValue.{known, share_known_value-Shares}
use raw_ipa.Protocol.Boolean.Xor.{bit}
use raw_ipa.Protocol.Boolean.SaturatingSum.{
  SaturatingSum, subtract_bits, truncated_delta_to_saturation_point,
}
use raw_ipa.Protocol.Boolean.SaturatingSum.Bits.{
  number, from_bits, parity, carry, full_adder, AllBits, none, more, length-AllBits, zero-Shares,
  one_bit_subtractor_lem,
}

number-not : (b : Bool) → number (not b) + number b ≡ 1
number-not true = refl
number-not false = refl

-- One more bit below a difference.
weigh :
    (s c y n d z w a e : ℕ)
    → s + 2 * c ≡ 0 + n + d
    → n + y ≡ 1
    → z + a + 1 + w * e ≡ w + c
    → (s + 2 * z) + (y + 2 * a) + 1 + 2 * w * e ≡ 2 * w + d
weigh s c y n d z w a e h k l = omega (arith, mul_assoc 2 w e)

vanish : (v w : ℕ) (e : Bool) → v + 1 + w * number e ≡ w + 1 → v % w ≡ 0
vanish v w false h = ap (λ u. u % w) (whole v w (w * 0) (mul-zero w) h) ∙ mod_self w
  where
    whole : (v w u : ℕ) → u ≡ 0 → v + 1 + u ≡ w + 1 → v ≡ w
    whole v w u k h = omega arith
vanish v w true h = ap (λ u. u % w) (nothing v w (w * 1) (mul-one w) h) ∙ zero-mod w
  where
    nothing : (v w u : ℕ) → u ≡ w → v + 1 + u ≡ w + 1 → v ≡ 0
    nothing v w u k h = omega arith

module _ {ℓ} {A : Type ℓ} ⦃f : Field A⦄ (r : IsRing A) (two_zero : ◌≡◌ {A = A} (𝟙 ⊕ 𝟙) 𝟘)
    (dec : Discrete A) (debug : Bool) (prss : ℕ → Sharing A)
    (hp : (i : ℕ) → IsReplicated (prss i)) where
  -- What the loop computes: bits that with those of the subtrahend make up a power of two, but for a
  -- borrow.
  abbrev ComputesDifference : Outcome (List (Sharing A)) → List Bool → Bool → Type ℓ
  ComputesDifference o ys d =
      (zs : List (Sharing A)) × (bs : List Bool) × (e : Bool) × (o ≡ done zs)
      × AllBits zs bs
      × (length bs ≡ length ys)
      × (from_bits bs + from_bits ys + 1 + 2 ^ length ys * number e ≡ 2 ^ length ys + number d)

  subtract_bits_lem :
      (num_bits i : ℕ) (bits : List (Sharing A)) (ys : List Bool) (c : Sharing A) (d : Bool)
      → AllBits bits ys
      → Shares c (bit d)
      → num_bits ≡ i + length ys
      → ComputesDifference (subtract_bits dec debug prss num_bits i bits c) ys d
  unfolding subtract_bits
  subtract_bits_lem num_bits i bits ys c d none hc l = ([], [], d, refl, none, refl, omega arith)
  subtract_bits_lem num_bits i bits ys c d (more {s = y} {b} hy none) hc l =
      let (x, c', e, hx, hc') =
        one_bit_subtractor_lem r two_zero dec debug (prss i) (hp i) zero_sharing y c false b d
          (ltb i (num_bits - 1)) (zero-Shares r) hy hc in
      (
        x ∷ [],
        parity false (not b) d ∷ [],
        carry false (not b) d,
        rw e refl,
        more hx none,
        refl,
        weigh _ _ (number b) (number (not b)) (number d) 0 1 0 (number (carry false (not b) d))
            (full_adder false (not b) d) (number-not b) (omega arith),
      )
  subtract_bits_lem num_bits i bits ys c d
        (more {s = y} {b} {ss} {bs = rest} hy (more {b = b'} {bs = rest'} hy' hys)) hc l =
      let (x, c', e, hx, hc') =
        one_bit_subtractor_lem r two_zero dec debug (prss i) (hp i) zero_sharing y c false b d true
          (zero-Shares r) hy hc in
      let (zs, bs', e', p, hz, lz, total) =
        subtract_bits_lem num_bits (suc i) ss rest c' (carry false (not b) d) (more hy' hys) hc'
          (omega arith) in
      (
        x ∷ zs,
        parity false (not b) d ∷ bs',
        e',
        rw (lt→ltb i (num_bits - 1) (omega arith), e, p) refl,
        more hx hz,
        ap suc lz,
        subst
            (λ w.
              number (parity false (not b) d)
                + 2 * from_bits bs'
                + (number b + 2 * from_bits rest)
                + 1
                + w * number e'
              ≡ w + number d)
            (sym (pow-succ' 2 (length rest)))
            (weigh _ _ (number b) (number (not b)) (number d) (from_bits bs') (2 ^ length rest)
              (from_bits rest) (number e') (full_adder false (not b) d) (number-not b) total),
      )

  AllBits-take :
      (n : ℕ) {ss : List (Sharing A)} {bs : List Bool}
      → AllBits ss bs
      → AllBits (take n ss) (take n bs)
  AllBits-take zero h = none
  AllBits-take (suc n) none = none
  AllBits-take (suc n) (more h hs) = more h (AllBits-take n hs)

  -- Over a field in which 1 + 1 is 0, with correlated randomness and for as many bits as the sum
  -- has at most, all helpers return. They hold as many bits, of a number that with the lowest bits
  -- of the sum adds up to zero modulo 2 to the power of their count.
  pub truncated_delta-Computes :
      (s : SaturatingSum A) (ys : List Bool) (num_bits : ℕ)
      → AllBits s.sum ys
      → num_bits ≤ length ys
      → (zs : List (Sharing A)) × (bs : List Bool) × (truncated_delta_to_saturation_point dec debug
            prss s num_bits
          ≡ done zs)
        × AllBits zs bs
        × (length bs ≡ num_bits)
        × ((from_bits bs + from_bits (take num_bits ys)) % 2 ^ num_bits ≡ 0)
  unfolding truncated_delta_to_saturation_point
  truncated_delta-Computes s ys num_bits hs l =
      let (zs, bs, e, p, hz, lz, total) =
        subtract_bits_lem num_bits 0 (take num_bits s.sum) (take num_bits ys) (known 𝟙) true
          (AllBits-take num_bits hs) (share_known_value-Shares r 𝟙) (taken ∙ omega arith) in
      (
        zs,
        bs,
        rw (le→leb num_bits (length s.sum) (omega (arith, length-AllBits hs)), p) refl,
        hz,
        lz ∙ sym taken,
        subst (λ n. (from_bits bs + from_bits (take num_bits ys)) % 2 ^ n ≡ 0) (sym taken)
            (vanish _ _ e total),
      )
    where
      taken : num_bits ≡ length (take num_bits ys)
      taken = omega (arith, length-take num_bits ys)
