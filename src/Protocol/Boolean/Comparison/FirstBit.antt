-- ===== src/Protocol/Boolean/Comparison/FirstBit.antt =====
-- src/protocol/boolean/comparison.rs: the first bit in which a shared number and a known one differ.
use raw_ipa.Prelude.{
  ℕ, suc, ◌<◌, ◌≡◌, refl, sym, ap, ◌∙◌, subst, Bool, true, false, not, ◌&&◌, ◌||◌, List, [], ◌∷◌,
  ◌++◌, reverse, length, map, Bool-cases, ◌⊎◌, inl, inr, if◌then◌else◌, arith,
}
use raw_ipa.Algebra.{Field, IsRing, 𝟘, 𝟙, ◌⊕◌, ◌⊖◌, ◌⊗◌}
use raw_ipa.Algebra.Solver.{Expr_field, var, solve, values, normalise}
use raw_ipa.Helpers.Role.{zip_three}
use raw_ipa.SecretSharing.Replicated.{sub}
use raw_ipa.SecretSharing.Sharing.{Sharing, Shares, IsReplicated, sub-Shares}
use raw_ipa.Protocol.Exchange.{Outcome, done}
use raw_ipa.Protocol.Computes.{Computes}
use raw_ipa.Protocol.Basics.KnownValue.{known, share_known_value-Shares}
use raw_ipa.Protocol.Basics.SumOfProducts.{
  Pairs, dot, AllShares, sum_of_products_all, sum_of_products-Computes,
}
use raw_ipa.Protocol.Boolean.Xor.{bit}
use raw_ipa.Protocol.Boolean.Or.{or-Computes}
use raw_ipa.Protocol.Boolean.SaturatingSum.Bits.{AllBits, none, more}
use raw_ipa.Protocol.Boolean.Comparison.{
  is_zero_at, zip_pairs, flipped, xored_bits, flip_bits, differences, from_last,
  first_differing_bit,
}
use raw_ipa.Protocol.Boolean.Comparison.Plain.{
  any, xors, rises, marks, chosen, chosen-none, true_ne, length-reverse, length-xors, rises-marks,
  reverse-cons,
}

module _ {ℓ} {A : Type ℓ} ⦃f : Field A⦄ where
  pub AllBits-append :
      {ss ts : List (Sharing A)} {bs cs : List Bool}
      → AllBits ss bs
      → AllBits ts cs
      → AllBits (ss ++ ts) (bs ++ cs)
  AllBits-append none k = k
  AllBits-append (more h hs) k = more h (AllBits-append hs k)

  pub AllBits-reverse :
      {ss : List (Sharing A)} {bs : List Bool} → AllBits ss bs → AllBits (reverse ss) (reverse bs)
  AllBits-reverse none = none
  AllBits-reverse (more {s} {b} {ss} {bs} h hs) =
      subst (λ t. AllBits t (reverse (b ∷ bs))) (sym (reverse-cons s ss))
        (subst (AllBits (reverse ss ++ (s ∷ []))) (sym (reverse-cons b bs))
          (AllBits-append (AllBits-reverse hs) (more h none)))

  -- Pairs of the values of bits.
  abbrev pub bit_pairs : List Bool → List Bool → Pairs A
  bit_pairs [] bits = []
  bit_pairs (x ∷ xs) [] = []
  bit_pairs (x ∷ xs) (a ∷ bits) = (bit x, bit a) ∷ bit_pairs xs bits

  pub zip_pairs-AllShares :
      {ss ts : List (Sharing A)} {bs cs : List Bool}
      → AllBits ss bs
      → AllBits ts cs
      → AllShares (zip_pairs ss ts) (bit_pairs bs cs)
  zip_pairs-AllShares none k = AllShares.none
  zip_pairs-AllShares (more h hs) none = AllShares.none
  zip_pairs-AllShares (more h hs) (more k ks) = AllShares.more h k (zip_pairs-AllShares hs ks)

module _ {ℓ} {A : Type ℓ} ⦃f : Field A⦄ (r : IsRing A) where
  flip_bit : (b : Bool) → 𝟙 ⊖ bit b ≡ bit {A = A} (not b)
  unfolding normalise
  flip_bit true = solve r (values []) (𝟙 ⊖ 𝟙) 𝟘 refl
  flip_bit false = solve r (values []) (𝟙 ⊖ 𝟘) 𝟙 refl

  pub flipped-Shares :
      (a : Sharing A) (b : Bool) → Shares a (bit b) → Shares (flipped a) (bit (not b))
  flipped-Shares a b h =
      subst (Shares (flipped a)) (flip_bit b)
        (sub-Shares r (known 𝟙) a (share_known_value-Shares r 𝟙) h)

  pub flip_bits-AllBits :
      {ss : List (Sharing A)} {bs : List Bool} → AllBits ss bs → AllBits (flip_bits ss) (map not bs)
  unfolding flip_bits
  flip_bits-AllBits none = none
  flip_bits-AllBits (more h hs) = more (flipped-Shares _ _ h) (flip_bits-AllBits hs)

  xor_known :
      (z : Bool) (a : Sharing A) (b : Bool)
      → Shares a (bit b)
      → Shares (if z then a else flipped a) (bit (if z then b else not b))
  xor_known true a b h = h
  xor_known false a b h = flipped-Shares a b h

  pub xored_bits-AllBits :
      (c i : ℕ) {ss : List (Sharing A)} {bs : List Bool}
      → AllBits ss bs
      → AllBits (xored_bits c i ss) (xors c i bs)
  unfolding xored_bits
  xored_bits-AllBits c i none = none
  xored_bits-AllBits c i (more h hs) =
      more (xor_known (is_zero_at c i) _ _ h) (xored_bits-AllBits c (suc i) hs)

  rise : (p y : Bool) → bit (p || y) ⊖ bit p ≡ bit {A = A} (not p && y)
  unfolding normalise
  rise true y = solve r (values []) (𝟙 ⊖ 𝟙) 𝟘 refl
  rise false true = solve r (values []) (𝟙 ⊖ 𝟘) 𝟙 refl
  rise false false = solve r (values []) (𝟘 ⊖ 𝟘) 𝟘 refl

  -- The sum of the products of the marked bit and another list is the bit that it chooses.
  pub dot-chosen :
      (xs bits : List Bool) → dot (bit_pairs (marks xs) bits) ≡ bit {A = A} (chosen xs bits)
  unfolding dot normalise
  dot-chosen [] bits = refl
  dot-chosen (x ∷ xs) [] = refl
  dot-chosen (x ∷ xs) (a ∷ bits) =
      ap (λ t. bit (not (any xs) && x) ⊗ bit a ⊕ t) (dot-chosen xs bits)
      ∙ one_set (not (any xs) && x) a (chosen xs bits) apart
    where
      one_set :
          (m a c : Bool)
          → (m ≡ false) ⊎ (c ≡ false)
          → bit m ⊗ bit a ⊕ bit c ≡ bit {A = A} (m && a || c)
      one_set true a true (inl e) = absurd (true_ne e)
      one_set true a true (inr e) = absurd (true_ne e)
      one_set true true false h = solve r (values []) (𝟙 ⊗ 𝟙 ⊕ 𝟘) 𝟙 refl
      one_set true false false h = solve r (values []) (𝟙 ⊗ 𝟘 ⊕ 𝟘) 𝟘 refl
      one_set false a c h = solve r (values (bit a ∷ bit c ∷ [])) (𝟘 ⊗ var 0 ⊕ var 1) (var 1) refl

      apart : ((not (any xs) && x) ≡ false) ⊎ (chosen xs bits ≡ false)
      apart = elim (Bool-cases (any xs)) [
        | inl e ↦ inl (rw e refl)
        | inr e ↦ inr (chosen-none xs bits e)
      ]

module _ {ℓ} {A : Type ℓ} ⦃f : Field A⦄ (r : IsRing A) (dec : Discrete A) (debug : Bool)
    (prss : ℕ → Sharing A) (hp : (i : ℕ) → IsReplicated (prss i)) where
  -- The helpers return, and hold sharings of bits.
  abbrev pub ComputesAll : Outcome (List (Sharing A)) → List Bool → Type ℓ
  ComputesAll o bs = (ss : List (Sharing A)) × (o ≡ done ss) × AllBits ss bs

  differences_lem :
      (i : ℕ) (prev : Sharing A) (p : Bool) {ss : List (Sharing A)} {bs : List Bool}
      → Shares prev (bit p)
      → AllBits ss bs
      → ComputesAll (differences dec debug prss i prev ss) (rises p bs)
  unfolding differences
  differences_lem i prev p hq none = ([], refl, none)
  differences_lem i prev p hq (more {s} {b} {ss} {bs} h hs) =
      let (result, e, k) = or-Computes r dec debug (prss i) prev s p b (hp i) hq h in
      let (zs, e', ks) = differences_lem (suc i) result (p || b) k hs in
      (
        zip_three sub result prev ∷ zs,
        rw (differences, e, e') refl,
        more
            (subst (Shares (zip_three sub result prev)) (rise r p b)
              (sub-Shares r result prev k hq))
            ks,
      )

  from_last_lem :
      {ss : List (Sharing A)} {bs : List Bool}
      → 0 < length bs
      → AllBits ss bs
      → ComputesAll (from_last dec debug prss ss) (reverse (rises false bs))
  unfolding from_last
  from_last_lem l none = absurd (omega arith)
  from_last_lem l (more {s} {b} {ss} {bs} h hs) =
      let (zs, e, ks) = differences_lem 0 s b h hs in
      (reverse (s ∷ zs), rw (from_last, e) refl, AllBits-reverse (more h ks))

  -- On sharings of at least one bit the protocol computes sharings of bits of which only the last is
  -- set in which the number and `c` differ.
  pub first_differing_bit_lem :
      (c : ℕ) {ss : List (Sharing A)} {bs : List Bool}
      → 0 < length bs
      → AllBits ss bs
      → ComputesAll (first_differing_bit dec debug prss ss c) (marks (xors c 0 bs))
  unfolding first_differing_bit
  first_differing_bit_lem c {bs} l h =
      subst (ComputesAll (first_differing_bit dec debug prss _ c)) (rises-marks (xors c 0 bs)) (
        from_last_lem (omega (arith, length-reverse (xors c 0 bs), length-xors c 0 bs))
          (AllBits-reverse (xored_bits-AllBits r c 0 h)))

  -- The last step: the product with the marked bit.
  pub choose :
      {ss ts : List (Sharing A)} (dot_prss : Sharing A) (xs bits : List Bool)
      → IsReplicated dot_prss
      → AllBits ss (marks xs)
      → AllBits ts bits
      → Computes (sum_of_products_all (zip_pairs ss ts) dot_prss) (bit (chosen xs bits))
  choose {ss} {ts} dot_prss xs bits k h hs =
      subst (Computes (sum_of_products_all (zip_pairs ss ts) dot_prss)) (dot-chosen r xs bits) (
        sum_of_products-Computes r (zip_pairs ss ts) (bit_pairs (marks xs) bits) dot_prss
          (zip_pairs-AllShares h hs) k)
