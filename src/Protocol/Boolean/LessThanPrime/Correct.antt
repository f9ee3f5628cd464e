-- ===== src/Protocol/Boolean/LessThanPrime/Correct.antt =====
-- src/protocol/boolean/bitwise_less_than_prime.rs: what the protocol computes on shared bits.
use raw_ipa.Prelude.{
  ℕ, zero, suc, ◌+◌, ◌-◌, ◌%◌, ◌^◌, ◌≤◌, ◌<◌, ◌≡◌, refl, sym, ap, ◌∙◌, subst, compare, Ordering,
  compare-cases, Bool, true, false, not, ◌&&◌, ◌||◌, inl, inr, List, [], ◌∷◌, length, take, drop,
  length-take, length-drop, leb, ltb, lt→ltb, ◌==◌, arith,
}
use raw_ipa.Algebra.{Field, IsRing, 𝟘, 𝟙, ◌⊕◌}
use raw_ipa.Algebra.Solver.{Expr_field, solve, values, normalise}
use raw_ipa.Helpers.Role.{zip_three}
use raw_ipa.SecretSharing.Replicated.{add}
use raw_ipa.SecretSharing.Sharing.{Sharing, Shares, IsReplicated, add-Shares}
use raw_ipa.Protocol.Exchange.{Outcome, ◌>>=◌}
use raw_ipa.Protocol.Computes.{Computes}
use raw_ipa.Protocol.Basics.SecureMul.{mul, mul-Computes}
use raw_ipa.Protocol.Boolean.Xor.{bit}
use raw_ipa.Protocol.Boolean.Or.{or-Computes}
use raw_ipa.Protocol.Boolean.SaturatingSum.Bits.{
  AllBits, none, more, from_bits, bit-mul, length-AllBits,
}
use raw_ipa.Protocol.Boolean.Comparison.{flipped}
use raw_ipa.Protocol.Boolean.Comparison.Plain.{any}
use raw_ipa.Protocol.Boolean.Comparison.FirstBit.{flipped-Shares}
use raw_ipa.Protocol.Boolean.Zeroes.{multiply_all_shares}
use raw_ipa.Protocol.Boolean.Zeroes.Tree.{multiply_all_shares-Computes, any_ones-Computes, all}
use raw_ipa.Protocol.Boolean.LessThanPrime.{
  Step, check_if_any_ones, check_if_all_ones, check_least_significant, leading_ones_or_rest,
  all_ones_and_final_bits, check_least_significant_bits, greater_than_or_equal_to_prime_trimmed,
  greater_than_or_equal_to_prime, less_than_prime,
}
use raw_ipa.Protocol.Boolean.LessThanPrime.Plain.{
  IsSupported, mersenne, five_less, bit_length_lem, all_lem, least, least_lem, rem_eight,
  leading_lem,
}

module _ {ℓ} {A : Type ℓ} ⦃f : Field A⦄ where
  AllBits-take :
      (n : ℕ) {ss : List (Sharing A)} {bs : List Bool}
      → AllBits ss bs
      → AllBits (take n ss) (take n bs)
  AllBits-take zero h = none
  AllBits-take (suc n) none = none
  AllBits-take (suc n) (more h hs) = more h (AllBits-take n hs)

  AllBits-drop :
      (n : ℕ) {ss : List (Sharing A)} {bs : List Bool}
      → AllBits ss bs
      → AllBits (drop n ss) (drop n bs)
  AllBits-drop zero h = h
  AllBits-drop (suc n) none = none
  AllBits-drop (suc n) (more h hs) = AllBits-drop n hs

same : (m n : ℕ) → m ≡ n → (m == n) ≡ true
same m n e = ground arith

checked : (debug b : Bool) → b ≡ true → (debug && not b) ≡ false
checked true b e = ap not e
checked false b e = refl

fits : {prime l : ℕ} → IsSupported prime l → prime < 2 ^ l
fits (mersenne pos small e) = omega arith
fits (five_less pos small e) = omega arith

not-leb : (m n : ℕ) → not (leb m n) ≡ ltb n m
not-leb m n = ground arith

-- The tests by which the trimmed protocol chooses its branch.
is_mersenne : (prime p : ℕ) → prime + 1 ≡ p → (prime == (p - 1)) ≡ true
is_mersenne prime p e = same prime (p - 1) (omega arith)

not_mersenne : (prime p : ℕ) → prime + 5 ≡ p → (prime == (p - 1)) ≡ false
not_mersenne prime p e = ground arith

module _ {ℓ} {A : Type ℓ} ⦃f : Field A⦄ (r : IsRing A) (dec : Discrete A) (debug : Bool) (prime : ℕ)
    (prss : Step → ℕ → Sharing A) (hp : (s : Step) (i : ℕ) → IsReplicated (prss s i)) where
  add_last : (x c : Bool) → bit (not c && x) ⊕ bit c ≡ bit {A = A} ((not c && x) || c)
  unfolding normalise
  add_last x true = solve r (values []) (𝟘 ⊕ 𝟙) 𝟙 refl
  add_last true false = solve r (values []) (𝟙 ⊕ 𝟘) 𝟙 refl
  add_last false false = solve r (values []) (𝟘 ⊕ 𝟘) 𝟘 refl

  -- The branch of the protocol for a prime that is 5 below a power of two.
  abbrev five_less_branch : List (Sharing A) → Outcome (Sharing A)
  five_less_branch x = do
    least_bits ← check_least_significant_bits dec debug prime prss (take 3 x)
    most_all_ones ← multiply_all_shares dec debug (prss check_if_all_ones) (drop 3 x)
    mul dec debug least_bits most_all_ones (prss all_ones_and_final_bits 0)

  -- On three bits the protocol computes whether the last is set or both others are.
  check_lem :
      (s0 s1 s2 : Sharing A) (a b c : Bool)
      → prime % 8 ≡ 3
      → Shares s0 (bit a)
      → Shares s1 (bit b)
      → Shares s2 (bit c)
      → Computes
          (check_least_significant_bits dec debug prime prss (s0 ∷ s1 ∷ s2 ∷ []))
          (bit (least a b c))
  unfolding check_least_significant_bits
  check_lem s0 s1 s2 a b c m h0 h1 h2 =
      let (both, e, k) =
        mul-Computes r dec debug s0 s1 (prss check_least_significant 0) h0 h1 (hp _ 0) in
      let (final, e', k') =
        mul-Computes r dec debug (flipped s2) both (prss check_least_significant 1)
          (flipped-Shares r s2 c h2) (subst (λ v. Shares both v) (bit-mul r a b) k) (hp _ 1) in
      (
        zip_three add final s2,
        rw
            (
              check_least_significant_bits,
              checked debug (((prime % 8) == 3) && true)
                  (ap (λ b. b && true) (same (prime % 8) 3 m)),
              e,
              e',
            )
            refl,
        subst (λ v. Shares (zip_three add final s2) v) (add_last (a && b) c)
            (add-Shares r final s2 (subst (λ v. Shares final v) (bit-mul r (not c) (a && b)) k')
              h2),
      )

  five_less_lem :
      {s0 s1 s2 : Sharing A} {ss : List (Sharing A)} (a b c : Bool) (bs : List Bool)
      → 3 < length (a ∷ b ∷ c ∷ bs)
      → prime + 5 ≡ 2 ^ length (a ∷ b ∷ c ∷ bs)
      → Shares s0 (bit a)
      → Shares s1 (bit b)
      → Shares s2 (bit c)
      → AllBits ss bs
      → Computes
          (five_less_branch (s0 ∷ s1 ∷ s2 ∷ ss))
          (bit (leb prime (from_bits (a ∷ b ∷ c ∷ bs))))
  five_less_lem {s0} {s1} {s2} {ss} a b c bs pos e h0 h1 h2 hs =
      let (x, q, k) = check_lem s0 s1 s2 a b c (rem_eight prime _ pos e) h0 h1 h2 in
      let (y, q', k') =
        multiply_all_shares-Computes r dec debug (prss check_if_all_ones) (hp _) hs (omega arith) in
      let (z, q'', k'') =
        mul-Computes r dec debug x y (prss all_ones_and_final_bits 0) k k' (hp _ 0) in
      (
        z,
        rw (q, q') q'',
        subst (λ v. Shares z v)
            (bit-mul r (least a b c) (all bs) ∙ ap bit (least_lem a b c bs prime e)) k'',
      )

  -- On as many bits as the prime has.
  trimmed_lem :
      {ss : List (Sharing A)} (bs : List Bool)
      → IsSupported prime (length bs)
      → AllBits ss bs
      → Computes
          (greater_than_or_equal_to_prime_trimmed dec debug prime prss ss)
          (bit (leb prime (from_bits bs)))
  unfolding greater_than_or_equal_to_prime_trimmed
  trimmed_lem {ss} bs (mersenne pos small e) h =
      rw
        (
          greater_than_or_equal_to_prime_trimmed,
          bit_length_lem (mersenne pos small e),
          checked debug _ (same (length ss) (length bs) (length-AllBits h)),
          lt→ltb (length bs) 128 small,
          is_mersenne prime (2 ^ length bs) e,
        )
        (subst (λ b. Computes (multiply_all_shares dec debug (prss check_if_all_ones) ss) (bit b))
          (all_lem bs prime e)
          (multiply_all_shares-Computes r dec debug (prss check_if_all_ones) (hp _) h pos))
  trimmed_lem {ss = whole} (a ∷ b ∷ c ∷ bs) (five_less pos small e)
        (more h0 (more h1 (more h2 hs))) =
      rw
        (
          greater_than_or_equal_to_prime_trimmed,
          bit_length_lem (five_less pos small e),
          checked debug _ (same (length whole) _ (length-AllBits (more h0 (more h1 (more h2 hs))))),
          lt→ltb (length (a ∷ b ∷ c ∷ bs)) 128 small,
          not_mersenne prime (2 ^ length (a ∷ b ∷ c ∷ bs)) e,
          same (prime + 5) (2 ^ length (a ∷ b ∷ c ∷ bs)) e,
        )
        (five_less_lem a b c bs pos e h0 h1 h2 hs)
  trimmed_lem [] (five_less pos small e) h = absurd (omega arith)
  trimmed_lem (a ∷ []) (five_less pos small e) h = absurd (omega arith)
  trimmed_lem (a ∷ b ∷ []) (five_less pos small e) h = absurd (omega arith)

  longer :
      (l : ℕ) {ss : List (Sharing A)} {bs : List Bool}
      → IsSupported prime l
      → AllBits ss bs
      → l < length bs
      → compare (length ss) l ≡ Ordering.gt
      → Computes
          (greater_than_or_equal_to_prime dec debug prime prss ss)
          (bit (leb prime (from_bits bs)))
  unfolding greater_than_or_equal_to_prime
  longer l {ss} {bs} v h n c =
      let (x, q, k) =
        any_ones-Computes r dec debug (prss check_if_any_ones) (hp _) (AllBits-drop l h)
          (omega (arith, length-drop l bs)) in
      let (y, q', k') =
        trimmed_lem (take l bs) (subst (IsSupported prime) (omega (arith, length-take l bs)) v)
          (AllBits-take l h) in
      let (z, q'', k'') =
        or-Computes r dec debug (prss leading_ones_or_rest 0) x y (any (drop l bs))
          (leb prime (from_bits (take l bs))) (hp _ 0) k k' in
      (
        z,
        rw (greater_than_or_equal_to_prime, bit_length_lem v, c, bit_length_lem v, q, q') q'',
        subst (λ b. Shares z (bit b)) (leading_lem l bs prime (omega arith) (fits v)) k'',
      )

  -- For a prime that is 1 or 5 below a power of two, and with correlated randomness, on sharings of
  -- at least as many bits as the prime has, the protocol computes a sharing of the bit that tells
  -- whether their number is not below the prime.
  pub greater_than_or_equal_to_prime-Computes :
      (l : ℕ) (ss : List (Sharing A)) (bs : List Bool)
      → IsSupported prime l
      → AllBits ss bs
      → l ≤ length bs
      → Computes
          (greater_than_or_equal_to_prime dec debug prime prss ss)
          (bit (leb prime (from_bits bs)))
  unfolding greater_than_or_equal_to_prime
  greater_than_or_equal_to_prime-Computes l ss bs v h n = elim (compare-cases (length ss) l) [
    | inl (c, m) ↦ absurd (omega (arith, length-AllBits h))
    | inr (inl (c, m)) ↦
        rw (greater_than_or_equal_to_prime, bit_length_lem v, c)
          (trimmed_lem bs (subst (IsSupported prime) (sym m ∙ length-AllBits h) v) h)
    | inr (inr (c, m)) ↦ longer l v h (omega (arith, length-AllBits h)) c
  ]

  -- For a prime that is 1 or 5 below a power of two, and with correlated randomness, on sharings of
  -- at least as many bits as the prime has, the protocol computes a sharing of the bit that tells
  -- whether their number is below the prime.
  pub less_than_prime-Computes :
      (l : ℕ) (ss : List (Sharing A)) (bs : List Bool)
      → IsSupported prime l
      → AllBits ss bs
      → l ≤ length bs
      → Computes (less_than_prime dec debug prime prss ss) (bit (ltb (from_bits bs) prime))
  unfolding less_than_prime
  less_than_prime-Computes l ss bs v h n =
      let (s, e, k) = greater_than_or_equal_to_prime-Computes l ss bs v h n in
      (
        flipped s,
        rw (less_than_prime, e) refl,
        subst (λ b. Shares (flipped s) (bit b)) (not-leb prime (from_bits bs))
            (flipped-Shares r s (leb prime (from_bits bs)) k),
      )
