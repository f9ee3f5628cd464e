-- ===== src/Protocol/Boolean/AddConstant/Correct.antt =====
-- src/protocol/boolean/add_constant.rs: what the sum is.
use raw_ipa.Prelude.{
  ℕ, suc, ◌+◌, ◌*◌, ◌/◌, ◌%◌, ◌^◌, ◌≤◌, ◌<◌, ◌≡◌, refl, sym, ap, subst, Bool, true, false, not,
  ◌&&◌, ◌||◌, List, [], ◌∷◌, length, leb, ◌==◌, if◌then◌else◌, arith,
}
use mathlib.Core.Bool.{xor as xor_bool}
use raw_ipa.Algebra.{Field, IsRing, 𝟘, 𝟙, ◌⊕◌, ◌⊗◌, ⊝◌}
use raw_ipa.Algebra.Solver.{Expr_field, solve, values, normalise}
use raw_ipa.SecretSharing.Sharing.{
  Sharing, Shares, IsReplicated, add-Shares, neg-Shares, mul-Shares, zero_sharing,
}
use raw_ipa.Protocol.Exchange.{Outcome, done}
use raw_ipa.Protocol.Computes.{Computes}
use raw_ipa.Protocol.Basics.KnownValue.{known, share_known_value, share_known_value-Shares}
use raw_ipa.Protocol.Basics.SecureMul.{mul, mul-Computes}
use raw_ipa.Protocol.Boolean.Xor.{bit}
use raw_ipa.Protocol.Boolean.SaturatingSum.Bits.{AllBits, none, more, number, from_bits, bit-mul}
use raw_ipa.Protocol.Boolean.Comparison.{is_zero_at, flipped}
use raw_ipa.Protocol.Boolean.Comparison.Plain.{low, true_ne}
use raw_ipa.Protocol.Boolean.Comparison.Constant.{low_bits}
use raw_ipa.Protocol.Boolean.Comparison.FirstBit.{flipped-Shares}
use raw_ipa.Protocol.Boolean.AddConstant.{
  next_carry, twice_less, result_bit, mult_result, add_digits, add_constant,
}

-- The carry and the digit of a bit `x`, a bit of `b` that is zero or not, and a carry.
abbrev carried : Bool → Bool → Bool → Bool
carried true k x = k && x
carried false k x = k || x

abbrev digit : Bool → Bool → Bool → Bool
digit true k x = xor_bool x k
digit false k x = not (xor_bool x k)

-- The digits of a sum, the last of which is the last carry.
abbrev digits : ℕ → ℕ → Bool → List Bool → List Bool
digits b i k [] = k ∷ []
digits b i k (x ∷ xs) =
    digit (is_zero_at b i) k x ∷ digits b (suc i) (carried (is_zero_at b i) k x) xs

one_digit :
    (z k x : Bool) (d : ℕ)
    → (d == 0) ≡ z
    → d < 2
    → number (digit z k x) + 2 * number (carried z k x) ≡ number x + d + number k
unfolding xor_bool
one_digit true true true d e h = ground arith
one_digit true true false d e h = ground arith
one_digit true false true d e h = ground arith
one_digit true false false d e h = ground arith
one_digit false true true d e h = ground arith
one_digit false true false d e h = ground arith
one_digit false false true d e h = ground arith
one_digit false false false d e h = ground arith

digits_lem :
    (b i : ℕ) (k : Bool) (xs : List Bool)
    → from_bits (digits b i k xs) ≡ from_bits xs + low b i (length xs) + number k
digits_lem b i k [] = omega arith
digits_lem b i k (x ∷ xs) = omega (
  arith,
  digits_lem b (suc i) (carried (is_zero_at b i) k x) xs,
  one_digit (is_zero_at b i) k x ((b / 2 ^ i) % 2) refl (omega arith),
)

module _ {ℓ} {A : Type ℓ} ⦃f : Field A⦄ (r : IsRing A) where
  zero-Shares : Shares {A = A} zero_sharing 𝟘
  unfolding share_known_value
  zero-Shares = share_known_value-Shares r 𝟘

  first_carry-Shares :
      (z : Bool) (s : Sharing A) (x : Bool)
      → Shares s (bit x)
      → Shares (if z then zero_sharing else s) (bit (carried z false x))
  first_carry-Shares true s x h = zero-Shares
  first_carry-Shares false s x h = h

  first_bit-Shares :
      (z : Bool) (s : Sharing A) (x : Bool)
      → Shares s (bit x)
      → Shares (if z then s else flipped s) (bit (digit z false x))
  unfolding xor_bool
  first_bit-Shares true s true h = h
  first_bit-Shares true s false h = h
  first_bit-Shares false s true h = flipped-Shares r s true h
  first_bit-Shares false s false h = flipped-Shares r s false h

  or_bits : (k x : Bool) → ⊝ bit (k && x) ⊕ bit k ⊕ bit x ≡ bit {A = A} (k || x)
  unfolding normalise
  or_bits true true = solve r (values []) (⊝ 𝟙 ⊕ 𝟙 ⊕ 𝟙) 𝟙 refl
  or_bits true false = solve r (values []) (⊝ 𝟘 ⊕ 𝟙 ⊕ 𝟘) 𝟙 refl
  or_bits false true = solve r (values []) (⊝ 𝟘 ⊕ 𝟘 ⊕ 𝟙) 𝟙 refl
  or_bits false false = solve r (values []) (⊝ 𝟘 ⊕ 𝟘 ⊕ 𝟘) 𝟘 refl

  sum_bits : (k x : Bool) → ⊝ (bit (k && x) ⊗ (𝟙 ⊕ 𝟙)) ⊕ bit x ⊕ bit k ≡ bit {A = A} (xor_bool x k)
  unfolding normalise xor_bool
  sum_bits true true = solve r (values []) (⊝ (𝟙 ⊗ (𝟙 ⊕ 𝟙)) ⊕ 𝟙 ⊕ 𝟙) 𝟘 refl
  sum_bits true false = solve r (values []) (⊝ (𝟘 ⊗ (𝟙 ⊕ 𝟙)) ⊕ 𝟘 ⊕ 𝟙) 𝟙 refl
  sum_bits false true = solve r (values []) (⊝ (𝟘 ⊗ (𝟙 ⊕ 𝟙)) ⊕ 𝟙 ⊕ 𝟘) 𝟙 refl
  sum_bits false false = solve r (values []) (⊝ (𝟘 ⊗ (𝟙 ⊕ 𝟙)) ⊕ 𝟘 ⊕ 𝟘) 𝟘 refl

  sum_bits_one :
      (k x : Bool)
      → ⊝ (bit (k || x) ⊗ (𝟙 ⊕ 𝟙)) ⊕ 𝟙 ⊕ bit x ⊕ bit k ≡ bit {A = A} (not (xor_bool x k))
  unfolding normalise xor_bool
  sum_bits_one true true = solve r (values []) (⊝ (𝟙 ⊗ (𝟙 ⊕ 𝟙)) ⊕ 𝟙 ⊕ 𝟙 ⊕ 𝟙) 𝟙 refl
  sum_bits_one true false = solve r (values []) (⊝ (𝟙 ⊗ (𝟙 ⊕ 𝟙)) ⊕ 𝟙 ⊕ 𝟘 ⊕ 𝟙) 𝟘 refl
  sum_bits_one false true = solve r (values []) (⊝ (𝟙 ⊗ (𝟙 ⊕ 𝟙)) ⊕ 𝟙 ⊕ 𝟙 ⊕ 𝟘) 𝟘 refl
  sum_bits_one false false = solve r (values []) (⊝ (𝟘 ⊗ (𝟙 ⊕ 𝟙)) ⊕ 𝟙 ⊕ 𝟘 ⊕ 𝟘) 𝟙 refl

module _ {ℓ} {A : Type ℓ} ⦃f : Field A⦄ (r : IsRing A) (two : A) (e : two ≡ 𝟙 ⊕ 𝟙) where
  next_carry-Shares :
      (z : Bool) (m c s : Sharing A) (k x : Bool)
      → Shares m (bit (k && x))
      → Shares c (bit k)
      → Shares s (bit x)
      → Shares (next_carry two z m c s) (bit (carried z k x))
  unfolding next_carry
  next_carry-Shares true m c s k x hm hc hs = hm
  next_carry-Shares false m c s k x hm hc hs =
      subst (λ v. Shares (next_carry two false m c s) v) (or_bits r k x)
        (add-Shares r _ s (add-Shares r _ c (neg-Shares r m hm) hc) hs)

  twice_less-Shares :
      (c : Sharing A) {v : A} → Shares c v → Shares (twice_less two c) (⊝ (v ⊗ (𝟙 ⊕ 𝟙)))
  twice_less-Shares c {v} h =
      subst (λ t. Shares (twice_less two c) (⊝ (v ⊗ t))) e (neg-Shares r _ (mul-Shares r c two h))

  result_bit-Shares :
      (z : Bool) (n c s : Sharing A) (k x : Bool)
      → Shares n (bit (carried z k x))
      → Shares c (bit k)
      → Shares s (bit x)
      → Shares (result_bit two z n c s) (bit (digit z k x))
  unfolding result_bit
  result_bit-Shares true n c s k x hn hc hs =
      subst (λ v. Shares (result_bit two true n c s) v) (sum_bits r k x)
        (add-Shares r _ c (add-Shares r _ s (twice_less-Shares n hn) hs) hc)
  result_bit-Shares false n c s k x hn hc hs =
      subst (λ v. Shares (result_bit two false n c s) v) (sum_bits_one r k x)
        (add-Shares r _ c
          (add-Shares r _ s
            (add-Shares r _ (known 𝟙) (twice_less-Shares n hn) (share_known_value-Shares r 𝟙)) hs)
          hc)

stays_zero : (w z k x : Bool) → (w ≡ true → k ≡ false) → (w && z) ≡ true → carried z k x ≡ false
stays_zero true true k x h e = ap (λ k. k && x) (h refl)
stays_zero true false k x h e = absurd (true_ne (sym e))
stays_zero false z k x h e = absurd (true_ne (sym e))

first_zero : (z x : Bool) → z ≡ true → carried z false x ≡ false
first_zero true x e = refl
first_zero false x e = absurd (true_ne (sym e))

length-digits : (b i : ℕ) (k : Bool) (xs : List Bool) → length (digits b i k xs) ≡ suc (length xs)
length-digits b i k [] = refl
length-digits b i k (x ∷ xs) = ap suc (length-digits b (suc i) (carried (is_zero_at b i) k x) xs)

below_width : (i : ℕ) → i < 128 → i % 128 ≡ i
below_width i h = omega arith

in_range : (debug : Bool) (i : ℕ) → i < 128 → (debug && leb 128 i) ≡ false
in_range true i h = ground arith
in_range false i h = refl

module _ {ℓ} {A : Type ℓ} ⦃f : Field A⦄ (r : IsRing A) (dec : Discrete A) (debug : Bool) (two : A)
    (e : two ≡ 𝟙 ⊕ 𝟙) (prss : ℕ → Sharing A) (hp : (i : ℕ) → IsReplicated (prss i)) where
  mult_result-Computes :
      (w : Bool) (i : ℕ) (c s : Sharing A) (k x : Bool)
      → (w ≡ true → k ≡ false)
      → Shares c (bit k)
      → Shares s (bit x)
      → Computes (mult_result dec debug two prss w i c s) (bit (k && x))
  unfolding mult_result
  mult_result-Computes true i c s k x h hc hs =
      let (p, q, h') =
        mul-Computes r dec debug zero_sharing zero_sharing (prss i) (zero-Shares r) (zero-Shares r)
          (hp i) in
      (
        zero_sharing,
        rw (mult_result, q) refl,
        subst (λ k. Shares {A = A} zero_sharing (bit (k && x))) (sym (h refl)) (zero-Shares r),
      )
  mult_result-Computes false i c s k x h hc hs =
      subst (Computes (mul dec debug c s (prss i))) (bit-mul r k x)
        (mul-Computes r dec debug c s (prss i) hc hs (hp i))

  -- The helpers return, and hold sharings of these digits.
  abbrev ComputesDigits : Outcome (List (Sharing A)) → List Bool → Type ℓ
  ComputesDigits o ds = (ts : List (Sharing A)) × (o ≡ done ts) × AllBits ts ds

  add_digits_lem :
      (b i : ℕ) (w : Bool) (c : Sharing A) (k : Bool) {ss : List (Sharing A)} {xs : List Bool}
      → (w ≡ true → k ≡ false)
      → Shares c (bit k)
      → AllBits ss xs
      → i + length xs ≤ 128
      → ComputesDigits (add_digits dec debug two prss b i w c ss) (digits b i k xs)
  unfolding add_digits
  add_digits_lem b i w c k h hc none l = (c ∷ [], refl, more hc none)
  add_digits_lem b i w c k h hc (more {s} {b = x} {ss} {bs = xs} hs hss) l =
      let z = is_zero_at b i in
      let (m, q, hm) = mult_result-Computes w i c s k x h hc hs in
      let n = next_carry two z m c s in
      let hn = next_carry-Shares r two e z m c s k x hm hc hs in
      let (ts, q', ht) =
        add_digits_lem b (suc i) (w && z) n (carried z k x) (stays_zero w z k x h) hn hss
          (omega arith) in
      (
        result_bit two z n c s ∷ ts,
        rw (add_digits, q, in_range debug i (omega arith), below_width i (omega arith), q') refl,
        more (result_bit-Shares r two e z n c s k x hn hc hs) ht,
      )

  -- With correlated randomness, if `two` is the field's 1 + 1, on sharings of 1 to 128 bits the protocol
  -- returns sharings of the bits of the sum of their number and the same number of low bits of `b`.
  pub add_constant-Sums :
      (a : List (Sharing A)) (xs : List Bool) (b : ℕ)
      → AllBits a xs
      → 0 < length xs
      → length xs ≤ 128
      → (ts : List (Sharing A)) × (ds : List Bool) × (add_constant dec debug two prss a b ≡ done ts)
        × AllBits ts ds
        × (length ds ≡ suc (length xs))
        × (from_bits ds ≡ from_bits xs + b % 2 ^ length xs)
  unfolding add_constant
  add_constant-Sums a xs b none l m = absurd (omega arith)
  add_constant-Sums a xs b (more {s} {b = x} {ss} {bs} hs hss) l m =
      let z = is_zero_at b 0 in
      let (ts, q, ht) =
        add_digits_lem b 1 z (if z then zero_sharing else s) (carried z false x) (first_zero z x)
          (first_carry-Shares r z s x hs) hss (omega arith) in
      (
        (if z then s else flipped s) ∷ ts,
        digits b 0 false (x ∷ bs),
        rw (add_constant, q) refl,
        more (first_bit-Shares r z s x hs) ht,
        length-digits b 0 false (x ∷ bs),
        omega (arith, digits_lem b 0 false (x ∷ bs), low_bits b (length (x ∷ bs))),
      )
