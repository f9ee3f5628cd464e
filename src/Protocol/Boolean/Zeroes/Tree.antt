-- ===== src/Protocol/Boolean/Zeroes/Tree.antt =====
-- src/protocol/boolean/mod.rs: the rounds of a product of shared bits.
use raw_ipa.Prelude.{
  ℕ, zero, suc, ◌+◌, ◌*◌, ◌/◌, ◌^◌, ◌≤◌, ◌<◌, ◌≡◌, refl, sym, ap, ◌∙◌, subst, Bool, true, false,
  not, ◌&&◌, List, [], ◌∷◌, length, map, arith,
}
use native.Mathlib.Nat.{pow-succ'}
use raw_ipa.Algebra.{Field, IsRing}
use raw_ipa.SecretSharing.Sharing.{Sharing, Shares, IsReplicated}
use raw_ipa.Protocol.Exchange.{done}
use raw_ipa.Protocol.Computes.{Computes}
use raw_ipa.Protocol.Basics.SecureMul.{mul-Computes}
use raw_ipa.Protocol.Boolean.Xor.{bit}
use raw_ipa.Protocol.Boolean.SaturatingSum.Bits.{AllBits, none, more, bit-mul, length-AllBits}
use raw_ipa.Protocol.Boolean.Comparison.{flipped}
use raw_ipa.Protocol.Boolean.Comparison.Plain.{any}
use raw_ipa.Protocol.Boolean.Comparison.FirstBit.{flip_bits-AllBits, flipped-Shares}
use raw_ipa.Protocol.Boolean.Zeroes.{
  multiply_pairs, multiply_rounds, multiply_all_shares, all_zeroes, any_ones,
}

abbrev pub all : List Bool → Bool
all [] = true
all (x ∷ xs) = x && all xs

-- What a round leaves of the bits.
abbrev pub pairs : List Bool → List Bool
pairs [] = []
pairs (x ∷ []) = x ∷ []
pairs (x ∷ y ∷ bs) = (x && y) ∷ pairs bs

and_assoc : (a b c : Bool) → ((a && b) && c) ≡ (a && (b && c))
and_assoc true b c = refl
and_assoc false b c = refl

and_true : (b : Bool) → (b && true) ≡ b
and_true true = refl
and_true false = refl

all-pairs : (bs : List Bool) → all (pairs bs) ≡ all bs
all-pairs [] = refl
all-pairs (x ∷ []) = refl
all-pairs (x ∷ y ∷ bs) = ap (λ b. (x && y) && b) (all-pairs bs) ∙ and_assoc x y (all bs)

length-pairs : (bs : List Bool) → 2 * length (pairs bs) ≤ length bs + 1
length-pairs [] = omega arith
length-pairs (x ∷ []) = omega arith
length-pairs (x ∷ y ∷ bs) = omega (arith, length-pairs bs)

pairs_pos : (bs : List Bool) → 0 < length bs → 0 < length (pairs bs)
pairs_pos [] h = h
pairs_pos (x ∷ []) h = h
pairs_pos (x ∷ y ∷ bs) h = omega arith

pub all-not : (bs : List Bool) → all (map not bs) ≡ not (any bs)
all-not [] = refl
all-not (true ∷ bs) = refl
all-not (false ∷ bs) = all-not bs

length-map : (bs : List Bool) → length (map not bs) ≡ length bs
length-map [] = refl
length-map (b ∷ bs) = ap suc (length-map bs)

not-not : (b : Bool) → not (not b) ≡ b
not-not true = refl
not-not false = refl

half_fits : (m n k : ℕ) → 2 * m ≤ n + 1 → n ≤ 2 ^ suc k → m ≤ 2 ^ k
half_fits m n k h l = omega (arith, pow-succ' 2 k)

below_pow : (n : ℕ) → n ≤ 2 ^ n
below_pow zero = omega arith
below_pow (suc n) = omega (arith, below_pow n, pow-succ' 2 n, one_le n)
  where
    one_le : (n : ℕ) → 1 ≤ 2 ^ n
    one_le zero = omega arith
    one_le (suc n) = omega (arith, one_le n, pow-succ' 2 n)

module _ {ℓ} {A : Type ℓ} ⦃f : Field A⦄ (r : IsRing A) (dec : Discrete A) (debug : Bool)
    (prss : ℕ → Sharing A) (hp : (i : ℕ) → IsReplicated (prss i)) where
  multiply_pairs_lem :
      (i : ℕ) {ss : List (Sharing A)} {bs : List Bool}
      → AllBits ss bs
      → (ts : List (Sharing A)) × (multiply_pairs dec debug prss i ss ≡ done ts)
        × AllBits ts (pairs bs)
  unfolding multiply_pairs
  multiply_pairs_lem i none = ([], refl, none)
  multiply_pairs_lem i (more {s} h none) = (s ∷ [], refl, more h none)
  multiply_pairs_lem i (more {s} {b} h (more {s = s'} {b = b'} h' hs)) =
      let (p, e, k) = mul-Computes r dec debug s s' (prss i) h h' (hp i) in
      let (ts, e', ks) = multiply_pairs_lem (suc i) hs in
      (
        p ∷ ts,
        rw (multiply_pairs, e, e') refl,
        more (subst (λ v. Shares p v) (bit-mul r b b') k) ks,
      )

  -- With correlated randomness, `k` rounds are enough for a product of up to `2 ^ k` shared bits, one at
  -- least, and compute a sharing of the bit that tells whether all are one.
  pub multiply_rounds-Computes :
      (k i : ℕ) {ss : List (Sharing A)} {bs : List Bool}
      → AllBits ss bs
      → 0 < length bs
      → length bs ≤ 2 ^ k
      → Computes (multiply_rounds dec debug prss k i ss) (bit (all bs))
  unfolding multiply_rounds
  multiply_rounds-Computes k i none l m = absurd (omega arith)
  multiply_rounds-Computes zero i (more {s} {b} h none) l m =
      (s, refl, subst (λ b. Shares s (bit b)) (sym (and_true b)) h)
  multiply_rounds-Computes (suc k) i (more {s} {b} h none) l m =
      (s, refl, subst (λ b. Shares s (bit b)) (sym (and_true b)) h)
  multiply_rounds-Computes zero i (more h (more h' hs)) l m = absurd (omega arith)
  multiply_rounds-Computes (suc k) i
        (more {s} {b} h (more {s = s'} {b = b'} {ss = ss2} {bs = bs2} h' hs)) l m =
      let (ts, e, ks) = multiply_pairs_lem i (more h (more h' hs)) in
      rw (multiply_rounds, e)
        (subst
          (λ b.
            Computes (multiply_rounds dec debug prss k (i + length (s ∷ s' ∷ ss2) / 2) ts) (bit b))
          (all-pairs (b ∷ b' ∷ bs2))
          (multiply_rounds-Computes k (i + length (s ∷ s' ∷ ss2) / 2) ks
            (pairs_pos (b ∷ b' ∷ bs2) l) (half_fits _ _ k (length-pairs (b ∷ b' ∷ bs2)) m)))

  pub multiply_all_shares-Computes :
      {ss : List (Sharing A)} {bs : List Bool}
      → AllBits ss bs
      → 0 < length bs
      → Computes (multiply_all_shares dec debug prss ss) (bit (all bs))
  unfolding multiply_all_shares
  multiply_all_shares-Computes {ss} {bs} h l =
      multiply_rounds-Computes (length ss) 0 h l
        (omega (arith, length-AllBits h, below_pow (length ss)))

  pub all_zeroes-Computes :
      {ss : List (Sharing A)} {bs : List Bool}
      → AllBits ss bs
      → 0 < length bs
      → Computes (all_zeroes dec debug prss ss) (bit (not (any bs)))
  unfolding all_zeroes
  all_zeroes-Computes {ss} {bs} h l =
      subst (λ b. Computes (all_zeroes dec debug prss ss) (bit b)) (all-not bs)
        (multiply_all_shares-Computes (flip_bits-AllBits r h) (omega (arith, length-map bs)))

  pub any_ones-Computes :
      {ss : List (Sharing A)} {bs : List Bool}
      → AllBits ss bs
      → 0 < length bs
      → Computes (any_ones dec debug prss ss) (bit (any bs))
  unfolding any_ones
  any_ones-Computes {ss} {bs} h l =
      let (s, e, k) = all_zeroes-Computes h l in
      (
        flipped s,
        rw (any_ones, e) refl,
        subst (λ b. Shares (flipped s) (bit b)) (not-not (any bs))
            (flipped-Shares r s (not (any bs)) k),
      )
