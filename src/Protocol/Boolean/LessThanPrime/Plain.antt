-- ===== src/Protocol/Boolean/LessThanPrime/Plain.antt =====
-- src/protocol/boolean/bitwise_less_than_prime.rs: primes and numbers in plain bits.
use raw_ipa.Prelude.{
  bit_length, bit_length-le, bit_length-gt, pow_pos, pow_mono, ℕ, zero, suc, ◌+◌, ◌*◌, ◌%◌, ◌^◌,
  ◌≤◌, ◌<◌, ◌≡◌, refl, sym, ap, ◌∙◌, Bool, true, false, not, ◌&&◌, ◌||◌, ◌⊎◌, inl, inr, List, [],
  ◌∷◌, length, take, drop, leb, arith,
}
use native.Mathlib.Nat.{lt_of_lt_of_le, pow-succ', mul_assoc, mul-suc}
use raw_ipa.Protocol.Boolean.SaturatingSum.Bits.{from_bits}
use raw_ipa.Protocol.Boolean.Comparison.Plain.{any, number-le}
use raw_ipa.Protocol.Boolean.Zeroes.Tree.{all}

-- The primes of `l` bits that the protocol is made for.
pub data IsSupported (prime l : ℕ) : Type 0 where
  mersenne : 0 < l → l < 128 → prime + 1 ≡ 2 ^ l → IsSupported prime l
  five_less : 3 < l → l < 128 → prime + 5 ≡ 2 ^ l → IsSupported prime l

pow_two : (l : ℕ) → 0 < l → 2 ≤ 2 ^ l
pow_two zero h = absurd (omega arith)
pow_two (suc l) h = omega (arith, pow-succ' 2 l, pow_pos l)

-- A power of two that 8 divides.
eighth : (l : ℕ) → 3 < l → (q : ℕ) × (2 ^ l ≡ 8 * q) × (2 ≤ q)
eighth zero h = absurd (omega arith)
eighth (suc zero) h = absurd (omega arith)
eighth (suc (suc zero)) h = absurd (omega arith)
eighth (suc (suc (suc l))) h = (
  2 ^ l,
  omega (arith, pow-succ' 2 (suc (suc l)), pow-succ' 2 (suc l), pow-succ' 2 l),
  pow_two l (omega arith),
)

-- A number of exactly `l` digits.
exactly : (l n : ℕ) → 0 < l → l ≤ 128 → n < 2 ^ l → 2 ^ l ≤ 2 * n + 1 → bit_length n ≡ l
exactly zero n p h below above = absurd (omega arith)
exactly (suc l) n p h below above = omega (
  arith,
  bit_length-le (suc l) n below,
  bit_length-gt l n (lt_of_lt_of_le below (pow_mono (suc l) 128 h)) (omega (arith, pow-succ' 2 l)),
)

pub bit_length_lem : {prime l : ℕ} → IsSupported prime l → bit_length prime ≡ l
bit_length_lem {prime} {l} (mersenne pos h e) =
    exactly l prime pos (omega arith) (omega arith) (omega (arith, pow_two l pos))
bit_length_lem {prime} {l} (five_less pos h e) =
    let (q, e', m) = eighth l pos in
    exactly l prime (omega arith) (omega arith) (omega arith) (omega (arith, e, e', m))

-- Whether the number of these bits is the greatest.
data Ones (bs : List Bool) : Type 0 where
  greatest : all bs ≡ true → from_bits bs + 1 ≡ 2 ^ length bs → Ones bs
  below : all bs ≡ false → from_bits bs + 1 < 2 ^ length bs → Ones bs

one_more : (b : Bool) (bs : List Bool) → Ones bs → Ones (b ∷ bs)
one_more true bs (greatest e h) = greatest e (omega (arith, pow-succ' 2 (length bs)))
one_more true bs (below e h) = below e (omega (arith, pow-succ' 2 (length bs)))
one_more false bs (greatest e h) = below refl (omega (arith, pow-succ' 2 (length bs)))
one_more false bs (below e h) = below refl (omega (arith, pow-succ' 2 (length bs)))

ones : (bs : List Bool) → Ones bs
ones [] = greatest refl refl
ones (b ∷ bs) = one_more b bs (ones bs)

leb-true : (m n : ℕ) → m ≤ n → true ≡ leb m n
leb-true m n h = ground arith

leb-false : (m n : ℕ) → n < m → false ≡ leb m n
leb-false m n h = ground arith

pub all_lem :
    (bs : List Bool) (prime : ℕ) → prime + 1 ≡ 2 ^ length bs → all bs ≡ leb prime (from_bits bs)
all_lem bs prime e = by (ones bs)
  where
    by : Ones bs → all bs ≡ leb prime (from_bits bs)
    by (greatest o h) = o ∙ leb-true prime (from_bits bs) (omega arith)
    by (below o h) = o ∙ leb-false prime (from_bits bs) (omega arith)

and_false : (b : Bool) → (b && false) ≡ false
and_false true = refl
and_false false = refl

-- The test of the three least significant bits.
abbrev pub least : Bool → Bool → Bool → Bool
least a b c = (not c && (a && b)) || c

pub least_lem :
    (a b c : Bool) (bs : List Bool) (prime : ℕ)
    → prime + 5 ≡ 2 ^ length (a ∷ b ∷ c ∷ bs)
    → (least a b c && all bs) ≡ leb prime (from_bits (a ∷ b ∷ c ∷ bs))
least_lem a b c bs prime e = by a b c (ones bs)
  where
    eight : prime + 5 ≡ 8 * 2 ^ length bs
    eight = omega (
      arith,
      e,
      pow-succ' 2 (suc (suc (length bs))),
      pow-succ' 2 (suc (length bs)),
      pow-succ' 2 (length bs),
    )

    by : (a b c : Bool) → Ones bs → (least a b c && all bs) ≡ leb prime (from_bits (a ∷ b ∷ c ∷ bs))
    by true true true (greatest o h) = o ∙ leb-true prime _ (omega (arith, eight))
    by true true false (greatest o h) = o ∙ leb-true prime _ (omega (arith, eight))
    by true false true (greatest o h) = o ∙ leb-true prime _ (omega (arith, eight))
    by true false false (greatest o h) = leb-false prime _ (omega (arith, eight))
    by false true true (greatest o h) = o ∙ leb-true prime _ (omega (arith, eight))
    by false true false (greatest o h) = leb-false prime _ (omega (arith, eight))
    by false false true (greatest o h) = o ∙ leb-true prime _ (omega (arith, eight))
    by false false false (greatest o h) = leb-false prime _ (omega (arith, eight))
    by a b c (below o h) =
        ap (λ t. least a b c && t) o
        ∙ and_false (least a b c)
        ∙ leb-false prime _ (omega (arith, eight, number-le a, number-le b, number-le c))

pub rem_eight : (prime l : ℕ) → 3 < l → prime + 5 ≡ 2 ^ l → prime % 8 ≡ 3
rem_eight prime l h e = let (q, e', m) = eighth l h in omega (arith, e, e', m)

-- The bits of a number from bit `l` on.
pub from_bits-split :
    (l : ℕ) (bs : List Bool)
    → l ≤ length bs
    → from_bits bs ≡ from_bits (take l bs) + 2 ^ l * from_bits (drop l bs)
from_bits-split zero bs h = omega arith
from_bits-split (suc l) [] h = absurd (omega arith)
from_bits-split (suc l) (b ∷ bs) h = omega (
  arith,
  from_bits-split l bs (omega arith),
  ap (λ t. t * from_bits (drop l bs)) (pow-succ' 2 l) ∙ mul_assoc 2 (2 ^ l) (from_bits (drop l bs)),
)

pub any-cases :
    (bs : List Bool)
    → ((any bs ≡ true) × (0 < from_bits bs)) ⊎ ((any bs ≡ false) × (from_bits bs ≡ 0))
any-cases [] = inr (refl, refl)
any-cases (true ∷ bs) = inl (refl, omega arith)
any-cases (false ∷ bs) = elim (any-cases bs) [
  | inl (e, h) ↦ inl (e, omega arith)
  | inr (e, h) ↦ inr (e, omega arith)
]

one_block : (m n : ℕ) → 0 < n → m ≤ m * n
one_block m (suc n) h = omega (arith, mul-suc m n)
one_block m zero h = absurd (omega arith)

-- A number with bits from bit `l` on is not below a prime of `l` bits.
pub leading_lem :
    (l : ℕ) (bs : List Bool) (prime : ℕ)
    → l ≤ length bs
    → prime < 2 ^ l
    → (any (drop l bs) || leb prime (from_bits (take l bs))) ≡ leb prime (from_bits bs)
leading_lem l bs prime h p = elim (any-cases (drop l bs)) [
  | inl (e, pos) ↦
      ap (λ b. b || leb prime (from_bits (take l bs))) e
      ∙ leb-true prime (from_bits bs) (omega (arith, from_bits-split l bs h, one_block _ _ pos))
  | inr (e, none_set) ↦
      ap (λ b. b || leb prime (from_bits (take l bs))) e
      ∙ ap (leb prime) (
          sym (
            from_bits-split l bs h
            ∙ ap (λ t. from_bits (take l bs) + 2 ^ l * t) none_set
            ∙ omega arith))
]
