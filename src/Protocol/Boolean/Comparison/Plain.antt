-- ===== src/Protocol/Boolean/Comparison/Plain.antt =====
-- src/protocol/boolean/comparison.rs: the bits that the comparison computes, in plain.
use raw_ipa.Prelude.{
  pow_pos, ℕ, zero, suc, ◌+◌, ◌*◌, ◌/◌, ◌%◌, ◌^◌, ◌≤◌, ◌<◌, ◌≡◌, ◌≢◌, refl, sym, ap, ap₂, ◌∙◌, Bool,
  true, false, not, ◌&&◌, ◌||◌, ◌⊎◌, inl, inr, List, [], ◌∷◌, ◌++◌, reverse, length, length-append,
  map, ◌==◌, if◌then◌else◌, arith,
}
use mathlib.Core.List.{reverse-append}
use native.Mathlib.Nat.{
  pow-succ', pow-suc, mod-add-div, mod-lt, mod-eq_of_lt, add-mul-mod_self_left, mul_assoc,
  div-div-eq-div-mul, mod-one,
}
use raw_ipa.Protocol.Boolean.SaturatingSum.Bits.{number, from_bits}
use raw_ipa.Protocol.Boolean.Comparison.{is_zero_at}

pub true_ne : true ≢ false
true_ne e = cc

abbrev pub any : List Bool → Bool
any [] = false
any (x ∷ xs) = x || any xs

-- The bits in which a number differs from `c`, whose bits are taken from bit `i`.
abbrev pub xors : ℕ → ℕ → List Bool → List Bool
xors c i [] = []
xors c i (a ∷ bits) = (if is_zero_at c i then a else not a) ∷ xors c (suc i) bits

-- The bits that are set while none before is, from the last one on.
abbrev pub rises : Bool → List Bool → List Bool
rises p [] = []
rises p (y ∷ ys) = (not p && y) ∷ rises (p || y) ys

-- The last bit that is set.
abbrev pub marks : List Bool → List Bool
marks [] = []
marks (x ∷ xs) = (not (any xs) && x) ∷ marks xs

-- The bit of the other list at that place.
abbrev pub chosen : List Bool → List Bool → Bool
chosen [] bits = false
chosen (x ∷ xs) [] = false
chosen (x ∷ xs) (a ∷ bits) = (not (any xs) && x) && a || chosen xs bits

-- Where no bit is set, none is chosen.
pub chosen-none : (xs bits : List Bool) → any xs ≡ false → chosen xs bits ≡ false
chosen-none [] bits e = refl
chosen-none (x ∷ xs) [] e = refl
chosen-none (true ∷ xs) (a ∷ bits) e = absurd (true_ne e)
chosen-none (false ∷ xs) (a ∷ bits) e = rw e (chosen-none xs bits e)

or_false : (b : Bool) → (b || false) ≡ b
or_false true = refl
or_false false = refl

pub length-xors : (c i : ℕ) (bits : List Bool) → length (xors c i bits) ≡ length bits
length-xors c i [] = refl
length-xors c i (a ∷ bits) = ap suc (length-xors c (suc i) bits)

or_assoc : (a b c : Bool) → ((a || b) || c) ≡ (a || (b || c))
or_assoc true b c = refl
or_assoc false b c = refl

or_comm : (a b : Bool) → (a || b) ≡ (b || a)
or_comm true true = refl
or_comm true false = refl
or_comm false true = refl
or_comm false false = refl

any-append : (xs ys : List Bool) → any (xs ++ ys) ≡ (any xs || any ys)
any-append [] ys = refl
any-append (x ∷ xs) ys = ap (λ b. x || b) (any-append xs ys) ∙ sym (or_assoc x (any xs) (any ys))

pub reverse-cons {ℓ} :
    {A : Type ℓ} (x : A) (xs : List A) → reverse (x ∷ xs) ≡ reverse xs ++ (x ∷ [])
reverse-cons x xs = reverse-append (x ∷ []) xs

pub length-reverse : (xs : List Bool) → length (reverse xs) ≡ length xs
length-reverse [] = refl
length-reverse (x ∷ xs) =
    ap length (reverse-cons x xs)
    ∙ omega (arith, length-append (reverse xs) (x ∷ []), length-reverse xs)

reverse-snoc {ℓ} : {A : Type ℓ} (xs : List A) (x : A) → reverse (xs ++ (x ∷ [])) ≡ x ∷ reverse xs
reverse-snoc xs x = reverse-append xs (x ∷ [])

any-reverse : (xs : List Bool) → any (reverse xs) ≡ any xs
any-reverse [] = refl
any-reverse (x ∷ xs) =
    ap any (reverse-cons x xs)
    ∙ any-append (reverse xs) (x ∷ [])
    ∙ ap₂ (λ a b. a || b) (any-reverse xs) (or_false x)
    ∙ or_comm (any xs) x

rises-snoc :
    (p : Bool) (ys : List Bool) (x : Bool)
    → rises p (ys ++ (x ∷ [])) ≡ rises p ys ++ ((not (p || any ys) && x) ∷ [])
rises-snoc p [] x = ap (λ b. (not b && x) ∷ []) (sym (or_false p))
rises-snoc p (y ∷ ys) x =
    ap (λ t. (not p && y) ∷ t)
      (rises-snoc (p || y) ys x
        ∙ ap (λ b. rises (p || y) ys ++ ((not b && x) ∷ [])) (or_assoc p y (any ys)))

-- From the last bit to the first, the set bit before which none is set is the last one that is set.
pub rises-marks : (xs : List Bool) → reverse (rises false (reverse xs)) ≡ marks xs
rises-marks [] = refl
rises-marks (x ∷ xs) =
    ap (λ t. reverse (rises false t)) (reverse-cons x xs)
    ∙ ap reverse (rises-snoc false (reverse xs) x)
    ∙ reverse-snoc (rises false (reverse xs)) (not (any (reverse xs)) && x)
    ∙ ap₂ (λ b t. (not b && x) ∷ t) (any-reverse xs) (rises-marks xs)

-- The number of the bits of `c` from bit `i`, as many as these.
abbrev pub low : ℕ → ℕ → ℕ → ℕ
low c i zero = 0
low c i (suc n) = (c / 2 ^ i) % 2 + 2 * low c (suc i) n

-- How a number with bits and the bits of `c` compare.
pub data Verdict (xs bits : List Bool) (n c : ℕ) : Type 0 where
  greater :
      any xs ≡ true
      → chosen xs bits ≡ true
      → chosen xs (map not bits) ≡ false
      → c < n
      → Verdict xs bits n c
  less :
      any xs ≡ true
      → chosen xs bits ≡ false
      → chosen xs (map not bits) ≡ true
      → n < c
      → Verdict xs bits n c
  equal :
      any xs ≡ false
      → chosen xs bits ≡ false
      → chosen xs (map not bits) ≡ false
      → n ≡ c
      → Verdict xs bits n c

pub number-le : (a : Bool) → number a ≤ 1
number-le true = omega arith
number-le false = omega arith

at_most_one :
    {x : Bool} (a : Bool) (d : ℕ)
    → ((x ≡ true) × (number a + d ≡ 1)) ⊎ ((x ≡ false) × (number a ≡ d))
    → d ≤ 1
at_most_one a d (inl h) = omega (arith, h.1)
at_most_one a d (inr h) = omega (arith, h.1, number-le a)

or_true : (b : Bool) → (b || true) ≡ true
or_true true = refl
or_true false = refl

one_more :
    (x a : Bool) (d : ℕ) (xs bits : List Bool) (n c : ℕ)
    → ((x ≡ true) × (number a + d ≡ 1)) ⊎ ((x ≡ false) × (number a ≡ d))
    → Verdict xs bits n c
    → Verdict (x ∷ xs) (a ∷ bits) (number a + 2 * n) (d + 2 * c)
one_more x a d xs bits n c h (greater e p q l) =
    greater (rw e (or_true x)) (rw (e, p) refl) (rw (e, q) refl)
      (omega (arith, l, number-le a, at_most_one a d h))
one_more x a d xs bits n c h (less e p q l) =
    less (rw e (or_true x)) (rw (e, p) refl) (rw (e, q) refl)
      (omega (arith, l, number-le a, at_most_one a d h))
one_more x true d xs bits n c (inl (e1, s)) (equal e p q l) =
    greater (rw e1 refl) (rw (e, e1) refl) (rw (e, e1, q) refl) (omega arith)
one_more x false d xs bits n c (inl (e1, s)) (equal e p q l) =
    less (rw e1 refl) (rw (e, e1, p) refl) (rw (e, e1) refl) (omega arith)
one_more x a d xs bits n c (inr (e1, s)) (equal e p q l) =
    equal (rw (e1, e) refl) (rw (e, e1, p) refl) (rw (e, e1, q) refl) (omega (arith, s))

-- A bit against the digit of `c` at its place.
one_digit :
    (a z : Bool) (d : ℕ)
    → (d == 0) ≡ z
    → d < 2
    → (((if z then a else not a) ≡ true) × (number a + d ≡ 1))
      ⊎ (((if z then a else not a) ≡ false) × (number a ≡ d))
one_digit true true d e h = inl (refl, ground arith)
one_digit false true d e h = inr (refl, ground arith)
one_digit true false d e h = inr (refl, ground arith)
one_digit false false d e h = inl (refl, ground arith)

-- The last bit in which a number differs from `c` decides how they compare.
pub verdict :
    (c i : ℕ) (bits : List Bool)
    → Verdict (xors c i bits) bits (from_bits bits) (low c i (length bits))
verdict c i [] = equal refl refl refl refl
verdict c i (a ∷ bits) =
    one_more _ a ((c / 2 ^ i) % 2) (xors c (suc i) bits) bits (from_bits bits)
      (low c (suc i) (length bits))
      (one_digit a (is_zero_at c i) ((c / 2 ^ i) % 2) refl (omega arith)) (verdict c (suc i) bits)

halve : (q m : ℕ) → 0 < m → q % 2 + 2 * ((q / 2) % m) ≡ q % (2 * m)
halve q m h =
    sym (mod-eq_of_lt small)
    ∙ sym (add-mul-mod_self_left (q % 2 + 2 * ((q / 2) % m)) (2 * m) (q / 2 / m))
    ∙ ap (λ t. t % (2 * m)) whole
  where
    small : q % 2 + 2 * ((q / 2) % m) < 2 * m
    small = omega (arith, mod-lt (q / 2) h)

    whole : (q % 2 + 2 * ((q / 2) % m)) + 2 * m * (q / 2 / m) ≡ q
    whole = omega (arith, mod-add-div (q / 2) m, mul_assoc 2 m (q / 2 / m))

-- These bits of `c` are the rest of a division.
pub low_lem : (c i n : ℕ) → low c i n ≡ (c / 2 ^ i) % 2 ^ n
low_lem c i zero = sym (mod-one (c / 2 ^ i))
low_lem c i (suc n) =
    ap (λ t. (c / 2 ^ i) % 2 + 2 * t)
      (low_lem c (suc i) n
        ∙ ap (λ t. t % 2 ^ n)
            (ap (λ t. c / t) (pow-suc 2 i) ∙ sym (div-div-eq-div-mul c (2 ^ i) 2)))
    ∙ halve (c / 2 ^ i) (2 ^ n) (pow_pos n)
    ∙ ap (λ t. (c / 2 ^ i) % t) (sym (pow-succ' 2 n))
