-- ===== src/Ff/PrimeField/Bytes.antt =====
-- src/ff/prime_field.rs: `Serializable` for prime fields, and `TryFrom<u128>`.
use raw_ipa.Prelude.{
  ℕ, zero, suc, ◌+◌, ◌-◌, ◌*◌, ◌/◌, ◌%◌, ◌^◌, ◌≤◌, ◌<◌, ◌≡◌, refl, ap, ◌∙◌, arith, Option, some,
  none, List, [], ◌∷◌, ◌++◌, take, replicate, length, ltb, subst, ◌⊎◌, inl, inr, Bool-cases, ltb→lt,
  ltb→ge, bit_length, bit_length-le, bit_length-gt, leb, le→leb, false,
}
use native.Mathlib.Nat.{mod-eq_of_lt, lt_trans, mod-add-div, pow-succ'}
use raw_ipa.Ff.PrimeField.{Params, IsSound, try_from}
use raw_ipa.Ff.PrimeField.Modular.{truncate_from_lem}
use raw_ipa.Ff.PrimeField.Ring.{Element}

-- `to_le_bytes`, of a number of `n` bytes.
abbrev pub to_le_bytes : ℕ → ℕ → List ℕ
to_le_bytes zero v = []
to_le_bytes (suc n) v = v % 256 ∷ to_le_bytes n (v / 256)

-- `u128::from_le_bytes`.
abbrev pub from_le_bytes : List ℕ → ℕ
from_le_bytes [] = 0
from_le_bytes (b ∷ bs) = b + 256 * from_le_bytes bs

module _ (p : Params) where
  open p use {bits, prime}

  -- `<F::Storage as Block>::Size`.
  abbrev pub size : ℕ
  size = bits / 8

  -- `serialize`: as many of the sixteen bytes as the buffer holds.
  unfoldable pub serialize : Element p → List ℕ
  serialize x = take size (to_le_bytes 16 x.raw)

  -- `deserialize`, which pads the buffer to sixteen bytes; `none` where `unwrap` panics.
  unfoldable pub deserialize : List ℕ → Option ℕ
  deserialize buf = try_from p (from_le_bytes (buf ++ replicate (16 - length buf) 0))

take-to_le_bytes : (n m v : ℕ) → n ≤ m → take n (to_le_bytes m v) ≡ to_le_bytes n v
take-to_le_bytes zero m v h = refl
take-to_le_bytes (suc n) zero v h = elim h [ ]
take-to_le_bytes (suc n) (suc m) v h =
    ap (λ l. v % 256 ∷ l) (take-to_le_bytes n m (v / 256) (omega arith))

from_le_bytes-padded :
    (n k v : ℕ) → v < 256 ^ n → from_le_bytes (to_le_bytes n v ++ replicate k 0) ≡ v
from_le_bytes-padded zero zero v h = omega arith
from_le_bytes-padded zero (suc k) v h = omega (arith, from_le_bytes-padded zero k 0 (omega arith))
from_le_bytes-padded (suc n) k v h =
    ap (λ w. v % 256 + 256 * w) (from_le_bytes-padded n k (v / 256) (quotient (256 ^ n) h'))
    ∙ mod-add-div v 256
  where
    h' : v < 256 * 256 ^ n
    h' = subst (λ w. v < w) (pow-succ' 256 n) h

    quotient : (w : ℕ) → v < 256 * w → v / 256 < w
    quotient w l = omega arith

gt→leb : (a b : ℕ) → b < a → leb a b ≡ false
gt→leb a b h = ground arith

module _ (p : Params) (s : IsSound p) where
  open p use {bits, prime}

  accepted : (v : ℕ) → v < 2 ^ bits → try_from p v ≡ some (v % prime)
  unfolding try_from
  accepted v h =
      rw (le→leb (bit_length v) bits (bit_length-le bits v h)) (ap some (truncate_from_lem p s v))

  -- Conversion of a `u128`, below 2 to the power 128, takes the values below 2 to the power `BITS`
  -- and reduces them modulo the prime, and refuses all others.
  pub try_from-truncate_from :
      (v : ℕ)
      → v < 2 ^ 128
      → ((v < 2 ^ bits) × (try_from p v ≡ some (v % prime)))
        ⊎ ((2 ^ bits ≤ v) × (try_from p v ≡ none))
  unfolding try_from
  try_from-truncate_from v small = elim (Bool-cases (ltb v (2 ^ bits))) [
    | inl h ↦ inl (ltb→lt _ _ h, accepted v (ltb→lt _ _ h))
    | inr h ↦
        let above = ltb→ge v (2 ^ bits) h in
        inr (above, rw (gt→leb (bit_length v) bits (bit_length-gt bits v small above)) refl)
  ]

  try_from-raw : (x : Element p) → try_from p x.raw ≡ some x.raw
  try_from-raw x = accepted x.raw (lt_trans x.below s.fits_store) ∙ ap some (mod-eq_of_lt x.below)

  -- In a field whose width is a whole number of bytes, sixteen at most, a value that was written to
  -- a buffer of the field's size is read back.
  pub deserialize-serialize :
      2 ^ bits ≡ 256 ^ size p
      → size p ≤ 16
      → (x : Element p) → deserialize p (serialize p x) ≡ some x.raw
  unfolding serialize deserialize
  deserialize-serialize e h x =
      ap (try_from p) (
        ap (λ l. from_le_bytes (l ++ replicate (16 - length l) 0))
          (take-to_le_bytes (size p) 16 x.raw h)
        ∙ from_le_bytes-padded (size p) _ x.raw
            (subst (λ w. x.raw < w) e (lt_trans x.below s.fits_store)))
      ∙ try_from-raw x
