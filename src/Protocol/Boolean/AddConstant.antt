-- ===== src/Protocol/Boolean/AddConstant.antt =====
-- src/protocol/boolean/add_constant.rs: the sum of a number that is shared bit by bit and a known one.
pub mod Correct
use raw_ipa.Prelude.{ℕ, suc, ◌%◌, Bool, true, false, ◌&&◌, List, [], ◌∷◌, leb, if◌then◌else◌}
use raw_ipa.Algebra.{Field, 𝟙}
use raw_ipa.Helpers.Role.{map_three, zip_three}
use raw_ipa.SecretSharing.Replicated.{add, neg}
use raw_ipa.SecretSharing.Replicated
use raw_ipa.SecretSharing.Sharing.{Sharing, zero_sharing}
use raw_ipa.Protocol.Exchange.{Outcome, panic, done, ◌>>=◌}
use raw_ipa.Protocol.Basics.KnownValue.{known}
use raw_ipa.Protocol.Basics.SecureMul.{mul}
use raw_ipa.Protocol.Boolean.Comparison.{is_zero_at, flipped}

module _ {ℓ} {A : Type ℓ} ⦃f : Field A⦄ (two : A) where
  -- `next_carry`, by whether the bit of `b` is zero.
  unfoldable pub next_carry : Bool → Sharing A → Sharing A → Sharing A → Sharing A
  next_carry true mult_result last_carry bit = mult_result
  next_carry false mult_result last_carry bit =
      zip_three add (zip_three add (map_three neg mult_result) last_carry) bit

  -- `-(&next_carry * two)`
  abbrev pub twice_less : Sharing A → Sharing A
  twice_less carry = map_three neg (map_three (λ t. Replicated.mul t two) carry)

  -- `result_bit`, by whether the bit of `b` is zero.
  unfoldable pub result_bit : Bool → Sharing A → Sharing A → Sharing A → Sharing A
  result_bit true carry last_carry bit =
      zip_three add (zip_three add (twice_less carry) bit) last_carry
  result_bit false carry last_carry bit =
      zip_three add (zip_three add (zip_three add (twice_less carry) (known 𝟙)) bit) last_carry

module _ {ℓ} {A : Type ℓ} ⦃f : Field A⦄ (dec : Discrete A) (debug : Bool) (two : A)
    (prss : ℕ → Sharing A) where
  -- `mult_result`, by `last_carry_known_to_be_zero`.
  unfoldable pub mult_result : Bool → ℕ → Sharing A → Sharing A → Outcome (Sharing A)
  mult_result true i last_carry bit = do
    ignored ← mul dec debug zero_sharing zero_sharing (prss i)
    done zero_sharing
  mult_result false i last_carry bit = mul dec debug last_carry bit (prss i)

  -- The loop of `add_constant`, from the bit `i` on, and the last carry. A shift by 128 or more
  -- overflows: it panics, or without debug assertions shifts by the rest.
  unfoldable pub add_digits :
      ℕ → ℕ → Bool → Sharing A → List (Sharing A) → Outcome (List (Sharing A))
  add_digits b i known_zero last_carry [] = done (last_carry ∷ [])
  add_digits b i known_zero last_carry (bit ∷ bits) = do
    m ← mult_result known_zero i last_carry bit
    (if debug && leb 128 i then panic else (do
      rest ←
          add_digits b (suc i) (known_zero && is_zero_at b (i % 128))
            (next_carry two (is_zero_at b (i % 128)) m last_carry bit) bits
      done (
          result_bit two (is_zero_at b (i % 128))
            (next_carry two (is_zero_at b (i % 128)) m last_carry bit) last_carry bit
          ∷ rest)))

  unfoldable pub add_constant : List (Sharing A) → ℕ → Outcome (List (Sharing A))
  add_constant [] b = panic
  add_constant (a ∷ bits) b =
      let known_zero = is_zero_at b 0 in
      (do
        rest ← add_digits b 1 known_zero (if known_zero then zero_sharing else a) bits
        done ((if known_zero then a else flipped a) ∷ rest))
