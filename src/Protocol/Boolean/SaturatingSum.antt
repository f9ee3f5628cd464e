-- ===== src/Protocol/Boolean/SaturatingSum.antt =====
-- src/protocol/boolean/saturating_sum.rs: sums of numbers that are shared bit by bit, over a field in
-- which 1 + 1 is 0.
pub mod Bits
pub mod Correct
pub mod Delta
use raw_ipa.Prelude.{ℕ, suc, ◌-◌, ◌<◌, Bool, List, [], ◌∷◌, leb, ltb, length, take, if◌then◌else◌}
use raw_ipa.Algebra.{Field, 𝟘, 𝟙}
use raw_ipa.Helpers.Role.{zip_three}
use raw_ipa.SecretSharing.Replicated.{add}
use raw_ipa.SecretSharing.Sharing.{Sharing, zero_sharing}
use raw_ipa.Protocol.Exchange.{Outcome, panic, done, ◌>>=◌}
use raw_ipa.Protocol.Basics.SecureMul.{mul}
use raw_ipa.Protocol.Basics.KnownValue.{known}
use raw_ipa.Protocol.Boolean.Or.{or}

-- `SaturatingSum` at the three helpers; the least significant bit comes first.
pub record SaturatingSum {ℓ} (A : Type ℓ) : Type ℓ where
  pub sum : List (Sharing A)
  pub is_saturated : Sharing A

module _ {ℓ} {A : Type ℓ} ⦃f : Field A⦄ where
  -- `value.get(i).unwrap_or(&zero)`, and the rest of the value.
  abbrev pub head_or_zero : List (Sharing A) → Sharing A
  head_or_zero [] = zero_sharing
  head_or_zero (x ∷ xs) = x

  abbrev pub tail : List (Sharing A) → List (Sharing A)
  tail [] = []
  tail (x ∷ xs) = xs

module _ {ℓ} {A : Type ℓ} ⦃f : Field A⦄ (dec : Discrete A) (debug : Bool) where
  -- `one_bit_adder`: the sum bit and the carry that it leaves.
  unfoldable pub one_bit_adder :
      Sharing A → Sharing A → Sharing A → Sharing A → Outcome (Sharing A × Sharing A)
  one_bit_adder prss x y carry_in = do
    let sum_bit = zip_three add (zip_three add x y) carry_in
    let x_xor_carry_in = zip_three add x carry_in
    let y_xor_carry_in = zip_three add y carry_in
    product ← mul dec debug x_xor_carry_in y_xor_carry_in prss
    done (sum_bit, zip_three add product carry_in)

  -- `one_bit_subtractor`.
  unfoldable pub one_bit_subtractor :
      Sharing A → Sharing A → Sharing A → Sharing A → Bool → Outcome (Sharing A × Sharing A)
  one_bit_subtractor prss x y carry_in compute_carry_out =
      let difference_bit = zip_three add (zip_three add (zip_three add (known 𝟙) y) x) carry_in in
      if compute_carry_out
      then (do
        let x_xor_carry_in = zip_three add x carry_in
        let y_xor_carry_in = zip_three add y carry_in
        let not_y_xor_carry_in = zip_three add (known 𝟙) y_xor_carry_in
        product ← mul dec debug x_xor_carry_in not_y_xor_carry_in prss
        done (difference_bit, zip_three add product carry_in))
      else done (difference_bit, carry_in)

  -- The loop of `add`, from bit `i`: the bits of the sum and the last carry. `prss` is the randomness
  -- of each step.
  unfoldable pub add_bits :
      (ℕ → Sharing A)
      → ℕ
      → List (Sharing A)
      → List (Sharing A)
      → Sharing A
      → Outcome (List (Sharing A) × Sharing A)
  add_bits prss i [] value carry_in = done ([], carry_in)
  add_bits prss i (y ∷ sum) value carry_in = do
    r ← one_bit_adder (prss i) (head_or_zero value) y carry_in
    rest ← add_bits prss (suc i) sum (tail value) r.1
    done (r.0 ∷ rest.0, rest.1)

  -- `SaturatingSum::add`.
  unfoldable pub add_value :
      (ℕ → Sharing A) → SaturatingSum A → List (Sharing A) → Outcome (SaturatingSum A)
  add_value prss s value =
      if leb (length value) (length s.sum)
      then (do
        r ← add_bits prss 0 s.sum value zero_sharing
        is_saturated ← or dec debug (prss (length s.sum)) r.1 s.is_saturated
        done (record { sum = r.0; is_saturated = is_saturated }))
      else panic

  -- The loop of `truncated_delta_to_saturation_point`.
  unfoldable pub subtract_bits :
      (ℕ → Sharing A) → ℕ → ℕ → List (Sharing A) → Sharing A → Outcome (List (Sharing A))
  subtract_bits prss num_bits i [] carry_in = done []
  subtract_bits prss num_bits i (bit ∷ bits) carry_in = do
    r ← one_bit_subtractor (prss i) zero_sharing bit carry_in (ltb i (num_bits - 1))
    rest ← subtract_bits prss num_bits (suc i) bits r.1
    done (r.0 ∷ rest)

  unfoldable pub truncated_delta_to_saturation_point :
      (ℕ → Sharing A) → SaturatingSum A → ℕ → Outcome (List (Sharing A))
  truncated_delta_to_saturation_point prss s num_bits =
      if leb num_bits (length s.sum)
      then subtract_bits prss num_bits 0 (take num_bits s.sum) (known 𝟙)
      else panic
