-- ===== src/Protocol/Boolean/LessThanPrime.antt =====
-- src/protocol/boolean/bitwise_less_than_prime.rs: a number that is shared bit by bit against the
-- prime of the field.
pub mod Plain
pub mod Correct
use raw_ipa.Prelude.{
  bit_length, ℕ, zero, suc, ◌+◌, ◌-◌, ◌/◌, ◌%◌, ◌^◌, compare, Ordering, Bool, true, false, ◌&&◌,
  not, List, [], ◌∷◌, length, take, drop, ltb, ◌==◌, if◌then◌else◌,
}
use raw_ipa.Algebra.{Field}
use raw_ipa.Helpers.Role.{zip_three}
use raw_ipa.SecretSharing.Replicated.{add}
use raw_ipa.SecretSharing.Sharing.{Sharing}
use raw_ipa.Protocol.Exchange.{Outcome, panic, done, ◌>>=◌}
use raw_ipa.Protocol.Basics.SecureMul.{mul}
use raw_ipa.Protocol.Boolean.Or.{or}
use raw_ipa.Protocol.Boolean.Comparison.{flipped}
use raw_ipa.Protocol.Boolean.Zeroes.{multiply_all_shares, any_ones}

-- `Step`; the randomness of a step is numbered by the steps inside it.
pub data Step : Type 0 where
  check_trimmed check_if_any_ones leading_ones_or_rest check_if_all_ones : Step
  check_least_significant all_ones_and_final_bits : Step

module _ {ℓ} {A : Type ℓ} ⦃f : Field A⦄ (dec : Discrete A) (debug : Bool) (prime : ℕ)
    (prss : Step → ℕ → Sharing A) where
  -- To index fewer than three shares panics.
  unfoldable pub check_least_significant_bits : List (Sharing A) → Outcome (Sharing A)
  check_least_significant_bits (x0 ∷ x1 ∷ x2 ∷ xs) =
      if debug && not (((prime % 8) == 3) && (length (x0 ∷ x1 ∷ x2 ∷ xs) == 3)) then panic else (do
        both_one ← mul dec debug x0 x1 (prss check_least_significant 0)
        one_one_zero ← mul dec debug (flipped x2) both_one (prss check_least_significant 1)
        done (zip_three add one_one_zero x2))
  check_least_significant_bits _ = panic

  -- `1 << l` overflows where `l` is 128, and `(1 << l) - 5` where it is below 3. No prime is then
  -- recognised either, and the code panics.
  unfoldable pub greater_than_or_equal_to_prime_trimmed : List (Sharing A) → Outcome (Sharing A)
  greater_than_or_equal_to_prime_trimmed x =
      let l = bit_length prime in
      if debug && not (length x == l)
      then panic
      else (if not (ltb l 128)
          then panic
          else (if prime == (2 ^ l - 1)
              then multiply_all_shares dec debug (prss check_if_all_ones) x
              else (if (prime + 5) == (2 ^ l)
                  then (do
                    least ← check_least_significant_bits (take 3 x)
                    most_all_ones ←
                        multiply_all_shares dec debug (prss check_if_all_ones) (drop 3 x)
                    mul dec debug least most_all_ones (prss all_ones_and_final_bits 0))
                  else panic)))

  unfoldable pub greater_than_or_equal_to_prime : List (Sharing A) → Outcome (Sharing A)
  greater_than_or_equal_to_prime x =
      let l = bit_length prime in
      elim (compare (length x) l) [
        | Ordering.gt ↦ (do
          leading_ones ← any_ones dec debug (prss check_if_any_ones) (drop l x)
          normal_check ← greater_than_or_equal_to_prime_trimmed (take l x)
          or dec debug (prss leading_ones_or_rest 0) leading_ones normal_check)
        | Ordering.eq ↦ greater_than_or_equal_to_prime_trimmed x
        | Ordering.lt ↦ panic
      ]

  unfoldable pub less_than_prime : List (Sharing A) → Outcome (Sharing A)
  less_than_prime x = do gtoe ← greater_than_or_equal_to_prime x; done (flipped gtoe)
