-- ===== src/Protocol/Boolean/Zeroes.antt =====
-- src/protocol/boolean/mod.rs and bitwise_equal.rs: the product of many shares, and what is decided by
-- it: whether all bits are zero, whether any is one, and whether two numbers are equal.
pub mod Tree
pub mod Equal
use raw_ipa.Prelude.{
  ℕ, zero, suc, ◌+◌, ◌/◌, Bool, true, false, ◌&&◌, not, List, [], ◌∷◌, length, leb, ◌==◌,
  if◌then◌else◌,
}
use raw_ipa.Algebra.{Field}
use raw_ipa.Helpers.Role.{zip_three}
use raw_ipa.SecretSharing.Replicated.{sub}
use raw_ipa.SecretSharing.Sharing.{Sharing}
use raw_ipa.Protocol.Exchange.{Outcome, panic, done, ◌>>=◌}
use raw_ipa.Protocol.Basics.SecureMul.{mul}
use raw_ipa.Protocol.Boolean.Comparison.{flipped, flip_bits, xored_bits}

module _ {ℓ} {A : Type ℓ} ⦃f : Field A⦄ where
  -- `zip(a, b)` with the differences.
  abbrev pub zip_sub : List (Sharing A) → List (Sharing A) → List (Sharing A)
  zip_sub [] bs = []
  zip_sub (a ∷ as') [] = []
  zip_sub (a ∷ as') (b ∷ bs) = zip_three sub a b ∷ zip_sub as' bs

module _ {ℓ} {A : Type ℓ} ⦃f : Field A⦄ (dec : Discrete A) (debug : Bool)
    (prss : ℕ → Sharing A) where
  -- A round of `multiply_all_shares`, from the step `mult_count`: the products of the pairs, and the
  -- last share where their number is odd.
  unfoldable pub multiply_pairs : ℕ → List (Sharing A) → Outcome (List (Sharing A))
  multiply_pairs mult_count [] = done []
  multiply_pairs mult_count (a ∷ []) = done (a ∷ [])
  multiply_pairs mult_count (a ∷ b ∷ shares) = do
    ab ← mul dec debug a b (prss mult_count)
    results ← multiply_pairs (suc mult_count) shares
    done (ab ∷ results)

  -- Rounds while there is more than one share; to index no shares panics, and so does a round too
  -- many.
  unfoldable pub multiply_rounds : ℕ → ℕ → List (Sharing A) → Outcome (Sharing A)
  multiply_rounds fuel mult_count [] = panic
  multiply_rounds fuel mult_count (a ∷ []) = done a
  multiply_rounds zero mult_count (a ∷ b ∷ shares) = panic
  multiply_rounds (suc fuel) mult_count (a ∷ b ∷ shares) = do
    results ← multiply_pairs mult_count (a ∷ b ∷ shares)
    multiply_rounds fuel (mult_count + length (a ∷ b ∷ shares) / 2) results

  -- `multiply_all_shares`; each round leaves fewer shares.
  unfoldable pub multiply_all_shares : List (Sharing A) → Outcome (Sharing A)
  multiply_all_shares x = multiply_rounds (length x) 0 x

  unfoldable pub all_zeroes : List (Sharing A) → Outcome (Sharing A)
  all_zeroes x = multiply_all_shares (flip_bits x)

  unfoldable pub any_ones : List (Sharing A) → Outcome (Sharing A)
  any_ones x = do res ← all_zeroes x; done (flipped res)

  unfoldable pub bitwise_equal_constant : List (Sharing A) → ℕ → Outcome (Sharing A)
  bitwise_equal_constant a c = if leb (length a) 128 then all_zeroes (xored_bits c 0 a) else panic

  unfoldable pub bitwise_equal_gf2 : List (Sharing A) → List (Sharing A) → Outcome (Sharing A)
  bitwise_equal_gf2 a b =
      if debug && not (length a == length b) then panic else all_zeroes (zip_sub a b)
