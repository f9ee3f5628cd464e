-- ===== src/Protocol/Basics/CheckZero.antt =====
-- src/protocol/basics/check_zero.rs: whether a shared value is zero.
use raw_ipa.Prelude.{◌≡◌, refl, Bool, true, false}
use mathlib.Core.Logic.{ite}
use raw_ipa.Algebra.{Field, IsRing, 𝟘, ◌⊗◌}
use raw_ipa.Helpers.Role.{Three, map_three}
use raw_ipa.SecretSharing.Sharing.{Sharing, Shares, IsReplicated, value}
use raw_ipa.Protocol.Exchange.{Outcome, done, ◌>>=◌}
use raw_ipa.Protocol.Computes.{>>=-Computes}
use raw_ipa.Protocol.Basics.SecureMul.{mul, mul-Computes}
use raw_ipa.Protocol.Basics.Reveal.{reveal_all, reveal_all_lem}

abbrev pub all_say {ℓ} : {B : Type ℓ} → B → Three B
all_say b = record { first = b; second = b; third = b }

module _ {ℓ} {A : Type ℓ} ⦃f : Field A⦄ (dec : Discrete A) where
  abbrev pub is_zero : A → Bool
  is_zero a = ite (dec a 𝟘) true false

  -- `check_zero` at the three helpers, with the sharing `r` of a random value and the randomness of
  -- the multiplication.
  unfoldable pub check_zero : Bool → Sharing A → Sharing A → Sharing A → Outcome (Three Bool)
  check_zero debug r prss v = do
    rv_share ← mul dec debug r v prss
    rv ← reveal_all rv_share
    done (map_three is_zero rv)

module _ {ℓ} {A : Type ℓ} ⦃f : Field A⦄ (ring : IsRing A) (dec : Discrete A) where
  -- With a consistent sharing of the random value and correlated randomness, all three helpers
  -- return the same answer: whether the product of the value and the random value is zero.
  pub check_zero_lem :
      (debug : Bool) (r prss v : Sharing A) {x : A}
      → IsReplicated r
      → IsReplicated prss
      → Shares v x
      → check_zero dec debug r prss v ≡ done (all_say (is_zero dec (value r ⊗ x)))
  unfolding check_zero
  check_zero_lem debug r prss v {x} hr hp hv =
      >>=-Computes (λ o. o ≡ done (all_say (is_zero dec (value r ⊗ x)))) (mul dec debug r v prss)
        (λ s. reveal_all s >>= λ rv. done (map_three (is_zero dec) rv))
        (mul-Computes ring dec debug r v prss (record { replicated = hr; shared = refl }) hv hp)
        (λ s h. rw (reveal_all_lem ring s h))
