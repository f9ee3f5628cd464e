-- ===== src/Protocol/Basics/SecureMul.antt =====
-- src/protocol/basics/mul/mod.rs: the multiplication of values with no known zeros.
use raw_ipa.Prelude.{◌≡◌, refl, Bool, true, false, ◌&&◌}
use raw_ipa.Algebra.{Field, IsRing, ◌⊗◌}
use raw_ipa.SecretSharing.Sharing.{Sharing, Shares, IsReplicated}
use raw_ipa.Protocol.Exchange.{Outcome}
use raw_ipa.Protocol.Computes.{Computes}
use raw_ipa.Protocol.Basics.ZeroPositions.{pvvv, is_pointless}
use raw_ipa.Protocol.Basics.Mul.{multiply_all}
use raw_ipa.Protocol.Basics.Mul.Sparse.{Conforms}
use raw_ipa.Protocol.Basics.Mul.Debug.{multiply-Computes}

module _ {ℓ} {A : Type ℓ} ⦃f : Field A⦄ where
  -- `SecureMul::multiply`, which is `multiply_sparse` with `ZeroPositions::NONE`.
  unfoldable pub mul : Discrete A → Bool → Sharing A → Sharing A → Sharing A → Outcome (Sharing A)
  mul dec debug a b prss = multiply_all dec debug (pvvv, pvvv) a b prss

  pub pvvv-Conforms : (s : Sharing A) → Conforms pvvv s
  pvvv-Conforms s = record { first_zero = λ e. cc; second_zero = λ e. cc; third_zero = λ e. cc }

not_pointless : (debug : Bool) → (debug && is_pointless pvvv pvvv) ≡ false
unfolding is_pointless
not_pointless true = refl
not_pointless false = refl

module _ {ℓ} {A : Type ℓ} ⦃f : Field A⦄ (r : IsRing A) (dec : Discrete A) (debug : Bool) where
  pub mul-Computes :
      (a b prss : Sharing A) {v w : A}
      → Shares a v
      → Shares b w
      → IsReplicated prss
      → Computes (mul dec debug a b prss) (v ⊗ w)
  unfolding mul
  mul-Computes a b prss sa sb p =
      multiply-Computes r dec debug pvvv pvvv a b prss (not_pointless debug) (pvvv-Conforms a)
        (pvvv-Conforms b) sa sb p
