-- ===== src/Protocol/Boolean/Or.antt =====
-- src/protocol/boolean/or.rs: the disjunction of two shared bits.
use raw_ipa.Prelude.{◌≡◌, refl, Bool, true, false, ◌||◌, [], subst}
use raw_ipa.Algebra.{Field, IsRing, 𝟘, 𝟙, ◌⊕◌, ◌⊗◌, ⊝◌}
use raw_ipa.Algebra.Solver.{Expr_field, solve, values, normalise}
use raw_ipa.Helpers.Role.{map_three, zip_three}
use raw_ipa.SecretSharing.Replicated.{add, neg}
use raw_ipa.SecretSharing.Sharing.{Sharing, Shares, IsReplicated, add-Shares, neg-Shares}
use raw_ipa.Protocol.Exchange.{Outcome, done, ◌>>=◌}
use raw_ipa.Protocol.Computes.{Computes, >>=-Computes}
use raw_ipa.Protocol.Basics.SecureMul.{mul, mul-Computes}
use raw_ipa.Protocol.Boolean.Xor.{bit}

module _ {ℓ} {A : Type ℓ} ⦃f : Field A⦄ (dec : Discrete A) where
  -- `or` at the three helpers: `-ab + a + b`.
  unfoldable pub or : Bool → Sharing A → Sharing A → Sharing A → Outcome (Sharing A)
  or debug prss a b = do
    ab ← mul dec debug a b prss
    done (zip_three add (zip_three add (map_three neg ab) a) b)

module _ {ℓ} {A : Type ℓ} ⦃f : Field A⦄ (r : IsRing A) (dec : Discrete A) (debug : Bool) where
  or_formula :
      (prss a b : Sharing A) {v w : A}
      → IsReplicated prss
      → Shares a v
      → Shares b w
      → Computes (or dec debug prss a b) (⊝ (v ⊗ w) ⊕ v ⊕ w)
  unfolding or
  or_formula prss a b {v} {w} hp ha hb =
      >>=-Computes (λ o. Computes o (⊝ (v ⊗ w) ⊕ v ⊕ w)) (mul dec debug a b prss)
        (λ p. done (zip_three add (zip_three add (map_three neg p) a) b))
        (mul-Computes r dec debug a b prss ha hb hp)
        (λ p h. (
          zip_three add (zip_three add (map_three neg p) a) b,
          refl,
          add-Shares r (zip_three add (map_three neg p) a) b
              (add-Shares r (map_three neg p) a (neg-Shares r p h) ha) hb,
        ))

  or_bits : (x y : Bool) → ⊝ (bit x ⊗ bit y) ⊕ bit x ⊕ bit y ≡ bit {A = A} (x || y)
  unfolding normalise
  or_bits true true = solve r (values []) (⊝ (𝟙 ⊗ 𝟙) ⊕ 𝟙 ⊕ 𝟙) 𝟙 refl
  or_bits true false = solve r (values []) (⊝ (𝟙 ⊗ 𝟘) ⊕ 𝟙 ⊕ 𝟘) 𝟙 refl
  or_bits false true = solve r (values []) (⊝ (𝟘 ⊗ 𝟙) ⊕ 𝟘 ⊕ 𝟙) 𝟙 refl
  or_bits false false = solve r (values []) (⊝ (𝟘 ⊗ 𝟘) ⊕ 𝟘 ⊕ 𝟘) 𝟘 refl

  -- With correlated randomness, on sharings of two bits the protocol computes a sharing of their
  -- disjunction.
  pub or-Computes :
      (prss a b : Sharing A) (x y : Bool)
      → IsReplicated prss
      → Shares a (bit x)
      → Shares b (bit y)
      → Computes (or dec debug prss a b) (bit (x || y))
  or-Computes prss a b x y hp ha hb =
      subst (Computes (or dec debug prss a b)) (or_bits x y) (or_formula prss a b hp ha hb)
