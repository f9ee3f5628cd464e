-- ===== src/Protocol/Basics/KnownValue.antt =====
-- src/protocol/basics/share_known_value.rs: a sharing of a value that all helpers know.
use raw_ipa.Prelude.{refl, [], ◌∷◌}
use raw_ipa.Algebra.{Field, IsRing, 𝟘, ◌⊕◌}
use raw_ipa.Algebra.Solver.{Expr_field, var, solve, values, normalise}
use raw_ipa.Helpers.Role.{Role, h1, h2, h3, tabulate}
use raw_ipa.SecretSharing.Replicated.{AdditiveShare, new}
use raw_ipa.SecretSharing.Sharing.{Sharing, Shares, of_parts-IsReplicated}

module _ {ℓ} {A : Type ℓ} ⦃f : Field A⦄ where
  -- `share_known_value` at one helper.
  unfoldable pub share_known_value : Role → A → AdditiveShare A
  share_known_value h1 v = new v 𝟘
  share_known_value h2 v = new 𝟘 𝟘
  share_known_value h3 v = new 𝟘 v

  abbrev pub known : A → Sharing A
  known v = tabulate (λ r. share_known_value r v)

module _ {ℓ} {A : Type ℓ} ⦃f : Field A⦄ (r : IsRing A) where
  -- The three parts of a known value are a replicated sharing of it.
  pub share_known_value-Shares : (v : A) → Shares (known v) v
  unfolding share_known_value normalise
  share_known_value-Shares v = record {
    replicated = of_parts-IsReplicated v 𝟘 𝟘;
    shared = solve r (values (v ∷ [])) (var 0 ⊕ 𝟘 ⊕ 𝟘) (var 0) refl;
  }
