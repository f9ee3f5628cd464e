-- ===== src/Protocol/Basics/IfElse.antt =====
-- src/protocol/basics/if_else.rs: a choice between two shared values.
use raw_ipa.Prelude.{◌≡◌, refl, subst, Bool, true, false, if◌then◌else◌, [], ◌∷◌}
use raw_ipa.Algebra.{Field, IsRing, 𝟘, 𝟙, ◌⊕◌, ◌⊖◌, ◌⊗◌}
use raw_ipa.Algebra.Solver.{Expr_field, var, solve, values, normalise}
use raw_ipa.Helpers.Role.{zip_three}
use raw_ipa.SecretSharing.Replicated.{add, sub}
use raw_ipa.SecretSharing.Sharing.{Sharing, Shares, IsReplicated, add-Shares, sub-Shares}
use raw_ipa.Protocol.Exchange.{Outcome, done, ◌>>=◌}
use raw_ipa.Protocol.Computes.{Computes, >>=-Computes}
use raw_ipa.Protocol.Basics.SecureMul.{mul, mul-Computes}
use raw_ipa.Protocol.Boolean.Xor.{bit}

module _ {ℓ} {A : Type ℓ} ⦃f : Field A⦄ (dec : Discrete A) where
  -- `if_else` at the three helpers.
  unfoldable pub if_else :
      Bool → Sharing A → Sharing A → Sharing A → Sharing A → Outcome (Sharing A)
  if_else debug prss condition true_value false_value = do
    product ← mul dec debug condition (zip_three sub true_value false_value) prss
    done (zip_three add false_value product)

module _ {ℓ} {A : Type ℓ} ⦃f : Field A⦄ (r : IsRing A) (dec : Discrete A) (debug : Bool) where
  if_else_formula :
      (prss c t e : Sharing A) {vc vt ve : A}
      → IsReplicated prss
      → Shares c vc
      → Shares t vt
      → Shares e ve
      → Computes (if_else dec debug prss c t e) (ve ⊕ vc ⊗ (vt ⊖ ve))
  unfolding if_else
  if_else_formula prss c t e {vc} {vt} {ve} hp hc ht he =
      >>=-Computes (λ o. Computes o (ve ⊕ vc ⊗ (vt ⊖ ve)))
        (mul dec debug c (zip_three sub t e) prss) (λ p. done (zip_three add e p))
        (mul-Computes r dec debug c (zip_three sub t e) prss hc (sub-Shares r t e ht he) hp)
        (λ p h. (zip_three add e p, refl, add-Shares r e p he h))

  choice : (b : Bool) (x y : A) → y ⊕ bit b ⊗ (x ⊖ y) ≡ (if b then x else y)
  unfolding normalise
  choice true x y = solve r (values (x ∷ y ∷ [])) (var 1 ⊕ 𝟙 ⊗ (var 0 ⊖ var 1)) (var 0) refl
  choice false x y = solve r (values (x ∷ y ∷ [])) (var 1 ⊕ 𝟘 ⊗ (var 0 ⊖ var 1)) (var 1) refl

  -- With correlated randomness, on a sharing of 1 the protocol computes a sharing of the first
  -- value, and on a sharing of 0 of the second.
  pub if_else-Computes :
      (prss c t e : Sharing A) (b : Bool) {vt ve : A}
      → IsReplicated prss
      → Shares c (bit b)
      → Shares t vt
      → Shares e ve
      → Computes (if_else dec debug prss c t e) (if b then vt else ve)
  if_else-Computes prss c t e b {vt} {ve} hp hc ht he =
      subst (Computes (if_else dec debug prss c t e)) (choice b vt ve)
        (if_else_formula prss c t e hp hc ht he)
