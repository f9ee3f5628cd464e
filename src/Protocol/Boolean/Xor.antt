-- ===== src/Protocol/Boolean/Xor.antt =====
-- src/protocol/boolean/xor.rs: the exclusive disjunction of two shared bits.
use raw_ipa.Prelude.{◌≡◌, refl, ap, ◌∙◌, Bool, true, false, ◌&&◌, [], subst}
use mathlib.Core.Bool.{xor as xor_bool}
use raw_ipa.Algebra.{Field, IsRing, 𝟘, 𝟙, ◌⊕◌, ◌⊗◌, ⊝◌}
use raw_ipa.Algebra.Solver.{Expr_field, solve, values, normalise}
use raw_ipa.Helpers.Role.{map_three, zip_three}
use raw_ipa.SecretSharing.Replicated.{add, neg}
use raw_ipa.SecretSharing.Replicated
use raw_ipa.SecretSharing.Sharing.{
  Sharing, Shares, IsReplicated, add-Shares, neg-Shares, mul-Shares,
}
use raw_ipa.Protocol.Exchange.{Outcome, done, ◌>>=◌}
use raw_ipa.Protocol.Computes.{Computes, >>=-Computes}
use raw_ipa.Protocol.Basics.ZeroPositions.{MultiplyZeroPositions, ZeroPositions, is_pointless}
use raw_ipa.Protocol.Basics.Mul.{multiply_all}
use raw_ipa.Protocol.Basics.Mul.Sparse.{Conforms}
use raw_ipa.Protocol.Basics.Mul.Debug.{multiply-Computes}

module _ {ℓ} {A : Type ℓ} ⦃f : Field A⦄ where
  -- The field element of a bit.
  abbrev pub bit : Bool → A
  bit true = 𝟙
  bit false = 𝟘

module _ {ℓ} {A : Type ℓ} ⦃f : Field A⦄ (dec : Discrete A) where
  -- `xor_sparse` at the three helpers: `-(ab * 2) + a + b`. `two` is `F::truncate_from(2)`.
  unfoldable pub xor_sparse :
      Bool → MultiplyZeroPositions → A → Sharing A → Sharing A → Sharing A → Outcome (Sharing A)
  xor_sparse debug zeros_at two prss a b = do
    ab ← multiply_all dec debug zeros_at a b prss
    done (
        zip_three add (zip_three add (map_three neg (map_three (λ t. Replicated.mul t two) ab)) a)
          b)

module _ {ℓ} {A : Type ℓ} ⦃f : Field A⦄ (r : IsRing A) (dec : Discrete A) (debug : Bool)
    (za zb : ZeroPositions) where
  xor_formula :
      (two : A) (prss a b : Sharing A) {v w : A}
      → (debug && is_pointless za zb) ≡ false
      → Conforms za a
      → Conforms zb b
      → IsReplicated prss
      → Shares a v
      → Shares b w
      → Computes (xor_sparse dec debug (za, zb) two prss a b) (⊝ (v ⊗ w ⊗ two) ⊕ v ⊕ w)
  unfolding xor_sparse
  xor_formula two prss a b {v} {w} h ca cb hp ha hb =
      >>=-Computes (λ o. Computes o (⊝ (v ⊗ w ⊗ two) ⊕ v ⊕ w))
        (multiply_all dec debug (za, zb) a b prss) (λ p. done (local p))
        (multiply-Computes r dec debug za zb a b prss h ca cb ha hb hp)
        (λ p k. (
          local p,
          refl,
          add-Shares r _ b
              (add-Shares r _ a
                (neg-Shares r (map_three (λ t. Replicated.mul t two) p) (mul-Shares r p two k)) ha)
              hb,
        ))
    where
      local : Sharing A → Sharing A
      local p =
          zip_three add (zip_three add (map_three neg (map_three (λ t. Replicated.mul t two) p)) a)
            b

  xor_bits : (x y : Bool) → ⊝ (bit x ⊗ bit y ⊗ (𝟙 ⊕ 𝟙)) ⊕ bit x ⊕ bit y ≡ bit {A = A} (xor_bool x y)
  unfolding normalise xor_bool
  xor_bits true true = solve r (values []) (⊝ (𝟙 ⊗ 𝟙 ⊗ (𝟙 ⊕ 𝟙)) ⊕ 𝟙 ⊕ 𝟙) 𝟘 refl
  xor_bits true false = solve r (values []) (⊝ (𝟙 ⊗ 𝟘 ⊗ (𝟙 ⊕ 𝟙)) ⊕ 𝟙 ⊕ 𝟘) 𝟙 refl
  xor_bits false true = solve r (values []) (⊝ (𝟘 ⊗ 𝟙 ⊗ (𝟙 ⊕ 𝟙)) ⊕ 𝟘 ⊕ 𝟙) 𝟙 refl
  xor_bits false false = solve r (values []) (⊝ (𝟘 ⊗ 𝟘 ⊗ (𝟙 ⊕ 𝟙)) ⊕ 𝟘 ⊕ 𝟘) 𝟘 refl

  -- On sharings of two bits, zero where the zero positions say so, the protocol computes a sharing
  -- of their exclusive disjunction, if `two` is the field's 1 + 1, the randomness is correlated,
  -- and with debug assertions the multiplication needs communication.
  pub xor-Computes :
      (two : A) (prss a b : Sharing A) (x y : Bool)
      → two ≡ 𝟙 ⊕ 𝟙
      → (debug && is_pointless za zb) ≡ false
      → Conforms za a
      → Conforms zb b
      → IsReplicated prss
      → Shares a (bit x)
      → Shares b (bit y)
      → Computes (xor_sparse dec debug (za, zb) two prss a b) (bit (xor_bool x y))
  xor-Computes two prss a b x y e h ca cb hp ha hb =
      subst (Computes (xor_sparse dec debug (za, zb) two prss a b))
        (ap (λ t. ⊝ (bit x ⊗ bit y ⊗ t) ⊕ bit x ⊕ bit y) e ∙ xor_bits x y)
        (xor_formula two prss a b h ca cb hp ha hb)
