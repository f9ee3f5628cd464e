-- ===== src/Protocol/Basics/Mul/Correct.antt =====
-- src/protocol/basics/mul/semi_honest.rs: the value that the result of the multiplication shares.
use raw_ipa.Prelude.{ℕ, ◌≡◌, refl, sym, ap, ap₂, ◌∙◌, subst, false, [], ◌∷◌, ℕ_discrete}
use raw_ipa.Algebra.{Field, IsRing, ◌⊖◌, ◌⊗◌, 𝟘}
use raw_ipa.Algebra.Laws.{eq_of_sub}
use raw_ipa.Algebra.Solver.{Expr, Expr_field, var, eval, values, vanishes, normalise}
use raw_ipa.Protocol.Computes.{Computes}
use raw_ipa.SecretSharing.Sharing.{
  Sharing, of_parts, of_parts-IsReplicated, IsReplicated, eq-of_parts, value, Shares, zero_sharing,
}
use raw_ipa.Protocol.Exchange.{done, unwrap_or}
use raw_ipa.Protocol.Basics.ZeroPositions.{
  ZeroPositions, pvvv, pzzv, pzvz, pvzz, pvvz, pvzv, pzvv, MultiplyZeroPositions,
}
use raw_ipa.Protocol.Basics.Mul.{multiply, multiply_all}
use raw_ipa.Protocol.Basics.Mul.Sparse.{Conforms, blanked, eq-blanked}

pub Expr-discrete : Discrete Expr
Expr-discrete = hlevel ℕ_discrete

module _ {ℓ} {A : Type ℓ} ⦃f : Field A⦄ (dec : Discrete A) where
  -- What the helpers hold after the protocol, in a build without debug assertions.
  abbrev pub product_of : MultiplyZeroPositions → Sharing A → Sharing A → Sharing A → Sharing A
  product_of zeros a b prss = unwrap_or zero_sharing (multiply_all dec false zeros a b prss)

  pub returns :
      (za zb : ZeroPositions) (a b prss : Sharing A)
      → multiply_all dec false (za, zb) a b prss ≡ done (product_of (za, zb) a b prss)
  unfolding multiply_all multiply
  returns pvvv pvvv a b prss = refl
  returns pzzv pvvv a b prss = refl
  returns pzvz pvvv a b prss = refl
  returns pvzz pvvv a b prss = refl
  returns pvvz pvvv a b prss = refl
  returns pvzv pvvv a b prss = refl
  returns pzvv pvvv a b prss = refl
  returns _ _ a b prss = refl

module _ {ℓ} {A : Type ℓ} ⦃f : Field A⦄ (dec : Discrete A) (a1 a2 a3 b1 b2 b3 p1 p2 p3 : A) where
  -- The product of sharings that are zero where the zero positions say so.
  abbrev pub product : ZeroPositions → ZeroPositions → Sharing A
  product za zb =
      product_of dec (za, zb) (blanked za a1 a2 a3) (blanked zb b1 b2 b3) (of_parts p1 p2 p3)

  abbrev factors : ZeroPositions → ZeroPositions → A
  factors za zb = value (blanked za a1 a2 a3) ⊗ value (blanked zb b1 b2 b3)

  agrees : (za zb : ZeroPositions) → IsReplicated (product za zb)
  unfolding multiply_all multiply
  agrees pvvv pvvv = of_parts-IsReplicated _ _ _
  agrees pzzv pvvv = of_parts-IsReplicated _ _ _
  agrees pzvz pvvv = of_parts-IsReplicated _ _ _
  agrees pvzz pvvv = of_parts-IsReplicated _ _ _
  agrees pvvz pvvv = of_parts-IsReplicated _ _ _
  agrees pvzv pvvv = of_parts-IsReplicated _ _ _
  agrees pzvv pvvv = of_parts-IsReplicated _ _ _
  agrees _ _ = of_parts-IsReplicated _ _ _

-- The same over variables.
abbrev symbolic : ZeroPositions → ZeroPositions → Expr
symbolic za zb =
    value (
      product Expr-discrete (var 0) (var 1) (var 2) (var 3) (var 4) (var 5) (var 6) (var 7) (var 8)
        za zb)
    ⊖ factors Expr-discrete (var 0) (var 1) (var 2) (var 3) (var 4) (var 5) (var 6) (var 7) (var 8)
        za zb

module _ {ℓ} {A : Type ℓ} ⦃f : Field A⦄ (r : IsRing A) (dec : Discrete A)
    (a1 a2 a3 b1 b2 b3 p1 p2 p3 : A) where
  abbrev pub assignment : ℕ → A
  assignment = values (a1 ∷ a2 ∷ a3 ∷ b1 ∷ b2 ∷ b3 ∷ p1 ∷ p2 ∷ p3 ∷ [])

  abbrev difference : ZeroPositions → ZeroPositions → A
  difference za zb =
      value (product dec a1 a2 a3 b1 b2 b3 p1 p2 p3 za zb)
      ⊖ factors dec a1 a2 a3 b1 b2 b3 p1 p2 p3 za zb

  cancelled :
      (za zb : ZeroPositions)
      → normalise (symbolic za zb) ≡ []
      → eval assignment (symbolic za zb) ≡ 𝟘
  cancelled za zb h = vanishes r assignment (symbolic za zb) h

  no_difference : (za zb : ZeroPositions) → difference za zb ≡ 𝟘
  unfolding multiply_all multiply normalise
  no_difference pvvv pvvv = cancelled pvvv pvvv refl
  no_difference pzzv pvvv = cancelled pzzv pvvv refl
  no_difference pzvz pvvv = cancelled pzvz pvvv refl
  no_difference pvzz pvvv = cancelled pvzz pvvv refl
  no_difference pvvz pvvv = cancelled pvvz pvvv refl
  no_difference pvzv pvvv = cancelled pvzv pvvv refl
  no_difference pzvv pvvv = cancelled pzvv pvvv refl
  no_difference za zb = cancelled za zb refl

module _ {ℓ} {A : Type ℓ} ⦃f : Field A⦄ (r : IsRing A) where
  -- With inputs that are zero where the zero positions say so, and correlated randomness, all three
  -- helpers return, in a build without debug assertions: none waits for a value that its neighbour
  -- does not send. The result is a replicated sharing of the product of the two shared values.
  pub multiply_all-Computes :
      (dec : Discrete A) (za zb : ZeroPositions) (a b prss : Sharing A) {v w : A}
      → Conforms za a
      → Conforms zb b
      → Shares a v
      → Shares b w
      → IsReplicated prss
      → Computes (multiply_all dec false (za, zb) a b prss) (v ⊗ w)
  multiply_all-Computes dec za zb a b prss {v} {w} ca cb sa sb p = (
    product_of dec (za, zb) a b prss,
    returns dec za zb a b prss,
    record {
      replicated = subst IsReplicated (sym parts) (
          agrees dec a.first.left a.second.left a.third.left b.first.left b.second.left b.third.left
            prss.first.left prss.second.left prss.third.left za zb);
      shared =
          ap value parts
          ∙ eq_of_sub r _ _ (
              no_difference r dec a.first.left a.second.left a.third.left b.first.left b.second.left
                b.third.left prss.first.left prss.second.left prss.third.left za zb)
          ∙ ap₂ (λ x y. x ⊗ y) (ap value (sym ea) ∙ sa.shared) (ap value (sym eb) ∙ sb.shared);
    },
  )
    where
      ea : a ≡ blanked za a.first.left a.second.left a.third.left
      ea = eq-blanked za a sa.replicated ca

      eb : b ≡ blanked zb b.first.left b.second.left b.third.left
      eb = eq-blanked zb b sb.replicated cb

      ep : prss ≡ of_parts prss.first.left prss.second.left prss.third.left
      ep = eq-of_parts prss p

      parts :
          product_of dec (za, zb) a b prss
          ≡ product_of dec
              (za, zb)
              (blanked za a.first.left a.second.left a.third.left)
              (blanked zb b.first.left b.second.left b.third.left)
              (of_parts prss.first.left prss.second.left prss.third.left)
      parts = λ i. product_of dec (za, zb) (ea i) (eb i) (ep i)
