-- ===== src/Protocol/Basics/Mul/Output.antt =====
-- src/protocol/basics/mul/sparse.rs: zeros in the result of a multiplication.
use raw_ipa.Prelude.{◌≡◌, refl, Bool, true, false, if◌then◌else◌, sym, subst, []}
use raw_ipa.Algebra.{Field, IsRing, 𝟘}
use raw_ipa.Algebra.Solver.{Expr, Expr_field, var, eval, vanishes, normalise}
use raw_ipa.Helpers.Role.{Role, h1, h2, h3, at}
use raw_ipa.SecretSharing.Sharing.{Sharing, IsReplicated, eq-of_parts}
use raw_ipa.Protocol.Exchange.{unwrap_or}
use raw_ipa.Protocol.Basics.ZeroPositions.{
  ZeroPositions, pvvv, pzzv, pzvz, pvzz, pvvz, pvzv, pzvv, flags, mul_output,
}
use raw_ipa.Protocol.Basics.Mul.{multiply, multiply_all}
use raw_ipa.Protocol.Basics.Mul.Sparse.{Conforms, eq-blanked}
use raw_ipa.Protocol.Basics.Mul.Correct.{product_of, product, assignment, Expr-discrete}

-- The zero positions of the result, in a build without debug assertions.
abbrev pub output : ZeroPositions → ZeroPositions → ZeroPositions
output za zb = unwrap_or pvvv (mul_output false (za, zb))

module _ {ℓ} {A : Type ℓ} ⦃f : Field A⦄ where
  -- What has to vanish at a helper: its left part, where a zero is claimed.
  abbrev claimed : ZeroPositions → Role → Sharing A → A
  claimed z r s = if at (flags z) r then (at s r).left else 𝟘

  of_claimed : (b : Bool) (x : A) → (if b then x else 𝟘) ≡ 𝟘 → b ≡ true → x ≡ 𝟘
  of_claimed true x h e = h
  of_claimed false x h e = cc

abbrev symbolic : Role → ZeroPositions → ZeroPositions → Expr
symbolic r za zb = claimed (output za zb) r (
    product Expr-discrete (var 0) (var 1) (var 2) (var 3) (var 4) (var 5) (var 6) (var 7) (var 8) za
      zb)

module _ {ℓ} {A : Type ℓ} ⦃f : Field A⦄ (r : IsRing A) (dec : Discrete A)
    (a1 a2 a3 b1 b2 b3 p1 p2 p3 : A) where
  abbrev part : Role → ZeroPositions → ZeroPositions → A
  part role za zb = claimed (output za zb) role (product dec a1 a2 a3 b1 b2 b3 p1 p2 p3 za zb)

  cancelled :
      (role : Role) (za zb : ZeroPositions)
      → normalise (symbolic role za zb) ≡ []
      → eval (assignment r dec a1 a2 a3 b1 b2 b3 p1 p2 p3) (symbolic role za zb) ≡ 𝟘
  cancelled role za zb h =
      vanishes r (assignment r dec a1 a2 a3 b1 b2 b3 p1 p2 p3) (symbolic role za zb) h

  first_part : (za zb : ZeroPositions) → part h1 za zb ≡ 𝟘
  unfolding multiply_all multiply normalise mul_output
  first_part pvvv pvvv = cancelled h1 pvvv pvvv refl
  first_part pzzv pvvv = cancelled h1 pzzv pvvv refl
  first_part pzvz pvvv = cancelled h1 pzvz pvvv refl
  first_part pvzz pvvv = cancelled h1 pvzz pvvv refl
  first_part pvvz pvvv = cancelled h1 pvvz pvvv refl
  first_part pvzv pvvv = cancelled h1 pvzv pvvv refl
  first_part pzvv pvvv = cancelled h1 pzvv pvvv refl
  first_part za zb = cancelled h1 za zb refl

  second_part : (za zb : ZeroPositions) → part h2 za zb ≡ 𝟘
  unfolding multiply_all multiply normalise mul_output
  second_part pvvv pvvv = cancelled h2 pvvv pvvv refl
  second_part pzzv pvvv = cancelled h2 pzzv pvvv refl
  second_part pzvz pvvv = cancelled h2 pzvz pvvv refl
  second_part pvzz pvvv = cancelled h2 pvzz pvvv refl
  second_part pvvz pvvv = cancelled h2 pvvz pvvv refl
  second_part pvzv pvvv = cancelled h2 pvzv pvvv refl
  second_part pzvv pvvv = cancelled h2 pzvv pvvv refl
  second_part za zb = cancelled h2 za zb refl

  third_part : (za zb : ZeroPositions) → part h3 za zb ≡ 𝟘
  unfolding multiply_all multiply normalise mul_output
  third_part pvvv pvvv = cancelled h3 pvvv pvvv refl
  third_part pzzv pvvv = cancelled h3 pzzv pvvv refl
  third_part pzvz pvvv = cancelled h3 pzvz pvvv refl
  third_part pvzz pvvv = cancelled h3 pvzz pvvv refl
  third_part pvvz pvvv = cancelled h3 pvvz pvvv refl
  third_part pvzv pvvv = cancelled h3 pvzv pvvv refl
  third_part pzvv pvvv = cancelled h3 pzvv pvvv refl
  third_part za zb = cancelled h3 za zb refl

module _ {ℓ} {A : Type ℓ} ⦃f : Field A⦄ (r : IsRing A) where
  -- In a build without debug assertions, the result of a multiplication has zeros at the positions
  -- that `mul_output` tells from those of the two factors, for all replicated factors that are zero
  -- where their positions say so.
  pub mul_output-Conforms :
      (dec : Discrete A) (za zb : ZeroPositions) (a b prss : Sharing A)
      → Conforms za a
      → Conforms zb b
      → IsReplicated a
      → IsReplicated b
      → IsReplicated prss
      → Conforms (output za zb) (product_of dec (za, zb) a b prss)
  mul_output-Conforms dec za zb a b prss ca cb ra rb rp =
      subst (Conforms (output za zb))
        (λ i.
          product_of dec (za, zb) (sym (eq-blanked za a ra ca) i) (sym (eq-blanked zb b rb cb) i)
            (sym (eq-of_parts prss rp) i))
        (record {
          first_zero = of_claimed _ _ (first_part r dec a1 a2 a3 b1 b2 b3 p1 p2 p3 za zb);
          second_zero = of_claimed _ _ (second_part r dec a1 a2 a3 b1 b2 b3 p1 p2 p3 za zb);
          third_zero = of_claimed _ _ (third_part r dec a1 a2 a3 b1 b2 b3 p1 p2 p3 za zb);
        })
    where
      open a.first use {left as a1}
      open a.second use {left as a2}
      open a.third use {left as a3}
      open b.first use {left as b1}
      open b.second use {left as b2}
      open b.third use {left as b3}
      open prss.first use {left as p1}
      open prss.second use {left as p2}
      open prss.third use {left as p3}
