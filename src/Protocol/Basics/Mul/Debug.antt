-- ===== src/Protocol/Basics/Mul/Debug.antt =====
-- src/protocol/basics/mul: the multiplication in builds with debug assertions.
use raw_ipa.Prelude.{
  ◌≡◌, refl, Bool, true, false, if◌then◌else◌, ◌&&◌, not, sym, ap, ◌∙◌, subst, [], ◌∷◌, ℕ,
}
use mathlib.Core.Logic.{ite, if_pos}
use raw_ipa.Algebra.{Field, IsRing, ◌⊕◌, ◌⊗◌, 𝟘}
use raw_ipa.Algebra.Solver.{Expr, Expr_field, var, eval, values, vanishes, normalise}
use raw_ipa.Helpers.Role.{Role, h1, h2, h3, Direction, at, peer, tabulate}
use raw_ipa.SecretSharing.Replicated.{AdditiveShare}
use raw_ipa.SecretSharing.Sharing.{Sharing, IsReplicated, Shares}
use raw_ipa.Protocol.Exchange.{Outcome, panic, done, exchange, together, unwrap_or}
use raw_ipa.Protocol.Computes.{Computes}
use raw_ipa.Protocol.Basics.ZeroPositions.{
  ZeroPositions, pvvv, pzzv, pzvz, pvzz, pvvz, pvzv, pzvv, Work, flags, work_for, is_pointless,
  check, assert_zero,
}
use raw_ipa.Protocol.Basics.Mul.{
  multiply, multiply_with, nothing_to_send, multiply_all, multiply_all_lem,
}
use raw_ipa.Protocol.Basics.Mul.Sparse.{Conforms, blanked, eq-blanked}
use raw_ipa.Protocol.Basics.Mul.Correct.{multiply_all-Computes}

abbrev no_work : Work
no_work = record { need_to_recv = false; need_to_send = false; need_random_right = false }

-- The work of a helper, in a build without debug assertions.
abbrev duty : ZeroPositions → ZeroPositions → Role → Work
duty za zb r = unwrap_or no_work (work_for false (za, zb) r)

duty_lem :
    (debug : Bool) (za zb : ZeroPositions) (r : Role)
    → (debug && is_pointless za zb) ≡ false
    → work_for debug (za, zb) r ≡ done (duty za zb r)
unfolding work_for is_pointless
duty_lem false pvzz pvzz r h = refl
duty_lem true pvzz pvzz r h = cc
duty_lem true pzvz pzvz r h = cc
duty_lem true pzzv pzzv r h = cc
duty_lem false pvvv pvvv r h = refl
duty_lem false pzzv pvvv r h = refl
duty_lem false pzvz pvvv r h = refl
duty_lem false pvzz pvvv r h = refl
duty_lem false pvvz pvvv r h = refl
duty_lem false pvzv pvvv r h = refl
duty_lem false pzvv pvvv r h = refl
duty_lem true pvvv pvvv r h = refl
duty_lem true pzzv pvvv r h = refl
duty_lem true pzvz pvvv r h = refl
duty_lem true pvzz pvvv r h = refl
duty_lem true pvvz pvvv r h = refl
duty_lem true pvzv pvvv r h = refl
duty_lem true pzvv pvvv r h = refl
duty_lem _ _ _ r h = refl

module _ {ℓ} {A : Type ℓ} ⦃f : Field A⦄ where
  cross : AdditiveShare A → AdditiveShare A → A
  cross a b = a.left ⊗ b.right ⊕ a.right ⊗ b.left

  -- What has to vanish at a helper: the value that it would send, where it does not send.
  abbrev unsent : ZeroPositions → ZeroPositions → Role → Sharing A → Sharing A → A
  unsent za zb r a b = if (duty za zb r).need_to_send then 𝟘 else cross (at a r) (at b r)

abbrev symbolic : Role → ZeroPositions → ZeroPositions → Expr
symbolic r za zb =
    unsent za zb r (blanked za (var 0) (var 1) (var 2)) (blanked zb (var 3) (var 4) (var 5))

module _ {ℓ} {A : Type ℓ} ⦃f : Field A⦄ (r : IsRing A) (a1 a2 a3 b1 b2 b3 : A) where
  abbrev part : Role → ZeroPositions → ZeroPositions → A
  part role za zb = unsent za zb role (blanked za a1 a2 a3) (blanked zb b1 b2 b3)

  abbrev assignment : ℕ → A
  assignment = values (a1 ∷ a2 ∷ a3 ∷ b1 ∷ b2 ∷ b3 ∷ [])

  cancelled :
      (role : Role) (za zb : ZeroPositions)
      → normalise (symbolic role za zb) ≡ []
      → eval assignment (symbolic role za zb) ≡ 𝟘
  cancelled role za zb h = vanishes r assignment (symbolic role za zb) h

  first_part : (za zb : ZeroPositions) → part h1 za zb ≡ 𝟘
  unfolding work_for cross normalise
  first_part pvvv pvvv = cancelled h1 pvvv pvvv refl
  first_part pzzv pvvv = cancelled h1 pzzv pvvv refl
  first_part pzvz pvvv = cancelled h1 pzvz pvvv refl
  first_part pvzz pvvv = cancelled h1 pvzz pvvv refl
  first_part pvvz pvvv = cancelled h1 pvvz pvvv refl
  first_part pvzv pvvv = cancelled h1 pvzv pvvv refl
  first_part pzvv pvvv = cancelled h1 pzvv pvvv refl
  first_part za zb = cancelled h1 za zb refl

  second_part : (za zb : ZeroPositions) → part h2 za zb ≡ 𝟘
  unfolding work_for cross normalise
  second_part pvvv pvvv = cancelled h2 pvvv pvvv refl
  second_part pzzv pvvv = cancelled h2 pzzv pvvv refl
  second_part pzvz pvvv = cancelled h2 pzvz pvvv refl
  second_part pvzz pvvv = cancelled h2 pvzz pvvv refl
  second_part pvvz pvvv = cancelled h2 pvvz pvvv refl
  second_part pvzv pvvv = cancelled h2 pvzv pvvv refl
  second_part pzvv pvvv = cancelled h2 pzvv pvvv refl
  second_part za zb = cancelled h2 za zb refl

  third_part : (za zb : ZeroPositions) → part h3 za zb ≡ 𝟘
  unfolding work_for cross normalise
  third_part pvvv pvvv = cancelled h3 pvvv pvvv refl
  third_part pzzv pvvv = cancelled h3 pzzv pvvv refl
  third_part pzvz pvvv = cancelled h3 pzvz pvvv refl
  third_part pvzz pvvv = cancelled h3 pvzz pvvv refl
  third_part pvvz pvvv = cancelled h3 pvvz pvvv refl
  third_part pvzv pvvv = cancelled h3 pvzv pvvv refl
  third_part pzvv pvvv = cancelled h3 pzvv pvvv refl
  third_part za zb = cancelled h3 za zb refl

  any_part : (role : Role) (za zb : ZeroPositions) → part role za zb ≡ 𝟘
  any_part h1 za zb = first_part za zb
  any_part h2 za zb = second_part za zb
  any_part h3 za zb = third_part za zb

module _ {ℓ} {A : Type ℓ} ⦃f : Field A⦄ (dec : Discrete A) where
  assert_zero-done : (b : Bool) (x : A) → (b ≡ true → x ≡ 𝟘) → assert_zero dec b x ≡ done tt
  unfolding assert_zero
  assert_zero-done true x h = if_pos (dec x 𝟘) (h refl) _ _
  assert_zero-done false x h = refl

  left_zero :
      (z : ZeroPositions) (s : Sharing A) (r : Role)
      → Conforms z s
      → at (flags z) r ≡ true
      → (at s r).left ≡ 𝟘
  left_zero z s h1 c = c.first_zero
  left_zero z s h2 c = c.second_zero
  left_zero z s h3 c = c.third_zero

  right_left :
      (s : Sharing A) (r : Role)
      → IsReplicated s
      → (at s r).right ≡ (at s (peer r Direction.right)).left
  right_left s h1 h = h.first_second
  right_left s h2 h = h.second_third
  right_left s h3 h = h.third_first

  check-done :
      (debug : Bool) (z : ZeroPositions) (s : Sharing A) (r : Role)
      → IsReplicated s
      → Conforms z s
      → check dec debug z r (at s r) ≡ done tt
  unfolding check
  check-done false z s r h c = refl
  check-done true z s r h c = rw (
    assert_zero-done (at (flags z) r) (at s r).left (left_zero z s r c),
    assert_zero-done (at (flags z) (peer r Direction.right)) (at s r).right
        (λ e. right_left s r h ∙ left_zero z s (peer r Direction.right) c e),
  )

  nothing_to_send-done :
      (debug : Bool) (w : Work) (a b : AdditiveShare A)
      → (if w.need_to_send then 𝟘 else cross a b) ≡ 𝟘
      → nothing_to_send dec debug w a b ≡ done tt
  unfolding nothing_to_send cross
  nothing_to_send-done false w a b h = refl
  nothing_to_send-done true w a b h = sending w.need_to_send h
    where
      sending :
          (b' : Bool)
          → (if b' then 𝟘 else a.left ⊗ b.right ⊕ a.right ⊗ b.left) ≡ 𝟘
          → ◌≡◌ {A = Outcome (Unit {0})}
              (if not b'
                then ite (dec (a.left ⊗ b.right ⊕ a.right ⊗ b.left) 𝟘) (done tt) panic
                else done tt)
              (done tt)
      sending true e = refl
      sending false e = if_pos (dec _ 𝟘) e _ _

module _ {ℓ} {A : Type ℓ} ⦃f : Field A⦄ (r : IsRing A) (dec : Discrete A) (debug : Bool)
    (za zb : ZeroPositions) (a b prss : Sharing A) (ca : Conforms za a) (cb : Conforms zb b)
    (ra : IsReplicated a) (rb : IsReplicated b) where
  unsent_zero : (role : Role) → unsent za zb role a b ≡ 𝟘
  unsent_zero role =
      (λ i. unsent za zb role (eq-blanked za a ra ca i) (eq-blanked zb b rb cb i))
      ∙ any_part r a.first.left a.second.left a.third.left b.first.left b.second.left b.third.left
          role za zb

  -- All assertions pass at a helper, and it goes on with its work.
  multiply-done :
      (role : Role)
      → (debug && is_pointless za zb) ≡ false
      → multiply dec debug (za, zb) role (at a role) (at b role) (at prss role)
        ≡ done (multiply_with (duty za zb role) role (at a role) (at b role) (at prss role))
  unfolding multiply
  multiply-done role h = rw (
    duty_lem debug za zb role h,
    check-done dec debug za a role ra ca,
    check-done dec debug zb b role rb cb,
    nothing_to_send-done dec debug (duty za zb role) (at a role) (at b role) (unsent_zero role),
  )

module _ {ℓ} {A : Type ℓ} ⦃f : Field A⦄ (r : IsRing A) where
  -- The inputs are zero where the zero positions say so, and the randomness is correlated. In a
  -- build without debug assertions, and in one with them if the multiplication needs communication,
  -- all three helpers return. They hold a replicated sharing of the product.
  pub multiply-Computes :
      (dec : Discrete A) (debug : Bool) (za zb : ZeroPositions) (a b prss : Sharing A) {v w : A}
      → (debug && is_pointless za zb) ≡ false
      → Conforms za a
      → Conforms zb b
      → Shares a v
      → Shares b w
      → IsReplicated prss
      → Computes (multiply_all dec debug (za, zb) a b prss) (v ⊗ w)
  multiply-Computes dec debug za zb a b prss {v} {w} h ca cb sa sb p =
      subst (λ o. Computes o (v ⊗ w)) same
        (multiply_all-Computes r dec za zb a b prss ca cb sa sb p)
    where
      run :
          (d : Bool)
          → (d && is_pointless za zb) ≡ false
          → tabulate (λ role. multiply dec d (za, zb) role (at a role) (at b role) (at prss role))
            ≡ tabulate (λ role.
              done (multiply_with (duty za zb role) role (at a role) (at b role) (at prss role)))
      run d hd = λ i.
          tabulate (λ role.
            multiply-done r dec d za zb a b prss ca cb sa.replicated sb.replicated role hd i)

      same : multiply_all dec false (za, zb) a b prss ≡ multiply_all dec debug (za, zb) a b prss
      same =
          multiply_all_lem dec false (za, zb) a b prss
          ∙ ap (λ t. together (exchange t)) (run false refl ∙ sym (run debug h))
          ∙ sym (multiply_all_lem dec debug (za, zb) a b prss)
