-- ===== src/Protocol/Context/Macs.antt =====
-- src/protocol/context/validator.rs: the codes as sums over the inputs of a computation.
use raw_ipa.Prelude.{◌≡◌, refl, sym, ap, ◌∙◌, Bool, true, false, List, [], ◌∷◌, if◌then◌else◌}
use raw_ipa.Algebra.{Field, IsRing, 𝟘, ◌⊕◌, ◌⊖◌, ◌⊗◌}
use raw_ipa.Algebra.Solver.{Expr_field, var, solve, values, normalise}
use raw_ipa.Helpers.Role.{Three, tabulate, at, map_three, zip_three}
use raw_ipa.SecretSharing.Replicated.{AdditiveShare, new, mul}
use raw_ipa.SecretSharing.Malicious.{MaliciousShare, x_of, rx_of, IsExtension}
use raw_ipa.SecretSharing.Sharing.{
  Sharing, of_parts, of_parts-IsReplicated, IsReplicated, eq-of_parts, value, Shares, sub-Shares,
  mul-Shares,
}
use raw_ipa.Protocol.Exchange.{malicious_security_check_failed, Outcome, done, err, together}
use raw_ipa.Protocol.Basics.Reveal.{reveal_all_lem}
use raw_ipa.Protocol.Basics.CheckZero.{check_zero_lem, all_say, is_zero}
use raw_ipa.Protocol.Context.Validator.{
  AccumulatorState, contribution, initial, propagate_all, accumulate_macs, accumulate_all,
  difference, Inputs, validate,
}

module _ {ℓ} {E : Type ℓ} ⦃g : Field E⦄ where
  -- The codes, put together from the helpers' parts.
  abbrev pub total_u : Three (AccumulatorState E) → E
  total_u s = s.first.u ⊕ s.second.u ⊕ s.third.u

  abbrev pub total_w : Three (AccumulatorState E) → E
  total_w s = s.first.w ⊕ s.second.w ⊕ s.third.w

module _ {ℓ} {E : Type ℓ} ⦃g : Field E⦄ (re : IsRing E) where
  contributions_of_parts :
      (x y z a1 a2 a3 b1 b2 b3 : E)
      → (x ⊕ contribution (new a1 a2) (new b1 b2))
          ⊕ (y ⊕ contribution (new a2 a3) (new b2 b3))
          ⊕ (z ⊕ contribution (new a3 a1) (new b3 b1))
        ≡ (x ⊕ y ⊕ z) ⊕ (a1 ⊕ a2 ⊕ a3) ⊗ (b1 ⊕ b2 ⊕ b3)
  unfolding contribution normalise
  contributions_of_parts x y z a1 a2 a3 b1 b2 b3 =
      solve re (values (a1 ∷ a2 ∷ a3 ∷ b1 ∷ b2 ∷ b3 ∷ x ∷ y ∷ z ∷ []))
        ((var 6 ⊕ contribution (new (var 0) (var 1)) (new (var 3) (var 4)))
          ⊕ (var 7 ⊕ contribution (new (var 1) (var 2)) (new (var 4) (var 5)))
          ⊕ (var 8 ⊕ contribution (new (var 2) (var 0)) (new (var 5) (var 3))))
        ((var 6 ⊕ var 7 ⊕ var 8) ⊕ (var 0 ⊕ var 1 ⊕ var 2) ⊗ (var 3 ⊕ var 4 ⊕ var 5)) refl

  -- The local contributions of the three helpers add up to the product of the shared values.
  contributions :
      (x y z : E) (a b : Sharing E) {v w : E}
      → Shares a v
      → Shares b w
      → (x ⊕ contribution a.first b.first)
          ⊕ (y ⊕ contribution a.second b.second)
          ⊕ (z ⊕ contribution a.third b.third)
        ≡ (x ⊕ y ⊕ z) ⊕ v ⊗ w
  contributions x y z a b ha hb =
      (λ i.
        let a' = eq-of_parts a ha.replicated i in
        let b' = eq-of_parts b hb.replicated i in
        (x ⊕ contribution a'.first b'.first)
        ⊕ (y ⊕ contribution a'.second b'.second)
        ⊕ (z ⊕ contribution a'.third b'.third))
      ∙ contributions_of_parts x y z a.first.left a.second.left a.third.left b.first.left
          b.second.left b.third.left
      ∙ λ i. (x ⊕ y ⊕ z) ⊕ ha.shared i ⊗ hb.shared i

  -- A computation starts from codes that are zero.
  pub initial_zero :
      (p q : Sharing E)
      → IsReplicated p
      → IsReplicated q
      → (total_u (tabulate (λ r. initial (at p r) (at q r))) ≡ 𝟘)
        × (total_w (tabulate (λ r. initial (at p r) (at q r))) ≡ 𝟘)
  unfolding initial normalise
  initial_zero p q hp hq = (zero_sum p hp, zero_sum q hq)
    where
      zero_sum :
          (s : Sharing E)
          → IsReplicated s
          → (s.first.left ⊖ s.first.right)
              ⊕ (s.second.left ⊖ s.second.right)
              ⊕ (s.third.left ⊖ s.third.right)
            ≡ 𝟘
      zero_sum s h =
          (λ i.
            (s.first.left ⊖ h.first_second i)
            ⊕ (s.second.left ⊖ h.second_third i)
            ⊕ (s.third.left ⊖ h.third_first i))
          ∙ solve re (values (s.first.left ∷ s.second.left ∷ s.third.left ∷ []))
              ((var 0 ⊖ var 1) ⊕ (var 1 ⊖ var 2) ⊕ (var 2 ⊖ var 0)) 𝟘 refl

-- What went into the codes: the random constant and the two values of each input.
pub record Logged {ℓ} (A E : Type ℓ) : Type ℓ where
  pub alpha : E
  pub x : A
  pub rx : E

module _ {ℓ} {A E : Type ℓ} ⦃f : Field A⦄ ⦃g : Field E⦄ (to_extended : A → E) where
  -- The inputs are sharings of the logged values. Nothing relates the two values of an input: one
  -- may be off, as it is after an additive attack.
  pub data Logs : Inputs to_extended → List (Logged A E) → Type ℓ where
    none : Logs [] []
    more :
        {alpha : Sharing E} {input : Three (MaliciousShare A E)} {l : Logged A E}
        {rest : Inputs to_extended} {ls : List (Logged A E)}
        → Shares alpha l.alpha
        → Shares (x_of input) l.x
        → Shares (rx_of input) l.rx
        → Logs rest ls
        → Logs ((alpha, input) ∷ rest) (l ∷ ls)

  -- The two codes as the comment of the source defines them.
  unfoldable pub code_u : List (Logged A E) → E → E
  code_u [] acc = acc
  code_u (l ∷ ls) acc = code_u ls (acc ⊕ l.alpha ⊗ l.rx)

  unfoldable pub code_w : List (Logged A E) → E → E
  code_w [] acc = acc
  code_w (l ∷ ls) acc = code_w ls (acc ⊕ l.alpha ⊗ to_extended l.x)

module _ {ℓ} {A E : Type ℓ} ⦃f : Field A⦄ ⦃g : Field E⦄ (re : IsRing E) {to_extended : A → E}
    (ext : IsExtension to_extended) where
  unfoldable pub induced : Sharing A → Sharing E
  induced s = map_three (λ t. new (to_extended t.left) (to_extended t.right)) s

  pub induced-Shares : (s : Sharing A) {v : A} → Shares s v → Shares (induced s) (to_extended v)
  unfolding induced
  induced-Shares s h = record {
    replicated = record {
      first_second = λ i. to_extended (h.replicated.first_second i);
      second_third = λ i. to_extended (h.replicated.second_third i);
      third_first = λ i. to_extended (h.replicated.third_first i);
    };
    shared =
        sym (
          ext.extend_add (s.first.left ⊕ s.second.left) s.third.left
          ∙ ap (λ y. y ⊕ to_extended s.third.left) (ext.extend_add s.first.left s.second.left))
        ∙ ap to_extended h.shared;
  }

  -- After any computation the helpers' parts add up to the two codes.
  pub codes_accumulated :
      (inputs : Inputs to_extended) (ls : List (Logged A E)) (states : Three (AccumulatorState E))
      → Logs to_extended inputs ls
      → (total_u (accumulate_all to_extended inputs states)
          ≡ code_u to_extended ls (total_u states))
        × (total_w (accumulate_all to_extended inputs states)
            ≡ code_w to_extended ls (total_w states))
  unfolding accumulate_all accumulate_macs code_u code_w induced
  codes_accumulated inputs ls states none = (refl, refl)
  codes_accumulated inputs ls states (more {alpha} {input} {l} {rest} {ls = ls'} ha hx hr h) =
      let next =
        codes_accumulated rest ls'
          (tabulate (λ r. accumulate_macs to_extended (at alpha r) (at input r) (at states r))) h in
      (
        next.0
            ∙ ap (code_u to_extended ls') (
                contributions re states.first.u states.second.u states.third.u alpha (rx_of input)
                  ha hr),
        next.1
            ∙ ap (code_w to_extended ls') (
                contributions re states.first.w states.second.w states.third.w alpha
                  (induced (x_of input)) ha (induced-Shares (x_of input) hx)),
      )

-- The helpers' values, or the error.
abbrev pub answer {ℓ} : {A E : Type ℓ} → Bool → Three (MaliciousShare A E) → Outcome (Sharing A)
answer b vals = if b then done (x_of vals) else err malicious_security_check_failed

module _ {ℓ} {A E : Type ℓ} ⦃f : Field A⦄ ⦃g : Field E⦄ (re : IsRing E) (to_extended : A → E)
    (dec : Discrete E) (debug : Bool) (r_share check_r check_prss : Sharing E)
    (hr : IsReplicated r_share) (hc : IsReplicated check_r) (hp : IsReplicated check_prss) where
  -- The parts of a code, after each helper has passed its own to the right.
  passed : E → E → E → Sharing E
  passed c1 c2 c3 = of_parts c3 c1 c2

  passed-Shares : (c1 c2 c3 : E) → Shares (passed c1 c2 c3) (c1 ⊕ c2 ⊕ c3)
  unfolding passed normalise
  passed-Shares c1 c2 c3 = record {
    replicated = of_parts-IsReplicated c3 c1 c2;
    shared =
        solve re (values (c1 ∷ c2 ∷ c3 ∷ [])) (var 2 ⊕ var 0 ⊕ var 1) (var 0 ⊕ var 1 ⊕ var 2) refl;
  }

  abbrev passed_all : Three (AccumulatorState E) → Three (AdditiveShare E × AdditiveShare E)
  passed_all s =
      zip_three (λ a b. (a, b)) (passed s.first.u s.second.u s.third.u)
        (passed s.first.w s.second.w s.third.w)

  propagate_all_lem : (s : Three (AccumulatorState E)) → propagate_all s ≡ done (passed_all s)
  unfolding propagate_all passed
  propagate_all_lem s = refl

  -- What the helpers compare with zero.
  abbrev gap : Three (AccumulatorState E) → E
  gap s = total_u s ⊖ total_w s ⊗ value r_share

  difference-Shares :
      (s : Three (AccumulatorState E))
      → Shares (difference (passed_all s) (all_say (value r_share))) (gap s)
  difference-Shares s =
      sub-Shares re us (map_three (λ t. mul t (value r_share)) ws) (passed-Shares _ _ _)
        (mul-Shares re ws (value r_share) (passed-Shares _ _ _))
    where
      us : Sharing E
      us = passed s.first.u s.second.u s.third.u

      ws : Sharing E
      ws = passed s.first.w s.second.w s.third.w

  answered :
      (b : Bool) (vals : Three (MaliciousShare A E))
      → together (
          zip_three
            (λ valid v. if valid then done v else err malicious_security_check_failed)
            (all_say b)
            (x_of vals))
        ≡ answer b vals
  answered true vals = refl
  answered false vals = refl

  -- The helpers accept a computation exactly if a random multiple of `u - r * w` is zero, for the
  -- codes `u` and `w` that their parts add up to. All three then return their values, and all three
  -- end with the error otherwise.
  pub validate_lem :
      (states : Three (AccumulatorState E)) (vals : Three (MaliciousShare A E))
      → validate to_extended dec debug r_share check_r check_prss states vals
        ≡ answer (is_zero dec (value check_r ⊗ gap states)) vals
  unfolding validate
  validate_lem states vals =
      rw
        (
          propagate_all_lem states,
          reveal_all_lem re r_share (record { replicated = hr; shared = refl }),
          check_zero_lem re dec debug check_r check_prss
              (difference (passed_all states) (all_say (value r_share))) hc hp
              (difference-Shares states),
        )
        (answered (is_zero dec (value check_r ⊗ gap states)) vals)
