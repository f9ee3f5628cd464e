-- ===== src/Protocol/Context/Deviation.antt =====
-- src/protocol/context/validator.rs: what a validated computation may have gone through.
use raw_ipa.Prelude.{◌≡◌, refl, sym, ap, ◌∙◌, Bool, true, false, List, [], ◌∷◌}
use mathlib.Core.Logic.{if_pos}
use raw_ipa.Algebra.{Field, IsRing, 𝟘, ◌⊕◌, ◌⊖◌, ◌⊗◌}
use raw_ipa.Algebra.Laws.{mul-zero}
use raw_ipa.Algebra.Solver.{Expr_field, var, solve, values, normalise}
use raw_ipa.Helpers.Role.{Three, tabulate, at}
use raw_ipa.SecretSharing.Malicious.{MaliciousShare, x_of, IsExtension}
use raw_ipa.SecretSharing.Sharing.{Sharing, IsReplicated, value}
use raw_ipa.Protocol.Exchange.{done}
use raw_ipa.Protocol.Basics.CheckZero.{is_zero}
use raw_ipa.Protocol.Context.Validator.{AccumulatorState, initial, accumulate_all, Inputs, validate}
use raw_ipa.Protocol.Context.Macs.{
  Logged, Logs, code_u, code_w, total_u, total_w, initial_zero, codes_accumulated, answer,
  validate_lem,
}

module _ {ℓ} {A E : Type ℓ} ⦃f : Field A⦄ ⦃g : Field E⦄ (to_extended : A → E) (r : E) where
  -- How far the second values are from `r` times the first, weighted by the random constants.
  pub deviation : List (Logged A E) → E
  deviation [] = 𝟘
  deviation (l ∷ ls) = l.alpha ⊗ (l.rx ⊖ to_extended l.x ⊗ r) ⊕ deviation ls

  -- No input is off.
  pub data Honest : List (Logged A E) → Type ℓ where
    none : Honest []
    more :
        {l : Logged A E} {ls : List (Logged A E)}
        → l.rx ≡ to_extended l.x ⊗ r
        → Honest ls
        → Honest (l ∷ ls)

module _ {ℓ} {A E : Type ℓ} ⦃f : Field A⦄ ⦃g : Field E⦄ (re : IsRing E) (to_extended : A → E)
    (r : E) where
  code_gap :
      (ls : List (Logged A E)) (u w : E)
      → code_u to_extended ls u ⊖ code_w to_extended ls w ⊗ r
        ≡ (u ⊖ w ⊗ r) ⊕ deviation to_extended r ls
  unfolding code_u code_w deviation normalise
  code_gap [] u w = sym (re.add_zero _)
  code_gap (l ∷ ls) u w =
      code_gap ls (u ⊕ l.alpha ⊗ l.rx) (w ⊕ l.alpha ⊗ to_extended l.x)
      ∙ solve re
          (values (u ∷ w ∷ r ∷ l.alpha ∷ l.rx ∷ to_extended l.x ∷ deviation to_extended r ls ∷ []))
          (((var 0 ⊕ var 3 ⊗ var 4) ⊖ (var 1 ⊕ var 3 ⊗ var 5) ⊗ var 2) ⊕ var 6)
          ((var 0 ⊖ var 1 ⊗ var 2) ⊕ (var 3 ⊗ (var 4 ⊖ var 5 ⊗ var 2) ⊕ var 6)) refl

  deviation-Honest :
      (ls : List (Logged A E)) → Honest to_extended r ls → deviation to_extended r ls ≡ 𝟘
  unfolding deviation normalise
  deviation-Honest ls none = refl
  deviation-Honest ls (more {l} {ls = ls'} e h) =
      (λ i. l.alpha ⊗ (e i ⊖ to_extended l.x ⊗ r) ⊕ deviation-Honest ls' h i)
      ∙ solve re (values (l.alpha ∷ to_extended l.x ∷ r ∷ []))
          (var 0 ⊗ (var 1 ⊗ var 2 ⊖ var 1 ⊗ var 2) ⊕ 𝟘) 𝟘 refl

module _ {ℓ} {A E : Type ℓ} ⦃f : Field A⦄ ⦃g : Field E⦄ (to_extended : A → E)
    (p q : Sharing E) where
  -- The parts of the codes after a whole computation, from the initial ones, with the randomness `p`
  -- and `q`.
  abbrev pub finished : Inputs to_extended → Three (AccumulatorState E)
  finished inputs =
      accumulate_all to_extended inputs (tabulate (λ role. initial (at p role) (at q role)))

module _ {ℓ} {A E : Type ℓ} ⦃f : Field A⦄ ⦃g : Field E⦄ (re : IsRing E) {to_extended : A → E}
    (ext : IsExtension to_extended) (dec : Discrete E) (debug : Bool)
    (p q r_share check_r check_prss : Sharing E) (h0 : IsReplicated p) (h1 : IsReplicated q)
    (hr : IsReplicated r_share) (hc : IsReplicated check_r) (hp : IsReplicated check_prss) where
  -- A computation with any inputs, honest or tampered with, starts from the initial codes, and all
  -- randomness is shared consistently. It is accepted exactly if the random value of `check_zero`
  -- times the deviation is zero. Otherwise every helper ends with the error.
  pub validate-deviation :
      (inputs : Inputs to_extended) (ls : List (Logged A E)) (vals : Three (MaliciousShare A E))
      → Logs to_extended inputs ls
      → validate to_extended dec debug r_share check_r check_prss
          (finished to_extended p q inputs)
          vals
        ≡ answer (is_zero dec (value check_r ⊗ deviation to_extended (value r_share) ls)) vals
  unfolding normalise
  validate-deviation inputs ls vals logs =
      validate_lem re to_extended dec debug r_share check_r check_prss hr hc hp
        (finished to_extended p q inputs) vals
      ∙ ap (λ y. answer (is_zero dec (value check_r ⊗ y)) vals) gap
    where
      rr : E
      rr = value r_share

      start : Three (AccumulatorState E)
      start = tabulate (λ role. initial (at p role) (at q role))

      gap :
          total_u (finished to_extended p q inputs) ⊖ total_w (finished to_extended p q inputs) ⊗ rr
          ≡ deviation to_extended rr ls
      gap =
          (λ i.
            (codes_accumulated re ext inputs ls start logs).0 i
            ⊖ (codes_accumulated re ext inputs ls start logs).1 i ⊗ rr)
          ∙ code_gap re to_extended rr ls (total_u start) (total_w start)
          ∙ (λ i.
              ((initial_zero re p q h0 h1).0 i ⊖ (initial_zero re p q h0 h1).1 i ⊗ rr)
              ⊕ deviation to_extended rr ls)
          ∙ solve re (values (rr ∷ deviation to_extended rr ls ∷ [])) ((𝟘 ⊖ 𝟘 ⊗ var 0) ⊕ var 1)
              (var 1) refl

  -- A computation that starts from the initial codes, with consistent randomness, and in which
  -- every second value is `r` times the first is accepted, whatever the random values are: the
  -- helpers get their shares of the result.
  pub validate-Honest :
      (inputs : Inputs to_extended) (ls : List (Logged A E)) (vals : Three (MaliciousShare A E))
      → Logs to_extended inputs ls
      → Honest to_extended (value r_share) ls
      → validate to_extended dec debug r_share check_r check_prss
          (finished to_extended p q inputs)
          vals
        ≡ done (x_of vals)
  validate-Honest inputs ls vals logs honest =
      validate-deviation inputs ls vals logs
      ∙ ap (λ b. answer b vals)
          (if_pos (dec (value check_r ⊗ deviation to_extended (value r_share) ls) 𝟘)
            (ap (λ y. value check_r ⊗ y) (deviation-Honest re to_extended (value r_share) ls honest)
              ∙ mul-zero re (value check_r))
            true false)
