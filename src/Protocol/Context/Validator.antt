-- ===== src/Protocol/Context/Validator.antt =====
-- src/protocol/context/validator.rs: two message authentication codes, kept by each helper in parts,
-- and their comparison at the end of a computation.
use raw_ipa.Prelude.{Bool, List, [], ◌∷◌, if◌then◌else◌}
use raw_ipa.Algebra.{Field, ◌⊕◌, ◌⊖◌, ◌⊗◌}
use raw_ipa.Helpers.Role.{Three, Role, Direction, at, peer, tabulate, zip_three}
use raw_ipa.SecretSharing.Replicated.{AdditiveShare, new, sub, mul}
use raw_ipa.SecretSharing.Malicious.{MaliciousShare, x_of}
use raw_ipa.SecretSharing.Sharing.{Sharing}
use raw_ipa.Protocol.Exchange.{
  malicious_security_check_failed, Outcome, done, err, Exchange, only, receive, exchange, together,
  ◌>>=◌,
}
use raw_ipa.Protocol.Basics.Reveal.{reveal_all}
use raw_ipa.Protocol.Basics.CheckZero.{check_zero}

-- `AccumulatorState`, one helper's parts of the two codes.
pub record AccumulatorState {ℓ} (E : Type ℓ) : Type ℓ where
  pub u : E
  pub w : E

module _ {ℓ} {E : Type ℓ} ⦃g : Field E⦄ where
  -- `compute_dot_product_contribution`.
  unfoldable pub contribution : AdditiveShare E → AdditiveShare E → E
  contribution a b = (a.left ⊕ a.right) ⊗ (b.left ⊕ b.right) ⊖ a.right ⊗ b.right

  -- `Malicious::new`: a helper starts from two shares of zero, `prss.zero`.
  unfoldable pub initial : AdditiveShare E → AdditiveShare E → AccumulatorState E
  initial prss_u prss_w = record { u = prss_u.left ⊖ prss_u.right; w = prss_w.left ⊖ prss_w.right }

  -- `propagate_u_and_w`: each helper passes its parts to the right. The two values of a message are
  -- the two records that are sent.
  unfoldable pub propagate_u_and_w :
      Role → AccumulatorState E → Exchange (E × E) (AdditiveShare E × AdditiveShare E)
  propagate_u_and_w role state = record {
    sent = only (peer role Direction.right) (state.u, state.w);
    resume = λ inbox. do
      left ← receive (inbox (peer role Direction.left))
      done (new left.0 state.u, new left.1 state.w);
  }

  unfoldable pub propagate_all :
      Three (AccumulatorState E) → Outcome (Three (AdditiveShare E × AdditiveShare E))
  unfolding propagate_u_and_w
  propagate_all states =
      together (exchange (tabulate (λ r. done (propagate_u_and_w r (at states r)))))

  -- `t`, at each helper, from its own copy of the revealed value.
  abbrev pub difference : Three (AdditiveShare E × AdditiveShare E) → Three E → Sharing E
  difference codes r = zip_three (λ c y. sub c.0 (mul c.1 y)) codes r

module _ {ℓ} {A E : Type ℓ} ⦃f : Field A⦄ ⦃g : Field E⦄ (to_extended : A → E) where
  -- `accumulate_macs`, with the share `random_constant` that the helper draws.
  unfoldable pub accumulate_macs :
      AdditiveShare E → MaliciousShare A E → AccumulatorState E → AccumulatorState E
  unfolding contribution
  accumulate_macs random_constant input state =
      let induced_share = new (to_extended input.x.left) (to_extended input.x.right) in
      let u_contribution = contribution random_constant input.rx in
      let w_contribution = contribution random_constant induced_share in
      record { u = state.u ⊕ u_contribution; w = state.w ⊕ w_contribution }

  -- The three helpers accumulate the values of a computation, one by one.
  abbrev pub Inputs : Type ℓ
  Inputs = List (Sharing E × Three (MaliciousShare A E))

  unfoldable pub accumulate_all : Inputs → Three (AccumulatorState E) → Three (AccumulatorState E)
  accumulate_all [] states = states
  accumulate_all ((alpha, input) ∷ rest) states =
      accumulate_all rest (tabulate (λ r. accumulate_macs (at alpha r) (at input r) (at states r)))

  -- `validate` at the three helpers: `check_r` and `check_prss` are the randomness of `check_zero`.
  -- Each helper downgrades its values or ends with the error.
  unfoldable pub validate :
      Discrete E
      → Bool
      → Sharing E
      → Sharing E
      → Sharing E
      → Three (AccumulatorState E)
      → Three (MaliciousShare A E)
      → Outcome (Sharing A)
  validate dec debug r_share check_r check_prss states values = do
    codes ← propagate_all states
    r ← reveal_all r_share
    is_valid ← check_zero dec debug check_r check_prss (difference codes r)
    together (
        zip_three (λ valid v. if valid then done v else err malicious_security_check_failed)
          is_valid (x_of values))
