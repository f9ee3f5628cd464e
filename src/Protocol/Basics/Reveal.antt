-- ===== src/Protocol/Basics/Reveal.antt =====
-- src/protocol/basics/reveal.rs: opening a shared value to the three helpers.
use raw_ipa.Prelude.{◌≡◌, refl, sym, ◌∙◌, ◌⊎◌, inl, inr, Option, none, some, [], ◌∷◌}
use mathlib.Core.Logic.{ite, if_pos, if_neg}
use raw_ipa.Algebra.{Field, IsRing, ◌⊕◌}
use raw_ipa.Algebra.Solver.{Expr_field, var, solve, values, normalise}
use raw_ipa.Helpers.Role.{Three, Role, h1, h2, h3, Direction, at, peer, tabulate}
use raw_ipa.SecretSharing.Replicated.{AdditiveShare}
use raw_ipa.SecretSharing.Sharing.{Sharing, IsReplicated, Shares}
use raw_ipa.Protocol.Exchange.{
  malicious_reveal_failed, Outcome, done, err, Exchange, only, receive, exchange, together, ◌>>=◌,
}

module _ {ℓ} {A : Type ℓ} ⦃f : Field A⦄ where
  -- The semi-honest reveal: the left part goes to the helper on the right.
  unfoldable pub reveal : Role → AdditiveShare A → Exchange A A
  reveal role s = record {
    sent = only (peer role Direction.right) s.left;
    resume = λ inbox. do
      share ← receive (inbox (peer role Direction.left))
      done (s.left ⊕ s.right ⊕ share);
  }

  unfoldable pub reveal_all : Sharing A → Outcome (Three A)
  unfolding reveal
  reveal_all s = together (exchange (tabulate (λ r. done (reveal r (at s r)))))

  -- What a helper sends in the malicious reveal: each part to the helper that lacks it.
  abbrev pub reveal_to : Role → AdditiveShare A → Role → Option A
  reveal_to role s to = towards (only (peer role Direction.left) s.right to)
    where
      towards : Option A → Option A
      towards (some m) = some m
      towards none = only (peer role Direction.right) s.left to

  -- The malicious reveal: what arrives from the two sides has to match.
  unfoldable pub reveal_malicious : Discrete A → Role → AdditiveShare A → Exchange A A
  reveal_malicious dec role s = record {
    sent = reveal_to role s;
    resume = λ inbox. do
      share_from_left ← receive (inbox (peer role Direction.left))
      share_from_right ← receive (inbox (peer role Direction.right))
      ite (dec share_from_left share_from_right) (done (s.left ⊕ s.right ⊕ share_from_left))
          (err malicious_reveal_failed);
  }

  unfoldable pub reveal_malicious_all : Discrete A → Sharing A → Outcome (Three A)
  unfolding reveal_malicious
  reveal_malicious_all dec s =
      together (exchange (tabulate (λ r. done (reveal_malicious dec r (at s r)))))

  -- The part that a helper lacks.
  abbrev pub missing : Sharing A → Role → A
  missing s role = (at s (peer role Direction.left)).left

module _ {ℓ} {A : Type ℓ} ⦃f : Field A⦄ (r : IsRing A) where
  opened :
      (s : Sharing A) {v : A}
      → Shares s v
      → (role : Role) → (at s role).left ⊕ (at s role).right ⊕ missing s role ≡ v
  unfolding normalise
  opened s h h1 = (λ i. s.first.left ⊕ h.replicated.first_second i ⊕ s.third.left) ∙ h.shared
  opened s h h2 =
      (λ i. s.second.left ⊕ h.replicated.second_third i ⊕ s.first.left)
      ∙ solve r (values (s.first.left ∷ s.second.left ∷ s.third.left ∷ [])) (var 1 ⊕ var 2 ⊕ var 0)
          (var 0 ⊕ var 1 ⊕ var 2) refl
      ∙ h.shared
  opened s h h3 =
      (λ i. s.third.left ⊕ h.replicated.third_first i ⊕ s.second.left)
      ∙ solve r (values (s.first.left ∷ s.second.left ∷ s.third.left ∷ [])) (var 2 ⊕ var 0 ⊕ var 1)
          (var 0 ⊕ var 1 ⊕ var 2) refl
      ∙ h.shared

  -- When all helpers follow the protocol, the semi-honest reveal returns the shared value to each.
  pub reveal_all_lem :
      (s : Sharing A) {v : A}
      → Shares s v
      → reveal_all s ≡ done (record { first = v; second = v; third = v })
  unfolding reveal_all
  reveal_all_lem s {v} h = λ i.
      done (record { first = opened s h h1 i; second = opened s h h2 i; third = opened s h h3 i })

  -- Both neighbours hold the part that a helper lacks.
  neighbours_agree :
      (s : Sharing A)
      → IsReplicated s
      → (role : Role) → (at s (peer role Direction.right)).right ≡ missing s role
  neighbours_agree s h h1 = h.second_third
  neighbours_agree s h h2 = h.third_first
  neighbours_agree s h h3 = h.first_second

  -- When all helpers follow the protocol, the comparisons of the malicious reveal succeed, and it
  -- returns the shared value to each.
  pub reveal_malicious_all_lem :
      (dec : Discrete A) (s : Sharing A) {v : A}
      → Shares s v
      → reveal_malicious_all dec s ≡ done (record { first = v; second = v; third = v })
  unfolding reveal_malicious_all
  reveal_malicious_all_lem dec s {v} h =
      rw
        (
          if_pos (dec s.third.left s.second.right) (sym (neighbours_agree s h.replicated h1)),
          if_pos (dec s.first.left s.third.right) (sym (neighbours_agree s h.replicated h2)),
          if_pos (dec s.second.left s.first.right) (sym (neighbours_agree s h.replicated h3)),
        )
        (λ i.
          done
            (record { first = opened s h h1 i; second = opened s h h2 i; third = opened s h h3 i }))

  sent_from_right :
      (s : Sharing A)
      → IsReplicated s
      → (role : Role)
      → reveal_to (peer role Direction.right) (at s (peer role Direction.right)) role
        ≡ some (missing s role)
  sent_from_right s h h1 = λ i. some (h.second_third i)
  sent_from_right s h h2 = λ i. some (h.third_first i)
  sent_from_right s h h3 = λ i. some (h.first_second i)

  sent_from_left :
      (s : Sharing A) (role : Role)
      → reveal_to (peer role Direction.left) (at s (peer role Direction.left)) role
        ≡ some (missing s role)
  sent_from_left s h1 = refl
  sent_from_left s h2 = refl
  sent_from_left s h3 = refl

  -- What the comparison makes of two values, one of them the right one.
  verdict :
      (dec : Discrete A) (s : Sharing A) {v : A} (role : Role) (l m : A)
      → Shares s v
      → (l ≡ missing s role) ⊎ (m ≡ missing s role)
      → (ite
            (dec l m)
            (done ((at s role).left ⊕ (at s role).right ⊕ l))
            (err malicious_reveal_failed)
          ≡ done v)
        ⊎ (ite
              (dec l m)
              (done ((at s role).left ⊕ (at s role).right ⊕ l))
              (err malicious_reveal_failed)
            ≡ err malicious_reveal_failed)
  verdict dec s role l m h k = elim (dec l m) [
    | yes p ↦ inl (
        if_pos (dec l m) p _ _ ∙ λ i.
        done (((λ j. (at s role).left ⊕ (at s role).right ⊕ right_part p k j) ∙ opened s h role) i))
    | no p ↦ inr (if_neg (dec l m) p _ _)
  ]
    where
      right_part : l ≡ m → (l ≡ missing s role) ⊎ (m ≡ missing s role) → l ≡ missing s role
      right_part p (inl e) = e
      right_part p (inr e) = p ∙ e

  -- One cheating neighbour cannot make a helper accept a wrong value in the malicious reveal.
  -- Whatever `m` arrives from one side, if the other neighbour sends its part, the helper ends with
  -- the shared value or with the error.
  pub reveal_malicious_safe :
      (dec : Discrete A) (role : Role) (s : Sharing A) {v : A} (m : A) (inbox : Role → Option A)
      → Shares s v
      → ((inbox (peer role Direction.left) ≡ some m)
          × (inbox (peer role Direction.right)
              ≡ reveal_to (peer role Direction.right) (at s (peer role Direction.right)) role))
        ⊎ ((inbox (peer role Direction.right) ≡ some m)
            × (inbox (peer role Direction.left)
                ≡ reveal_to (peer role Direction.left) (at s (peer role Direction.left)) role))
      → ((reveal_malicious dec role (at s role)).resume inbox ≡ done v)
        ⊎ ((reveal_malicious dec role (at s role)).resume inbox ≡ err malicious_reveal_failed)
  unfolding reveal_malicious
  reveal_malicious_safe dec role s {v} m inbox h (inl (el, er)) =
      rw (el, er, sent_from_right s h.replicated role)
        (verdict dec s role m (missing s role) h (inr refl))
  reveal_malicious_safe dec role s {v} m inbox h (inr (er, el)) =
      rw (er, el, sent_from_left s role) (verdict dec s role (missing s role) m h (inl refl))
