-- ===== src/Protocol/Basics/Reshare.antt =====
-- src/protocol/basics/reshare.rs: new shares for an old value.
use raw_ipa.Prelude.{◌≡◌, refl, sym, ◌∙◌, [], ◌∷◌, subst}
use mathlib.Core.Logic.{ite}
use raw_ipa.Algebra.{Field, IsRing, ◌⊕◌, ◌⊖◌}
use raw_ipa.Algebra.Solver.{Expr_field, var, solve, values, normalise}
use raw_ipa.Helpers.Role.{Role, h1, h2, h3, Direction, at, peer, tabulate, Role-discrete}
use raw_ipa.SecretSharing.Replicated.{AdditiveShare, new}
use raw_ipa.SecretSharing.Sharing.{
  Sharing, of_parts, of_parts-IsReplicated, IsReplicated, eq-of_parts, value, Shares,
}
use raw_ipa.Protocol.Exchange.{
  Outcome, done, Exchange, only, nothing, receive, exchange, together, ◌>>=◌,
}

module _ {ℓ} {A : Type ℓ} ⦃f : Field A⦄ where
  -- `reshare` at the helper `role`; the shared randomness is `r`, with `r.0` on the left.
  unfoldable pub reshare :
      Role → Role → AdditiveShare A → AdditiveShare A → Exchange A (AdditiveShare A)
  unfolding Role-discrete
  reshare to_helper role s r =
      let to_left = peer to_helper Direction.left in
      let to_right = peer to_helper Direction.right in
      ite (Role-discrete role to_left)
        (let part1 = s.left ⊕ s.right ⊖ r.right in
          record {
            sent = only to_right part1;
            resume = λ inbox. do
              part2 ← receive (inbox to_right)
              done (new (part1 ⊕ part2) r.right);
          })
        (ite (Role-discrete role to_right)
          (let part2 = s.left ⊖ r.left in
            record {
              sent = only to_left part2;
              resume = λ inbox. do
                part1 ← receive (inbox to_left)
                done (new r.left (part1 ⊕ part2));
            })
          (record { sent = nothing; resume = λ inbox. done (new r.left r.right) }))

  unfoldable pub reshare_all : Role → Sharing A → Sharing A → Outcome (Sharing A)
  unfolding reshare
  reshare_all to_helper prss s =
      together (exchange (tabulate (λ r. done (reshare to_helper r (at s r) (at prss r)))))

  -- The part that the helpers beside `to_helper` compute together.
  abbrev renewed : Role → A → A → A → A → A → A → Sharing A
  renewed h1 x1 x2 x3 p1 p2 p3 = of_parts p1 p2 (x3 ⊕ x1 ⊖ p1 ⊕ (x2 ⊖ p2))
  renewed h2 x1 x2 x3 p1 p2 p3 = of_parts (x1 ⊕ x2 ⊖ p2 ⊕ (x3 ⊖ p3)) p2 p3
  renewed h3 x1 x2 x3 p1 p2 p3 = of_parts p1 (x2 ⊕ x3 ⊖ p3 ⊕ (x1 ⊖ p1)) p3

  renewed_lem :
      (to : Role) (x1 x2 x3 p1 p2 p3 : A)
      → reshare_all to (of_parts p1 p2 p3) (of_parts x1 x2 x3) ≡ done (renewed to x1 x2 x3 p1 p2 p3)
  unfolding reshare_all
  renewed_lem h1 x1 x2 x3 p1 p2 p3 = refl
  renewed_lem h2 x1 x2 x3 p1 p2 p3 = refl
  renewed_lem h3 x1 x2 x3 p1 p2 p3 = refl

module _ {ℓ} {A : Type ℓ} ⦃f : Field A⦄ (r : IsRing A) where
  renewed-Shares :
      (to : Role) (x1 x2 x3 p1 p2 p3 : A) → Shares (renewed to x1 x2 x3 p1 p2 p3) (x1 ⊕ x2 ⊕ x3)
  unfolding normalise
  renewed-Shares h1 x1 x2 x3 p1 p2 p3 = record {
    replicated = of_parts-IsReplicated _ _ _;
    shared =
        solve r (values (x1 ∷ x2 ∷ x3 ∷ p1 ∷ p2 ∷ p3 ∷ []))
          (value (renewed h1 (var 0) (var 1) (var 2) (var 3) (var 4) (var 5)))
          (var 0 ⊕ var 1 ⊕ var 2) refl;
  }
  renewed-Shares h2 x1 x2 x3 p1 p2 p3 = record {
    replicated = of_parts-IsReplicated _ _ _;
    shared =
        solve r (values (x1 ∷ x2 ∷ x3 ∷ p1 ∷ p2 ∷ p3 ∷ []))
          (value (renewed h2 (var 0) (var 1) (var 2) (var 3) (var 4) (var 5)))
          (var 0 ⊕ var 1 ⊕ var 2) refl;
  }
  renewed-Shares h3 x1 x2 x3 p1 p2 p3 = record {
    replicated = of_parts-IsReplicated _ _ _;
    shared =
        solve r (values (x1 ∷ x2 ∷ x3 ∷ p1 ∷ p2 ∷ p3 ∷ []))
          (value (renewed h3 (var 0) (var 1) (var 2) (var 3) (var 4) (var 5)))
          (var 0 ⊕ var 1 ⊕ var 2) refl;
  }

  -- With correlated randomness, and whichever helper the shares are renewed for, all three return,
  -- and hold a replicated sharing of the same value. The helper `to_helper` ends with the two parts
  -- of the shared randomness alone.
  pub reshare_all-Computes :
      (to_helper : Role) (prss s : Sharing A) {v : A}
      → IsReplicated prss
      → Shares s v
      → (t : Sharing A) × (reshare_all to_helper prss s ≡ done t)
        × Shares t v
        × (at t to_helper ≡ at prss to_helper)
  reshare_all-Computes to prss s {v} hp h = (
    renewed to s.first.left s.second.left s.third.left prss.first.left prss.second.left
        prss.third.left,
    (λ i. reshare_all to (eq-of_parts prss hp i) (eq-of_parts s h.replicated i))
        ∙ renewed_lem to _ _ _ _ _ _,
    subst (Shares _) h.shared (renewed-Shares to _ _ _ _ _ _),
    own to,
  )
    where
      own :
          (q : Role)
          → at
              (renewed q s.first.left s.second.left s.third.left prss.first.left prss.second.left
                prss.third.left)
              q
            ≡ at prss q
      own h1 = λ i. new prss.first.left (sym hp.first_second i)
      own h2 = λ i. new prss.second.left (sym hp.second_third i)
      own h3 = λ i. new prss.third.left (sym hp.third_first i)
