-- ===== src/Protocol/Basics/SumOfProducts.antt =====
-- src/protocol/basics/sum_of_product/semi_honest.rs: the sum of the products of two shared vectors,
-- for the communication of one multiplication.
use raw_ipa.Prelude.{◌≡◌, refl, sym, ap, ap₂, ◌∙◌, List, [], ◌∷◌}
use raw_ipa.Algebra.{Field, IsRing, 𝟘, ◌⊕◌, ◌⊗◌, ⊝◌}
use raw_ipa.Algebra.Solver.{Expr_field, var, solve, values, normalise}
use raw_ipa.Helpers.Role.{Role, h1, h2, h3, Direction, at, peer, tabulate}
use raw_ipa.SecretSharing.Replicated.{AdditiveShare, new}
use raw_ipa.SecretSharing.Sharing.{Sharing, of_parts, IsReplicated, eq-of_parts, value, Shares}
use raw_ipa.Protocol.Exchange.{Outcome, done, Exchange, only, receive, exchange, together, ◌>>=◌}
use raw_ipa.Protocol.Computes.{Computes}

-- `a` and `b` are the lists of the left and of the right halves of these pairs, which the code
-- asserts to be of one length.
abbrev pub Pairs {ℓ} : Type ℓ → Type ℓ
Pairs A = List (A × A)

module _ {ℓ} {A : Type ℓ} ⦃f : Field A⦄ where
  -- The first loop, over `right_sops`.
  cross_from : A → Pairs (AdditiveShare A) → A
  cross_from acc [] = acc
  cross_from acc ((a, b) ∷ ps) = cross_from (acc ⊕ (a.left ⊗ b.right ⊕ a.right ⊗ b.left)) ps

  -- The second loop, over `lhs` and `rhs`.
  lefts_from : A → Pairs (AdditiveShare A) → A
  lefts_from acc [] = acc
  lefts_from acc ((a, b) ∷ ps) = lefts_from (acc ⊕ a.left ⊗ b.left) ps

  rights_from : A → Pairs (AdditiveShare A) → A
  rights_from acc [] = acc
  rights_from acc ((a, b) ∷ ps) = rights_from (acc ⊕ a.right ⊗ b.right) ps

  unfoldable pub sum_of_products :
      Role → Pairs (AdditiveShare A) → AdditiveShare A → Exchange A (AdditiveShare A)
  unfolding cross_from lefts_from rights_from
  sum_of_products role ps prss =
      let right_sops = cross_from (⊝ prss.left) ps in
      record {
        sent = only (peer role Direction.right) right_sops;
        resume = λ inbox. do
          left_sops ← receive (inbox (peer role Direction.left))
          done (
              new (lefts_from (left_sops ⊕ prss.left) ps)
                (rights_from (right_sops ⊕ prss.right) ps));
      }

  -- What the helper `r` holds of a vector of pairs of sharings.
  abbrev pub held : Role → Pairs (Sharing A) → Pairs (AdditiveShare A)
  held r [] = []
  held r ((a, b) ∷ ps) = (at a r, at b r) ∷ held r ps

  unfoldable pub sum_of_products_all : Pairs (Sharing A) → Sharing A → Outcome (Sharing A)
  sum_of_products_all ps prss =
      together (exchange (tabulate (λ r. done (sum_of_products r (held r ps) (at prss r)))))

  -- The plain computation: the sum of the products of the shared values.
  unfoldable pub dot : Pairs A → A
  dot [] = 𝟘
  dot ((v, w) ∷ ps) = v ⊗ w ⊕ dot ps

  -- Pairs of sharings of the pairs of values.
  pub data AllShares : Pairs (Sharing A) → Pairs A → Type ℓ where
    none : AllShares [] []
    more :
        {a b : Sharing A} {v w : A} {ps : Pairs (Sharing A)} {vs : Pairs A}
        → Shares a v
        → Shares b w
        → AllShares ps vs
        → AllShares ((a, b) ∷ ps) ((v, w) ∷ vs)

  -- The result, before it is seen to be a sharing of anything.
  result : Pairs (Sharing A) → Sharing A → Sharing A
  result ps prss = record {
    first =
        new (lefts_from (c3 ⊕ prss.first.left) (held h1 ps))
          (rights_from (c1 ⊕ prss.first.right) (held h1 ps));
    second =
        new (lefts_from (c1 ⊕ prss.second.left) (held h2 ps))
          (rights_from (c2 ⊕ prss.second.right) (held h2 ps));
    third =
        new (lefts_from (c2 ⊕ prss.third.left) (held h3 ps))
          (rights_from (c3 ⊕ prss.third.right) (held h3 ps));
  }
    where
      c1 : A
      c1 = cross_from (⊝ prss.first.left) (held h1 ps)

      c2 : A
      c2 = cross_from (⊝ prss.second.left) (held h2 ps)

      c3 : A
      c3 = cross_from (⊝ prss.third.left) (held h3 ps)

  result_lem :
      (ps : Pairs (Sharing A)) (prss : Sharing A)
      → sum_of_products_all ps prss ≡ done (result ps prss)
  unfolding sum_of_products_all sum_of_products result
  result_lem ps prss = refl

  -- The right part of each helper is computed as the left part of the next.
  rights-lefts :
      (r : Role) {ps : Pairs (Sharing A)} {vs : Pairs A}
      → AllShares ps vs
      → {x y : A} → x ≡ y
      → rights_from x (held r ps) ≡ lefts_from y (held (peer r Direction.right) ps)
  unfolding rights_from lefts_from
  rights-lefts r none e = e
  rights-lefts h1 (more a b h) e =
      rights-lefts h1 h (λ i. e i ⊕ a.replicated.first_second i ⊗ b.replicated.first_second i)
  rights-lefts h2 (more a b h) e =
      rights-lefts h2 h (λ i. e i ⊕ a.replicated.second_third i ⊗ b.replicated.second_third i)
  rights-lefts h3 (more a b h) e =
      rights-lefts h3 h (λ i. e i ⊕ a.replicated.third_first i ⊗ b.replicated.third_first i)

  -- What the vectors contribute at one helper.
  abbrev crosses : Role → Pairs (Sharing A) → A
  crosses r ps = cross_from 𝟘 (held r ps)

  abbrev lefts : Role → Pairs (Sharing A) → A
  lefts r ps = lefts_from 𝟘 (held r ps)

  abbrev total : Pairs (Sharing A) → A
  total ps =
      (crosses h1 ps ⊕ lefts h1 ps) ⊕ (crosses h2 ps ⊕ lefts h2 ps) ⊕ (crosses h3 ps ⊕ lefts h3 ps)

module _ {ℓ} {A : Type ℓ} ⦃f : Field A⦄ (r : IsRing A) where
  regroup : (x y z : A) → x ⊕ y ⊕ z ≡ x ⊕ (𝟘 ⊕ y ⊕ z)
  unfolding normalise
  regroup x y z =
      solve r (values (x ∷ y ∷ z ∷ [])) (var 0 ⊕ var 1 ⊕ var 2) (var 0 ⊕ (𝟘 ⊕ var 1 ⊕ var 2)) refl

  lefts_from_acc :
      (acc : A) (ps : Pairs (AdditiveShare A)) → lefts_from acc ps ≡ acc ⊕ lefts_from 𝟘 ps
  unfolding lefts_from
  lefts_from_acc acc [] = sym (r.add_zero acc)
  lefts_from_acc acc ((a, b) ∷ ps) =
      lefts_from_acc (acc ⊕ a.left ⊗ b.left) ps
      ∙ regroup acc (a.left ⊗ b.left) (lefts_from 𝟘 ps)
      ∙ ap (λ x. acc ⊕ x) (sym (lefts_from_acc (𝟘 ⊕ a.left ⊗ b.left) ps))

  cross_from_acc :
      (acc : A) (ps : Pairs (AdditiveShare A)) → cross_from acc ps ≡ acc ⊕ cross_from 𝟘 ps
  unfolding cross_from
  cross_from_acc acc [] = sym (r.add_zero acc)
  cross_from_acc acc ((a, b) ∷ ps) =
      cross_from_acc (acc ⊕ (a.left ⊗ b.right ⊕ a.right ⊗ b.left)) ps
      ∙ regroup acc (a.left ⊗ b.right ⊕ a.right ⊗ b.left) (cross_from 𝟘 ps)
      ∙ ap (λ x. acc ⊕ x) (sym (cross_from_acc (𝟘 ⊕ (a.left ⊗ b.right ⊕ a.right ⊗ b.left)) ps))

  -- One more pair adds its product to the total.
  total-more :
      (a1 a2 a3 b1 b2 b3 : A) (ps : Pairs (Sharing A))
      → total ((of_parts a1 a2 a3, of_parts b1 b2 b3) ∷ ps)
        ≡ (a1 ⊕ a2 ⊕ a3) ⊗ (b1 ⊕ b2 ⊕ b3) ⊕ total ps
  unfolding lefts_from cross_from normalise
  total-more a1 a2 a3 b1 b2 b3 ps =
      (λ i.
        (cross_from_acc (𝟘 ⊕ (a1 ⊗ b2 ⊕ a2 ⊗ b1)) (held h1 ps) i
          ⊕ lefts_from_acc (𝟘 ⊕ a1 ⊗ b1) (held h1 ps) i)
        ⊕ (cross_from_acc (𝟘 ⊕ (a2 ⊗ b3 ⊕ a3 ⊗ b2)) (held h2 ps) i
            ⊕ lefts_from_acc (𝟘 ⊕ a2 ⊗ b2) (held h2 ps) i)
        ⊕ (cross_from_acc (𝟘 ⊕ (a3 ⊗ b1 ⊕ a1 ⊗ b3)) (held h3 ps) i
            ⊕ lefts_from_acc (𝟘 ⊕ a3 ⊗ b3) (held h3 ps) i))
      ∙ solve r
          (values (
            a1
            ∷ a2
            ∷ a3
            ∷ b1
            ∷ b2
            ∷ b3
            ∷ crosses h1 ps
            ∷ lefts h1 ps
            ∷ crosses h2 ps
            ∷ lefts h2 ps
            ∷ crosses h3 ps
            ∷ lefts h3 ps
            ∷ []))
          (((𝟘 ⊕ (var 0 ⊗ var 4 ⊕ var 1 ⊗ var 3)) ⊕ var 6 ⊕ ((𝟘 ⊕ var 0 ⊗ var 3) ⊕ var 7))
            ⊕ ((𝟘 ⊕ (var 1 ⊗ var 5 ⊕ var 2 ⊗ var 4)) ⊕ var 8 ⊕ ((𝟘 ⊕ var 1 ⊗ var 4) ⊕ var 9))
            ⊕ ((𝟘 ⊕ (var 2 ⊗ var 3 ⊕ var 0 ⊗ var 5)) ⊕ var 10 ⊕ ((𝟘 ⊕ var 2 ⊗ var 5) ⊕ var 11)))
          ((var 0 ⊕ var 1 ⊕ var 2) ⊗ (var 3 ⊕ var 4 ⊕ var 5)
            ⊕ ((var 6 ⊕ var 7) ⊕ (var 8 ⊕ var 9) ⊕ (var 10 ⊕ var 11)))
          refl

  total-dot : {ps : Pairs (Sharing A)} {vs : Pairs A} → AllShares ps vs → total ps ≡ dot vs
  unfolding lefts_from cross_from dot normalise
  total-dot none = solve r (values []) ((𝟘 ⊕ 𝟘) ⊕ (𝟘 ⊕ 𝟘) ⊕ (𝟘 ⊕ 𝟘)) 𝟘 refl
  total-dot (more {a} {b} {v} {w} {ps} {vs} ha hb h) =
      (λ i. total ((eq-of_parts a ha.replicated i, eq-of_parts b hb.replicated i) ∷ ps))
      ∙ total-more a.first.left a.second.left a.third.left b.first.left b.second.left b.third.left
          ps
      ∙ ap₂ (λ x y. x ⊕ y) (ap₂ (λ x y. x ⊗ y) ha.shared hb.shared) (total-dot h)

  result-value :
      (ps : Pairs (Sharing A)) (p1 p2 p3 : A) → value (result ps (of_parts p1 p2 p3)) ≡ total ps
  unfolding result normalise
  result-value ps p1 p2 p3 =
      (λ i.
        lefts_from_acc (cross_from_acc (⊝ p3) (held h3 ps) i ⊕ p1) (held h1 ps) i
        ⊕ lefts_from_acc (cross_from_acc (⊝ p1) (held h1 ps) i ⊕ p2) (held h2 ps) i
        ⊕ lefts_from_acc (cross_from_acc (⊝ p2) (held h2 ps) i ⊕ p3) (held h3 ps) i)
      ∙ solve r
          (values (
            p1
            ∷ p2
            ∷ p3
            ∷ crosses h1 ps
            ∷ lefts h1 ps
            ∷ crosses h2 ps
            ∷ lefts h2 ps
            ∷ crosses h3 ps
            ∷ lefts h3 ps
            ∷ []))
          (((⊝ (var 2) ⊕ var 7) ⊕ var 0 ⊕ var 4)
            ⊕ ((⊝ (var 0) ⊕ var 3) ⊕ var 1 ⊕ var 6)
            ⊕ ((⊝ (var 1) ⊕ var 5) ⊕ var 2 ⊕ var 8))
          ((var 3 ⊕ var 4) ⊕ (var 5 ⊕ var 6) ⊕ (var 7 ⊕ var 8)) refl

  -- With correlated randomness all three helpers return, and hold a replicated sharing of the sum of
  -- the products of the shared values, for vectors of any length.
  pub sum_of_products-Computes :
      (ps : Pairs (Sharing A)) (vs : Pairs A) (prss : Sharing A)
      → AllShares ps vs
      → IsReplicated prss
      → Computes (sum_of_products_all ps prss) (dot vs)
  unfolding result
  sum_of_products-Computes ps vs prss h hp = (
    result ps prss,
    result_lem ps prss,
    record {
      replicated = record {
        first_second =
            rights-lefts h1 h
              (λ i. cross_from (⊝ prss.first.left) (held h1 ps) ⊕ hp.first_second i);
        second_third =
            rights-lefts h2 h
              (λ i. cross_from (⊝ prss.second.left) (held h2 ps) ⊕ hp.second_third i);
        third_first =
            rights-lefts h3 h (λ i. cross_from (⊝ prss.third.left) (held h3 ps) ⊕ hp.third_first i);
      };
      shared =
          (λ i. value (result ps (eq-of_parts prss hp i)))
          ∙ result-value ps prss.first.left prss.second.left prss.third.left
          ∙ total-dot h;
    },
  )
