-- ===== src/SecretSharing/Sharing.antt =====
-- Sharings of a value among the three helpers: src/secret_sharing/mod.rs (`IntoShares`) and
-- src/test_fixture/sharing.rs (`Reconstruct`).
use raw_ipa.Prelude.{◌≡◌, refl, sym, ap, ap₂, ◌∙◌, [], ◌∷◌, Option, none, some}
use mathlib.Core.Logic.{ite, if_pos}
use raw_ipa.Algebra.{Field, IsRing, ◌⊕◌, ◌⊖◌, ◌⊗◌, ⊝◌, 𝟘}
use raw_ipa.Algebra.Solver.{Expr_field, var, solve, values, normalise}
use raw_ipa.Helpers.Role.{Three, map_three, zip_three}
use raw_ipa.SecretSharing.Replicated.{AdditiveShare, new, add, neg, sub, mul}

abbrev pub Sharing {ℓ} : Type ℓ → Type ℓ
Sharing A = Three (AdditiveShare A)

-- The sharing whose parts are `x1`, `x2` and `x3`.
abbrev pub of_parts {ℓ} : {A : Type ℓ} → A → A → A → Sharing A
of_parts x1 x2 x3 = record { first = new x1 x2; second = new x2 x3; third = new x3 x1 }

-- Each helper's right part is the left part of the helper to its right.
pub record IsReplicated {ℓ} {A : Type ℓ} (s : Sharing A) : Type ℓ where
  pub first_second : s.first.right ≡ s.second.left
  pub second_third : s.second.right ≡ s.third.left
  pub third_first : s.third.right ≡ s.first.left

pub of_parts-IsReplicated {ℓ} : {A : Type ℓ} (x1 x2 x3 : A) → IsReplicated (of_parts x1 x2 x3)
of_parts-IsReplicated x1 x2 x3 = record {
  first_second = refl;
  second_third = refl;
  third_first = refl;
}

-- A replicated sharing is determined by the three left parts.
pub eq-of_parts {ℓ} :
    {A : Type ℓ} (s : Sharing A)
    → IsReplicated s
    → s ≡ of_parts s.first.left s.second.left s.third.left
eq-of_parts s h = λ i. record {
  first = new s.first.left (h.first_second i);
  second = new s.second.left (h.second_third i);
  third = new s.third.left (h.third_first i);
}

module _ {ℓ} {A : Type ℓ} ⦃f : Field A⦄ where
  -- The value that is shared.
  abbrev pub value : Sharing A → A
  value s = s.first.left ⊕ s.second.left ⊕ s.third.left

  abbrev pub zero_sharing : Sharing A
  zero_sharing = of_parts 𝟘 𝟘 𝟘

  -- `share_with`, with the two random values that it draws.
  unfoldable pub share_with : A → A → A → Sharing A
  share_with x1 x2 v =
      let x3 = v ⊖ (x1 ⊕ x2) in record { first = new x1 x2; second = new x2 x3; third = new x3 x1 }

  -- `reconstruct`; `none` where an assertion fails.
  unfoldable pub reconstruct : Discrete A → Sharing A → Option A
  reconstruct dec s =
      ite (dec (value s) (s.first.right ⊕ s.second.right ⊕ s.third.right))
        (ite (dec s.first.right s.second.left)
          (ite (dec s.second.right s.third.left)
            (ite (dec s.third.right s.first.left) (some (value s)) none) none)
          none)
        none

  -- What a protocol without faults leaves: a sharing of `v` that the helpers agree on.
  pub record Shares (s : Sharing A) (v : A) : Type ℓ where
    pub replicated : IsReplicated s
    pub shared : value s ≡ v

module _ {ℓ} {A : Type ℓ} ⦃f : Field A⦄ (r : IsRing A) where
  sum_rotate : (a b c : A) → a ⊕ b ⊕ c ≡ b ⊕ c ⊕ a
  unfolding normalise
  sum_rotate a b c =
      solve r (values (a ∷ b ∷ c ∷ [])) (var 0 ⊕ var 1 ⊕ var 2) (var 1 ⊕ var 2 ⊕ var 0) refl

  -- Shares that were dealt for a value, whatever the randomness, are a replicated sharing of it.
  pub share_with-Shares : (x1 x2 v : A) → Shares (share_with x1 x2 v) v
  unfolding share_with normalise
  share_with-Shares x1 x2 v = record {
    replicated = of_parts-IsReplicated x1 x2 (v ⊖ (x1 ⊕ x2));
    shared =
        solve r (values (x1 ∷ x2 ∷ v ∷ [])) (var 0 ⊕ var 1 ⊕ (var 2 ⊖ (var 0 ⊕ var 1))) (var 2)
          refl;
  }

  -- The assertions of `reconstruct` pass on a replicated sharing.
  pub reconstruct_lem :
      (dec : Discrete A) (s : Sharing A) {v : A} → Shares s v → reconstruct dec s ≡ some v
  unfolding reconstruct
  reconstruct_lem dec s {v} h = rw (
    if_pos (dec (value s) (s.first.right ⊕ s.second.right ⊕ s.third.right)) sums,
    if_pos (dec s.first.right s.second.left) h.replicated.first_second,
    if_pos (dec s.second.right s.third.left) h.replicated.second_third,
    if_pos (dec s.third.right s.first.left) h.replicated.third_first,
    h.shared,
  )
    where
      sums : value s ≡ s.first.right ⊕ s.second.right ⊕ s.third.right
      sums = sum_rotate s.first.left s.second.left s.third.left ∙ λ i.
          sym h.replicated.first_second i
          ⊕ sym h.replicated.second_third i
          ⊕ sym h.replicated.third_first i

  -- Dealing a value and reconstructing it from the three shares gives it back.
  pub reconstruct-share_with :
      (dec : Discrete A) (x1 x2 v : A) → reconstruct dec (share_with x1 x2 v) ≡ some v
  reconstruct-share_with dec x1 x2 v = reconstruct_lem dec _ (share_with-Shares x1 x2 v)

  -- The local operations of the helpers act on the shared values.
  pub add-Shares :
      (s t : Sharing A) {v w : A} → Shares s v → Shares t w → Shares (zip_three add s t) (v ⊕ w)
  unfolding normalise
  add-Shares s t h k = record {
    replicated = record {
      first_second = λ i. h.replicated.first_second i ⊕ k.replicated.first_second i;
      second_third = λ i. h.replicated.second_third i ⊕ k.replicated.second_third i;
      third_first = λ i. h.replicated.third_first i ⊕ k.replicated.third_first i;
    };
    shared =
        solve r
          (values (
            s.first.left ∷ s.second.left ∷ s.third.left ∷ t.first.left ∷ t.second.left
            ∷ t.third.left ∷ []))
          ((var 0 ⊕ var 3) ⊕ (var 1 ⊕ var 4) ⊕ (var 2 ⊕ var 5))
          ((var 0 ⊕ var 1 ⊕ var 2) ⊕ (var 3 ⊕ var 4 ⊕ var 5)) refl
        ∙ ap₂ (λ x y. x ⊕ y) h.shared k.shared;
  }

  pub sub-Shares :
      (s t : Sharing A) {v w : A} → Shares s v → Shares t w → Shares (zip_three sub s t) (v ⊖ w)
  unfolding normalise
  sub-Shares s t h k = record {
    replicated = record {
      first_second = λ i. h.replicated.first_second i ⊖ k.replicated.first_second i;
      second_third = λ i. h.replicated.second_third i ⊖ k.replicated.second_third i;
      third_first = λ i. h.replicated.third_first i ⊖ k.replicated.third_first i;
    };
    shared =
        solve r
          (values (
            s.first.left ∷ s.second.left ∷ s.third.left ∷ t.first.left ∷ t.second.left
            ∷ t.third.left ∷ []))
          ((var 0 ⊖ var 3) ⊕ (var 1 ⊖ var 4) ⊕ (var 2 ⊖ var 5))
          ((var 0 ⊕ var 1 ⊕ var 2) ⊖ (var 3 ⊕ var 4 ⊕ var 5)) refl
        ∙ ap₂ (λ x y. x ⊖ y) h.shared k.shared;
  }

  pub neg-Shares : (s : Sharing A) {v : A} → Shares s v → Shares (map_three neg s) (⊝ v)
  unfolding normalise
  neg-Shares s h = record {
    replicated = record {
      first_second = λ i. ⊝ (h.replicated.first_second i);
      second_third = λ i. ⊝ (h.replicated.second_third i);
      third_first = λ i. ⊝ (h.replicated.third_first i);
    };
    shared =
        solve r (values (s.first.left ∷ s.second.left ∷ s.third.left ∷ []))
          (⊝ (var 0) ⊕ ⊝ (var 1) ⊕ ⊝ (var 2)) (⊝ (var 0 ⊕ var 1 ⊕ var 2)) refl
        ∙ ap (λ x. ⊝ x) h.shared;
  }

  pub mul-Shares :
      (s : Sharing A) {v : A} (c : A) → Shares s v → Shares (map_three (λ t. mul t c) s) (v ⊗ c)
  unfolding normalise
  mul-Shares s c h = record {
    replicated = record {
      first_second = λ i. h.replicated.first_second i ⊗ c;
      second_third = λ i. h.replicated.second_third i ⊗ c;
      third_first = λ i. h.replicated.third_first i ⊗ c;
    };
    shared =
        solve r (values (s.first.left ∷ s.second.left ∷ s.third.left ∷ c ∷ []))
          ((var 0 ⊗ var 3) ⊕ (var 1 ⊗ var 3) ⊕ (var 2 ⊗ var 3)) ((var 0 ⊕ var 1 ⊕ var 2) ⊗ var 3)
          refl
        ∙ ap (λ x. x ⊗ c) h.shared;
  }
