-- ===== src/Algebra/Solver.antt =====
-- A decision procedure for equations that hold in every commutative ring. The operations act on
-- expressions too, so a protocol that is written over them runs on variables, and the expression
-- that it returns is the one to compare.
use raw_ipa.Prelude.{
  ℕ, ◌≡◌, refl, sym, ap, ap₂, ◌∙◌, ◌≡⟨◌⟩◌, ◌∎, Bool, true, false, not, ◌&&◌, List, [], ◌∷◌, inl,
  inr, Bool-cases, ltb, ◌==◌, if◌then◌else◌, get_or, arith,
}
use raw_ipa.Algebra.{Field, IsRing, ◌⊕◌, ◌⊖◌, ◌⊗◌, ⊝◌, 𝟘, 𝟙}
use raw_ipa.Algebra.Laws.{
  zero-add, neg-add, add_left_comm, mul_left_comm, neg-zero, neg-neg, neg_of_add, mul-zero,
  zero-mul, one-mul, mul-neg, neg-mul, add_mul, eq_of_sub,
}

pub data Expr : Type 0 where
  var : ℕ → Expr
  nought one : Expr
  plus minus times : Expr → Expr → Expr
  negative : Expr → Expr

instance abbrev pub Expr_field : Field Expr
Expr_field = record {
  zero_value = nought;
  one_value = one;
  add = plus;
  sub = minus;
  neg = negative;
  mul = times;
}

-- A product of variables in ascending order, with a sign (`true` is negative).
abbrev Term : Type 0
Term = Bool × List ℕ

abbrev Poly : Type 0
Poly = List Term

same_vars : List ℕ → List ℕ → Bool
same_vars [] [] = true
same_vars (i ∷ is) (j ∷ js) = (i == j) && same_vars is js
same_vars _ _ = false

opposite : Bool → Bool → Bool
opposite true b = not b
opposite false b = b

-- Adds a term, which cancels the first opposite one.
add_term : Term → Poly → Poly
unfolding same_vars opposite
add_term t [] = t ∷ []
add_term t (u ∷ p) =
    let rest = add_term t p in if opposite t.0 u.0 && same_vars t.1 u.1 then p else u ∷ rest

add_poly : Poly → Poly → Poly
add_poly [] q = q
add_poly (t ∷ p) q = add_poly p (add_term t q)

neg_poly : Poly → Poly
neg_poly [] = []
neg_poly ((s, vs) ∷ p) = (not s, vs) ∷ neg_poly p

insert_var : ℕ → List ℕ → List ℕ
insert_var i [] = i ∷ []
insert_var i (j ∷ js) = let rest = insert_var i js in if ltb j i then j ∷ rest else i ∷ j ∷ js

merge_vars : List ℕ → List ℕ → List ℕ
merge_vars [] js = js
merge_vars (i ∷ is) js = insert_var i (merge_vars is js)

mul_term : Term → Poly → Poly
mul_term t [] = []
mul_term t (u ∷ q) = (opposite t.0 u.0, merge_vars t.1 u.1) ∷ mul_term t q

mul_poly : Poly → Poly → Poly
mul_poly [] q = []
mul_poly (t ∷ p) q = add_poly (mul_term t q) (mul_poly p q)

unfoldable pub normalise : Expr → Poly
unfolding add_term add_poly neg_poly insert_var merge_vars mul_term mul_poly
normalise (var i) = (false, i ∷ []) ∷ []
normalise nought = []
normalise one = (false, []) ∷ []
normalise (plus a b) = add_poly (normalise a) (normalise b)
normalise (minus a b) = add_poly (neg_poly (normalise b)) (normalise a)
normalise (times a b) = mul_poly (normalise a) (normalise b)
normalise (negative a) = neg_poly (normalise a)

module _ {ℓ} {A : Type ℓ} ⦃f : Field A⦄ where
  abbrev pub eval : (ℕ → A) → Expr → A
  eval ρ (var i) = ρ i
  eval ρ nought = 𝟘
  eval ρ one = 𝟙
  eval ρ (plus a b) = eval ρ a ⊕ eval ρ b
  eval ρ (minus a b) = eval ρ a ⊖ eval ρ b
  eval ρ (times a b) = eval ρ a ⊗ eval ρ b
  eval ρ (negative a) = ⊝ (eval ρ a)

  -- The assignment of the variables 0, 1, … to the values of a list.
  abbrev pub values : List A → ℕ → A
  values xs i = get_or xs i 𝟘

module _ {ℓ} {A : Type ℓ} ⦃f : Field A⦄ (r : IsRing A) (ρ : ℕ → A) where
  product : List ℕ → A
  product [] = 𝟙
  product (i ∷ is) = ρ i ⊗ product is

  abbrev signed : Bool → A → A
  signed true a = ⊝ a
  signed false a = a

  abbrev eval_term : Term → A
  eval_term (s, vs) = signed s (product vs)

  abbrev eval_poly : Poly → A
  eval_poly [] = 𝟘
  eval_poly (t ∷ p) = eval_term t ⊕ eval_poly p

  same_vars_sound : (is js : List ℕ) → same_vars is js ≡ true → is ≡ js
  unfolding same_vars
  same_vars_sound [] [] h = refl
  same_vars_sound (i ∷ is) (j ∷ js) h = ground (arith, same_vars_sound is js)
  same_vars_sound _ _ h = cc

  cancels : (s t : Bool) (a : A) → opposite s t ≡ true → signed s a ⊕ signed t a ≡ 𝟘
  unfolding opposite
  cancels true true a h = cc
  cancels true false a h = neg-add r a
  cancels false true a h = r.add_neg a
  cancels false false a h = cc

  eval-add_term : (t : Term) (p : Poly) → eval_poly (add_term t p) ≡ eval_term t ⊕ eval_poly p
  unfolding add_term
  eval-add_term t [] = refl
  eval-add_term (s, vs) ((s', ws) ∷ p) = elim (Bool-cases (opposite s s')) [
    | inr h ↦
        rw h (ap (λ x. eval_term (s', ws) ⊕ x) (eval-add_term (s, vs) p) ∙ add_left_comm r _ _ _)
    | inl h ↦ elim (Bool-cases (same_vars vs ws)) [
      | inr k ↦
          rw (h, k)
            (ap (λ x. eval_term (s', ws) ⊕ x) (eval-add_term (s, vs) p) ∙ add_left_comm r _ _ _)
      | inl k ↦
          rw (h, k)
            (sym (
              sym (r.add_assoc _ _ _)
              ∙ ap (λ ys. (eval_term (s, vs) ⊕ eval_term (s', ys)) ⊕ eval_poly p)
                  (sym (same_vars_sound vs ws k))
              ∙ ap (λ x. x ⊕ eval_poly p) (cancels s s' (product vs) h)
              ∙ zero-add r _))
    ]
  ]

  eval-add_poly : (p q : Poly) → eval_poly (add_poly p q) ≡ eval_poly p ⊕ eval_poly q
  unfolding add_poly
  eval-add_poly [] q = sym (zero-add r _)
  eval-add_poly (t ∷ p) q =
      eval_poly (add_poly p (add_term t q))
      ≡⟨ eval-add_poly p (add_term t q) ⟩ eval_poly p ⊕ eval_poly (add_term t q)
      ≡⟨ ap (λ x. eval_poly p ⊕ x) (eval-add_term t q) ⟩ eval_poly p ⊕ (eval_term t ⊕ eval_poly q)
      ≡⟨ add_left_comm r _ _ _ ⟩ eval_term t ⊕ (eval_poly p ⊕ eval_poly q)
      ≡⟨ sym (r.add_assoc _ _ _) ⟩ (eval_term t ⊕ eval_poly p) ⊕ eval_poly q ∎

  signed-not : (s : Bool) (a : A) → signed (not s) a ≡ ⊝ (signed s a)
  signed-not true a = sym (neg-neg r a)
  signed-not false a = refl

  eval-neg_poly : (p : Poly) → eval_poly (neg_poly p) ≡ ⊝ (eval_poly p)
  unfolding neg_poly
  eval-neg_poly [] = sym (neg-zero r)
  eval-neg_poly ((s, vs) ∷ p) =
      ap₂ (λ x y. x ⊕ y) (signed-not s (product vs)) (eval-neg_poly p) ∙ sym (neg_of_add r _ _)

  product-insert_var : (i : ℕ) (is : List ℕ) → product (insert_var i is) ≡ ρ i ⊗ product is
  unfolding insert_var product
  product-insert_var i [] = refl
  product-insert_var i (j ∷ js) = elim (Bool-cases (ltb j i)) [
    | inr h ↦ rw h
    | inl h ↦ rw h (ap (λ x. ρ j ⊗ x) (product-insert_var i js) ∙ mul_left_comm r _ _ _)
  ]

  product-merge_vars : (is js : List ℕ) → product (merge_vars is js) ≡ product is ⊗ product js
  unfolding merge_vars product
  product-merge_vars [] js = sym (one-mul r _)
  product-merge_vars (i ∷ is) js =
      product-insert_var i (merge_vars is js)
      ∙ ap (λ x. ρ i ⊗ x) (product-merge_vars is js)
      ∙ sym (r.mul_assoc _ _ _)

  signed-opposite : (s t : Bool) (a b : A) → signed (opposite s t) (a ⊗ b) ≡ signed s a ⊗ signed t b
  unfolding opposite
  signed-opposite false false a b = refl
  signed-opposite false true a b = sym (mul-neg r a b)
  signed-opposite true false a b = sym (neg-mul r a b)
  signed-opposite true true a b =
      sym (mul-neg r (⊝ a) b ∙ ap (λ x. ⊝ x) (neg-mul r a b) ∙ neg-neg r _)

  eval-mul_term : (t : Term) (q : Poly) → eval_poly (mul_term t q) ≡ eval_term t ⊗ eval_poly q
  unfolding mul_term
  eval-mul_term t [] = sym (mul-zero r _)
  eval-mul_term (s, vs) ((s', ws) ∷ q) =
      ap₂ (λ x y. x ⊕ y)
        (ap (signed (opposite s s')) (product-merge_vars vs ws)
          ∙ signed-opposite s s' (product vs) (product ws))
        (eval-mul_term (s, vs) q)
      ∙ sym (r.mul_add _ _ _)

  eval-mul_poly : (p q : Poly) → eval_poly (mul_poly p q) ≡ eval_poly p ⊗ eval_poly q
  unfolding mul_poly
  eval-mul_poly [] q = sym (zero-mul r _)
  eval-mul_poly (t ∷ p) q =
      eval-add_poly (mul_term t q) (mul_poly p q)
      ∙ ap₂ (λ x y. x ⊕ y) (eval-mul_term t q) (eval-mul_poly p q)
      ∙ sym (add_mul r _ _ _)

  eval-normalise : (e : Expr) → eval_poly (normalise e) ≡ eval ρ e
  unfolding normalise product
  eval-normalise (var i) = r.add_zero _ ∙ r.mul_one _
  eval-normalise nought = refl
  eval-normalise one = r.add_zero _
  eval-normalise (plus a b) =
      eval-add_poly (normalise a) (normalise b)
      ∙ ap₂ (λ x y. x ⊕ y) (eval-normalise a) (eval-normalise b)
  eval-normalise (minus a b) =
      eval-add_poly (neg_poly (normalise b)) (normalise a)
      ∙ ap₂ (λ x y. x ⊕ y) (eval-neg_poly (normalise b) ∙ ap (λ x. ⊝ x) (eval-normalise b))
          (eval-normalise a)
      ∙ r.add_comm _ _
      ∙ sym (r.sub_def _ _)
  eval-normalise (times a b) =
      eval-mul_poly (normalise a) (normalise b)
      ∙ ap₂ (λ x y. x ⊗ y) (eval-normalise a) (eval-normalise b)
  eval-normalise (negative a) = eval-neg_poly (normalise a) ∙ ap (λ x. ⊝ x) (eval-normalise a)

  -- An expression that cancels out is zero.
  pub vanishes : (e : Expr) → normalise e ≡ [] → eval ρ e ≡ 𝟘
  vanishes e h = sym (eval-normalise e) ∙ ap eval_poly h

  -- Expressions whose difference cancels out have the same value.
  pub solve : (a b : Expr) → normalise (a ⊖ b) ≡ [] → eval ρ a ≡ eval ρ b
  solve a b h = eq_of_sub r _ _ (vanishes (a ⊖ b) h)
