-- ===== src/Algebra/Laws.antt =====
-- Consequences of the ring laws.
use raw_ipa.Prelude.{◌≡◌, sym, ap, ◌∙◌, ◌≡⟨◌⟩◌, ◌∎}
use raw_ipa.Algebra.{Field, IsRing, ◌⊕◌, ◌⊖◌, ◌⊗◌, ⊝◌, 𝟘, 𝟙}

module _ {ℓ} {A : Type ℓ} ⦃f : Field A⦄ (r : IsRing A) where
  pub zero-add : (a : A) → 𝟘 ⊕ a ≡ a
  zero-add a = r.add_comm _ _ ∙ r.add_zero a

  pub neg-add : (a : A) → ⊝ a ⊕ a ≡ 𝟘
  neg-add a = r.add_comm _ _ ∙ r.add_neg a

  pub add_left_comm : (a b c : A) → a ⊕ (b ⊕ c) ≡ b ⊕ (a ⊕ c)
  add_left_comm a b c =
      sym (r.add_assoc a b c) ∙ ap (λ x. x ⊕ c) (r.add_comm a b) ∙ r.add_assoc b a c

  pub mul_left_comm : (a b c : A) → a ⊗ (b ⊗ c) ≡ b ⊗ (a ⊗ c)
  mul_left_comm a b c =
      sym (r.mul_assoc a b c) ∙ ap (λ x. x ⊗ c) (r.mul_comm a b) ∙ r.mul_assoc b a c

  pub add_right_cancel : (a b c : A) → a ⊕ c ≡ b ⊕ c → a ≡ b
  add_right_cancel a b c h =
      a
      ≡⟨ sym (ap (λ x. a ⊕ x) (r.add_neg c) ∙ r.add_zero a) ⟩ a ⊕ (c ⊕ ⊝ c)
      ≡⟨ sym (r.add_assoc a c (⊝ c)) ∙ ap (λ x. x ⊕ ⊝ c) h ∙ r.add_assoc b c (⊝ c) ⟩ b ⊕ (c ⊕ ⊝ c)
      ≡⟨ ap (λ x. b ⊕ x) (r.add_neg c) ∙ r.add_zero b ⟩ b ∎

  -- A value that cancels `a` is its negation.
  pub eq-neg : (a b : A) → b ⊕ a ≡ 𝟘 → b ≡ ⊝ a
  eq-neg a b h = add_right_cancel b (⊝ a) a (h ∙ sym (neg-add a))

  pub neg-zero : ◌≡◌ {A = A} (⊝ 𝟘) 𝟘
  neg-zero = sym (eq-neg 𝟘 𝟘 (r.add_zero 𝟘))

  pub neg-neg : (a : A) → ⊝ (⊝ a) ≡ a
  neg-neg a = sym (eq-neg (⊝ a) a (r.add_neg a))

  pub neg_of_add : (a b : A) → ⊝ (a ⊕ b) ≡ ⊝ a ⊕ ⊝ b
  neg_of_add a b = sym (eq-neg (a ⊕ b) (⊝ a ⊕ ⊝ b) regroup)
    where
      regroup : (⊝ a ⊕ ⊝ b) ⊕ (a ⊕ b) ≡ 𝟘
      regroup =
          (⊝ a ⊕ ⊝ b) ⊕ (a ⊕ b)
          ≡⟨ r.add_assoc _ _ _ ⟩ ⊝ a ⊕ (⊝ b ⊕ (a ⊕ b))
          ≡⟨ ap (λ x. ⊝ a ⊕ x) (add_left_comm (⊝ b) a b) ⟩ ⊝ a ⊕ (a ⊕ (⊝ b ⊕ b))
          ≡⟨ ap (λ x. ⊝ a ⊕ (a ⊕ x)) (neg-add b) ⟩ ⊝ a ⊕ (a ⊕ 𝟘)
          ≡⟨ ap (λ x. ⊝ a ⊕ x) (r.add_zero a) ∙ neg-add a ⟩ 𝟘 ∎

  pub mul-zero : (a : A) → a ⊗ 𝟘 ≡ 𝟘
  mul-zero a =
      add_right_cancel (a ⊗ 𝟘) 𝟘 (a ⊗ 𝟘)
        (sym (r.mul_add a 𝟘 𝟘) ∙ ap (λ x. a ⊗ x) (r.add_zero 𝟘) ∙ sym (zero-add (a ⊗ 𝟘)))

  pub zero-mul : (a : A) → 𝟘 ⊗ a ≡ 𝟘
  zero-mul a = r.mul_comm _ _ ∙ mul-zero a

  pub one-mul : (a : A) → 𝟙 ⊗ a ≡ a
  one-mul a = r.mul_comm _ _ ∙ r.mul_one a

  pub mul-neg : (a b : A) → a ⊗ ⊝ b ≡ ⊝ (a ⊗ b)
  mul-neg a b =
      eq-neg (a ⊗ b) (a ⊗ ⊝ b)
        (sym (r.mul_add a (⊝ b) b) ∙ ap (λ x. a ⊗ x) (neg-add b) ∙ mul-zero a)

  pub neg-mul : (a b : A) → ⊝ a ⊗ b ≡ ⊝ (a ⊗ b)
  neg-mul a b = r.mul_comm _ _ ∙ mul-neg b a ∙ ap (λ x. ⊝ x) (r.mul_comm b a)

  pub add_mul : (a b c : A) → (a ⊕ b) ⊗ c ≡ (a ⊗ c) ⊕ (b ⊗ c)
  add_mul a b c = r.mul_comm _ _ ∙ r.mul_add c a b ∙ ap₂' (r.mul_comm c a) (r.mul_comm c b)
    where
      ap₂' : {x y u v : A} → x ≡ y → u ≡ v → x ⊕ u ≡ y ⊕ v
      ap₂' p q = λ i. p i ⊕ q i

  -- Values with no difference are equal.
  pub eq_of_sub : (a b : A) → a ⊖ b ≡ 𝟘 → a ≡ b
  eq_of_sub a b h = eq-neg (⊝ b) a (sym (r.sub_def a b) ∙ h) ∙ neg-neg b
