-- ===== src/Algebra.antt =====
-- The arithmetic that protocols ask of a field: the operators of the traits `SharedValue`
-- (src/secret_sharing/mod.rs) and `Field` (src/ff/field.rs), apart from their laws. A protocol is
-- written over the operations alone, so that it runs over any implementation of them.
pub mod Laws
pub mod Solver
use raw_ipa.Prelude.{◌≡◌}

-- `ZERO`, `ONE`, `Add`, `Sub`, `Neg` and `Mul`.
pub record Field {ℓ} (A : Type ℓ) : Type ℓ where
  pub zero_value : A
  pub one_value : A
  pub add : A → A → A
  pub sub : A → A → A
  pub neg : A → A
  pub mul : A → A → A

module _ {ℓ} {A : Type ℓ} ⦃f : Field A⦄ where
  infixl 65 ◌⊕◌ ◌⊖◌
  infixl 70 ◌⊗◌
  infixr 72 ⊝◌
  abbrev pub ◌⊕◌ : A → A → A
  a ⊕ b = f.add a b

  abbrev pub ◌⊖◌ : A → A → A
  a ⊖ b = f.sub a b

  abbrev pub ◌⊗◌ : A → A → A
  a ⊗ b = f.mul a b

  abbrev pub ⊝◌ : A → A
  ⊝ a = f.neg a

  abbrev pub 𝟘 : A
  𝟘 = f.zero_value

  abbrev pub 𝟙 : A
  𝟙 = f.one_value

-- What the protocols rely on: the operations form a commutative ring.
pub record IsRing {ℓ} (A : Type ℓ) ⦃f : Field A⦄ : Type ℓ where
  pub add_assoc : (a b c : A) → (a ⊕ b) ⊕ c ≡ a ⊕ (b ⊕ c)
  pub add_comm : (a b : A) → a ⊕ b ≡ b ⊕ a
  pub add_zero : (a : A) → a ⊕ 𝟘 ≡ a
  pub add_neg : (a : A) → a ⊕ ⊝ a ≡ 𝟘
  pub sub_def : (a b : A) → a ⊖ b ≡ a ⊕ ⊝ b
  pub mul_assoc : (a b c : A) → (a ⊗ b) ⊗ c ≡ a ⊗ (b ⊗ c)
  pub mul_comm : (a b : A) → a ⊗ b ≡ b ⊗ a
  pub mul_one : (a : A) → a ⊗ 𝟙 ≡ a
  pub mul_add : (a b c : A) → a ⊗ (b ⊕ c) ≡ (a ⊗ b) ⊕ (a ⊗ c)
