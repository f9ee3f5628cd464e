-- ===== src/SecretSharing/Replicated.antt =====
-- src/secret_sharing/replicated/semi_honest/additive_share.rs: the two parts of a value that one
-- helper holds, and the operations that each helper performs on its own.
use raw_ipa.Algebra.{Field, ◌⊕◌, ◌⊖◌, ◌⊗◌, ⊝◌, 𝟘}

-- `AdditiveShare(V, V)`.
pub record AdditiveShare {ℓ} (A : Type ℓ) : Type ℓ where
  pub left : A
  pub right : A

-- `AdditiveShare::new`.
abbrev pub new {ℓ} : {A : Type ℓ} → A → A → AdditiveShare A
new a b = record { left = a; right = b }

module _ {ℓ} {A : Type ℓ} ⦃f : Field A⦄ where
  abbrev pub zero_share : AdditiveShare A
  zero_share = new 𝟘 𝟘

  abbrev pub add : AdditiveShare A → AdditiveShare A → AdditiveShare A
  add s t = new (s.left ⊕ t.left) (s.right ⊕ t.right)

  abbrev pub neg : AdditiveShare A → AdditiveShare A
  neg s = new (⊝ s.left) (⊝ s.right)

  abbrev pub sub : AdditiveShare A → AdditiveShare A → AdditiveShare A
  sub s t = new (s.left ⊖ t.left) (s.right ⊖ t.right)

  -- Multiplication by a value that every helper knows.
  abbrev pub mul : AdditiveShare A → A → AdditiveShare A
  mul s c = new (s.left ⊗ c) (s.right ⊗ c)
