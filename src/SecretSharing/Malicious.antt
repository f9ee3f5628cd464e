-- ===== src/SecretSharing/Malicious.antt =====
-- src/secret_sharing/replicated/malicious/additive_share.rs: a share of a value `x` beside a share of
-- `r * x` in an extension field, where `r` is a value that no helper knows.
use raw_ipa.Prelude.{◌≡◌, refl, ap, ◌∙◌, sym, [], ◌∷◌, subst}
use raw_ipa.Algebra.{Field, IsRing, ◌⊕◌, ◌⊖◌, ◌⊗◌, ⊝◌}
use raw_ipa.Algebra.Solver.{Expr_field, var, solve, values, normalise}
use raw_ipa.Helpers.Role.{Three, map_three, zip_three}
use raw_ipa.SecretSharing.Replicated
use raw_ipa.SecretSharing.Replicated.{AdditiveShare}
use raw_ipa.SecretSharing.Sharing.{Sharing, Shares, add-Shares, sub-Shares, neg-Shares, mul-Shares}

pub record MaliciousShare {ℓ} (A E : Type ℓ) : Type ℓ where
  pub x : AdditiveShare A
  pub rx : AdditiveShare E

-- `to_extended` keeps sums, differences, negations and products.
pub record IsExtension {ℓ} {A E : Type ℓ} ⦃f : Field A⦄ ⦃g : Field E⦄ (to_extended : A → E)
    : Type ℓ where
  pub extend_add : (a b : A) → to_extended (a ⊕ b) ≡ to_extended a ⊕ to_extended b
  pub extend_sub : (a b : A) → to_extended (a ⊖ b) ≡ to_extended a ⊖ to_extended b
  pub extend_neg : (a : A) → to_extended (⊝ a) ≡ ⊝ (to_extended a)
  pub extend_mul : (a b : A) → to_extended (a ⊗ b) ≡ to_extended a ⊗ to_extended b

module _ {ℓ} {A E : Type ℓ} ⦃f : Field A⦄ ⦃g : Field E⦄ where
  unfoldable pub add : MaliciousShare A E → MaliciousShare A E → MaliciousShare A E
  add s t = record { x = Replicated.add s.x t.x; rx = Replicated.add s.rx t.rx }

  unfoldable pub neg : MaliciousShare A E → MaliciousShare A E
  neg s = record { x = Replicated.neg s.x; rx = Replicated.neg s.rx }

  unfoldable pub sub : MaliciousShare A E → MaliciousShare A E → MaliciousShare A E
  sub s t = record { x = Replicated.sub s.x t.x; rx = Replicated.sub s.rx t.rx }

  unfoldable pub mul : (A → E) → MaliciousShare A E → A → MaliciousShare A E
  mul to_extended s c = record {
    x = Replicated.mul s.x c;
    rx = Replicated.mul s.rx (to_extended c);
  }

abbrev pub x_of {ℓ} : {A E : Type ℓ} → Three (MaliciousShare A E) → Sharing A
x_of s = map_three (λ t. t.x) s

abbrev pub rx_of {ℓ} : {A E : Type ℓ} → Three (MaliciousShare A E) → Sharing E
rx_of s = map_three (λ t. t.rx) s

-- `ValidateMalicious` of src/test_fixture/sharing.rs: the second value is `r` times the first.
pub record Authentic {ℓ} {A E : Type ℓ} ⦃f : Field A⦄ ⦃g : Field E⦄ (to_extended : A → E) (r : E)
    (s : Three (MaliciousShare A E)) (v : A) : Type ℓ where
  pub shares_x : Shares (x_of s) v
  pub shares_rx : Shares (rx_of s) (to_extended v ⊗ r)

module _ {ℓ} {A E : Type ℓ} ⦃f : Field A⦄ ⦃g : Field E⦄ (ra : IsRing A) (re : IsRing E)
    {to_extended : A → E} (ext : IsExtension to_extended) (r : E) where
  add_mac : (a b c : E) → a ⊗ c ⊕ b ⊗ c ≡ (a ⊕ b) ⊗ c
  unfolding normalise
  add_mac a b c =
      solve re (values (a ∷ b ∷ c ∷ [])) (var 0 ⊗ var 2 ⊕ var 1 ⊗ var 2) ((var 0 ⊕ var 1) ⊗ var 2)
        refl

  sub_mac : (a b c : E) → a ⊗ c ⊖ b ⊗ c ≡ (a ⊖ b) ⊗ c
  unfolding normalise
  sub_mac a b c =
      solve re (values (a ∷ b ∷ c ∷ [])) (var 0 ⊗ var 2 ⊖ var 1 ⊗ var 2) ((var 0 ⊖ var 1) ⊗ var 2)
        refl

  neg_mac : (a c : E) → ⊝ (a ⊗ c) ≡ ⊝ a ⊗ c
  unfolding normalise
  neg_mac a c = solve re (values (a ∷ c ∷ [])) (⊝ (var 0 ⊗ var 1)) (⊝ (var 0) ⊗ var 1) refl

  mul_mac : (a b c : E) → a ⊗ c ⊗ b ≡ a ⊗ b ⊗ c
  unfolding normalise
  mul_mac a b c =
      solve re (values (a ∷ b ∷ c ∷ [])) (var 0 ⊗ var 2 ⊗ var 1) (var 0 ⊗ var 1 ⊗ var 2) refl

  -- The local operations keep the relation between the two values: sums, differences, negations and
  -- products with a known value act on the shared value, and the second value stays `r` times it.
  pub local-Authentic :
      (s t : Three (MaliciousShare A E)) (c : A) {v w : A}
      → Authentic to_extended r s v
      → Authentic to_extended r t w
      → Authentic to_extended r (zip_three add s t) (v ⊕ w)
        × Authentic to_extended r (zip_three sub s t) (v ⊖ w)
        × Authentic to_extended r (map_three neg s) (⊝ v)
        × Authentic to_extended r (map_three (λ u. mul to_extended u c) s) (v ⊗ c)
  unfolding add sub neg mul
  local-Authentic s t c {v} {w} hs ht = (
    record {
      shares_x = add-Shares ra (x_of s) (x_of t) hs.shares_x ht.shares_x;
      shares_rx =
          subst (Shares _) (add_mac _ _ r ∙ ap (λ y. y ⊗ r) (sym (ext.extend_add v w)))
            (add-Shares re (rx_of s) (rx_of t) hs.shares_rx ht.shares_rx);
    },
    record {
      shares_x = sub-Shares ra (x_of s) (x_of t) hs.shares_x ht.shares_x;
      shares_rx =
          subst (Shares _) (sub_mac _ _ r ∙ ap (λ y. y ⊗ r) (sym (ext.extend_sub v w)))
            (sub-Shares re (rx_of s) (rx_of t) hs.shares_rx ht.shares_rx);
    },
    record {
      shares_x = neg-Shares ra (x_of s) hs.shares_x;
      shares_rx =
          subst (Shares _) (neg_mac _ r ∙ ap (λ y. y ⊗ r) (sym (ext.extend_neg v)))
            (neg-Shares re (rx_of s) hs.shares_rx);
    },
    record {
      shares_x = mul-Shares ra (x_of s) c hs.shares_x;
      shares_rx =
          subst (Shares _)
            (mul_mac _ (to_extended c) r ∙ ap (λ y. y ⊗ r) (sym (ext.extend_mul v c)))
            (mul-Shares re (rx_of s) (to_extended c) hs.shares_rx);
    },
  )
