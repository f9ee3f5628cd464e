-- ===== src/Protocol/Basics/Mul/Sparse.antt =====
-- Sharings whose parts are known to be zero at some positions.
use raw_ipa.Prelude.{◌≡◌, refl, ◌∙◌, Bool, true, false, if◌then◌else◌}
use raw_ipa.Algebra.{Field, 𝟘}
use raw_ipa.SecretSharing.Sharing.{Sharing, of_parts, IsReplicated, eq-of_parts}
use raw_ipa.Protocol.Basics.ZeroPositions.{ZeroPositions, flags}

module _ {ℓ} {A : Type ℓ} ⦃f : Field A⦄ where
  -- The left parts are zero where `z` says so.
  pub record Conforms (z : ZeroPositions) (s : Sharing A) : Type ℓ where
    pub first_zero : (flags z).first ≡ true → s.first.left ≡ 𝟘
    pub second_zero : (flags z).second ≡ true → s.second.left ≡ 𝟘
    pub third_zero : (flags z).third ≡ true → s.third.left ≡ 𝟘

  abbrev blank : Bool → A → A
  blank b x = if b then 𝟘 else x

  eq-blank : (b : Bool) (x : A) → (b ≡ true → x ≡ 𝟘) → x ≡ blank b x
  eq-blank true x h = h refl
  eq-blank false x h = refl

  -- The parts, with zeros where `z` says so.
  abbrev pub blanked : ZeroPositions → A → A → A → Sharing A
  blanked z x1 x2 x3 =
      of_parts (blank (flags z).first x1) (blank (flags z).second x2) (blank (flags z).third x3)

  pub eq-blanked :
      (z : ZeroPositions) (s : Sharing A)
      → IsReplicated s
      → Conforms z s
      → s ≡ blanked z s.first.left s.second.left s.third.left
  eq-blanked z s h c = eq-of_parts s h ∙ λ i.
      of_parts (eq-blank (flags z).first s.first.left c.first_zero i)
        (eq-blank (flags z).second s.second.left c.second_zero i)
        (eq-blank (flags z).third s.third.left c.third_zero i)
