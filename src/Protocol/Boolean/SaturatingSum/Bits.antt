-- ===== src/Protocol/Boolean/SaturatingSum/Bits.antt =====
-- src/protocol/boolean/saturating_sum.rs: bits over a field in which 1 + 1 is 0, and the adders of
-- one bit.
use raw_ipa.Prelude.{
  ℕ, suc, ◌+◌, ◌*◌, ◌≡◌, refl, ap, ◌∙◌, subst, Bool, true, false, not, ◌&&◌, List, [], ◌∷◌, length,
  if◌then◌else◌,
}
use mathlib.Core.Bool.{xor as xor_bool}
use raw_ipa.Algebra.{Field, IsRing, 𝟘, 𝟙, ◌⊕◌, ◌⊗◌}
use raw_ipa.Algebra.Solver.{Expr_field, solve, values, normalise}
use raw_ipa.Helpers.Role.{zip_three}
use raw_ipa.SecretSharing.Replicated.{add}
use raw_ipa.SecretSharing.Sharing.{
  Sharing, Shares, IsReplicated, add-Shares, zero_sharing, of_parts-IsReplicated,
}
use raw_ipa.Protocol.Exchange.{Outcome, done}
use raw_ipa.Protocol.Computes.{>>=-Computes}
use raw_ipa.Protocol.Basics.SecureMul.{mul, mul-Computes}
use raw_ipa.Protocol.Basics.KnownValue.{known, share_known_value-Shares}
use raw_ipa.Protocol.Boolean.Xor.{bit}
use raw_ipa.Protocol.Boolean.SaturatingSum.{one_bit_adder, one_bit_subtractor}

-- The number of a bit, and of a list of bits.
abbrev pub number : Bool → ℕ
number false = 0
number true = 1

abbrev pub from_bits : List Bool → ℕ
from_bits [] = 0
from_bits (b ∷ bs) = number b + 2 * from_bits bs

-- The carry of three bits, as the adder computes it.
abbrev pub carry : Bool → Bool → Bool → Bool
carry a b c = xor_bool (xor_bool a c && xor_bool b c) c

abbrev pub parity : Bool → Bool → Bool → Bool
parity a b c = xor_bool (xor_bool a b) c

pub full_adder :
    (a b c : Bool)
    → number (parity a b c) + 2 * number (carry a b c) ≡ number a + number b + number c
unfolding xor_bool
full_adder true true true = refl
full_adder true true false = refl
full_adder true false true = refl
full_adder true false false = refl
full_adder false true true = refl
full_adder false true false = refl
full_adder false false true = refl
full_adder false false false = refl

difference_bits : (a b d : Bool) → xor_bool (xor_bool (xor_bool true b) a) d ≡ parity a (not b) d
unfolding xor_bool
difference_bits true true d = refl
difference_bits true false d = refl
difference_bits false true d = refl
difference_bits false false d = refl

borrow_bits :
    (a b d : Bool) → xor_bool (xor_bool a d && xor_bool true (xor_bool b d)) d ≡ carry a (not b) d
unfolding xor_bool
borrow_bits a true true = refl
borrow_bits a true false = refl
borrow_bits a false true = refl
borrow_bits a false false = refl

module _ {ℓ} {A : Type ℓ} ⦃f : Field A⦄ where
  -- Sharings of the bits of a number.
  pub data AllBits : List (Sharing A) → List Bool → Type ℓ where
    none : AllBits [] []
    more :
        {s : Sharing A} {b : Bool} {ss : List (Sharing A)} {bs : List Bool}
        → Shares s (bit b)
        → AllBits ss bs
        → AllBits (s ∷ ss) (b ∷ bs)

  pub length-AllBits :
      {ss : List (Sharing A)} {bs : List Bool} → AllBits ss bs → length ss ≡ length bs
  length-AllBits none = refl
  length-AllBits (more h hs) = ap suc (length-AllBits hs)

  -- What the helpers hold after one bit: two sharings, of a bit and of a carry.
  abbrev pub ComputesBits : Outcome (Sharing A × Sharing A) → Bool → Bool → Type ℓ
  ComputesBits o s c =
      (x : Sharing A) × (y : Sharing A) × (o ≡ done (x, y)) × Shares x (bit s) × Shares y (bit c)

module _ {ℓ} {A : Type ℓ} ⦃f : Field A⦄ (r : IsRing A) where
  pub zero-Shares : Shares zero_sharing (bit {A = A} false)
  zero-Shares = record {
    replicated = of_parts-IsReplicated 𝟘 𝟘 𝟘;
    shared = r.add_zero (𝟘 ⊕ 𝟘) ∙ r.add_zero 𝟘;
  }

  pub bit-mul : (a b : Bool) → bit a ⊗ bit b ≡ bit {A = A} (a && b)
  unfolding normalise
  bit-mul true true = r.mul_one 𝟙
  bit-mul true false = solve r (values []) (𝟙 ⊗ 𝟘) 𝟘 refl
  bit-mul false true = r.mul_one 𝟘
  bit-mul false false = solve r (values []) (𝟘 ⊗ 𝟘) 𝟘 refl

module _ {ℓ} {A : Type ℓ} ⦃f : Field A⦄ (r : IsRing A) (two_zero : ◌≡◌ {A = A} (𝟙 ⊕ 𝟙) 𝟘) where
  bit-add : (a b : Bool) → bit a ⊕ bit b ≡ bit {A = A} (xor_bool a b)
  unfolding xor_bool
  bit-add true true = two_zero
  bit-add true false = r.add_zero 𝟙
  bit-add false true = r.add_comm 𝟘 𝟙 ∙ r.add_zero 𝟙
  bit-add false false = r.add_zero 𝟘

  xor-Shares :
      (s t : Sharing A) (a b : Bool)
      → Shares s (bit a)
      → Shares t (bit b)
      → Shares (zip_three add s t) (bit (xor_bool a b))
  xor-Shares s t a b h k = subst (Shares (zip_three add s t)) (bit-add a b) (add-Shares r s t h k)

  difference : Sharing A → Sharing A → Sharing A → Sharing A
  difference x y c = zip_three add (zip_three add (zip_three add (known 𝟙) y) x) c

  difference-Shares :
      (x y c : Sharing A) (a b d : Bool)
      → Shares x (bit a)
      → Shares y (bit b)
      → Shares c (bit d)
      → Shares (difference x y c) (bit (parity a (not b) d))
  unfolding difference
  difference-Shares x y c a b d hx hy hc =
      subst (λ e. Shares (difference x y c) (bit e)) (difference_bits a b d)
        (xor-Shares (zip_three add (zip_three add (known 𝟙) y) x) c (xor_bool (xor_bool true b) a) d
          (xor-Shares (zip_three add (known 𝟙) y) x (xor_bool true b) a
            (xor-Shares (known 𝟙) y true b (share_known_value-Shares r 𝟙) hy) hx)
          hc)

  module _ (dec : Discrete A) (debug : Bool) (prss : Sharing A) (hp : IsReplicated prss) where
    pub one_bit_adder_lem :
        (x y c : Sharing A) (a b d : Bool)
        → Shares x (bit a)
        → Shares y (bit b)
        → Shares c (bit d)
        → ComputesBits (one_bit_adder dec debug prss x y c) (parity a b d) (carry a b d)
    unfolding one_bit_adder
    one_bit_adder_lem x y c a b d hx hy hc =
        >>=-Computes (λ o. ComputesBits {A = A} o (parity a b d) (carry a b d))
          (mul dec debug (zip_three add x c) (zip_three add y c) prss)
          (λ p. done (zip_three add (zip_three add x y) c, zip_three add p c))
          (mul-Computes r dec debug (zip_three add x c) (zip_three add y c) prss
            (xor-Shares x c a d hx hc) (xor-Shares y c b d hy hc) hp)
          (λ p h. (
            zip_three add (zip_three add x y) c,
            zip_three add p c,
            refl,
            xor-Shares (zip_three add x y) c (xor_bool a b) d (xor-Shares x y a b hx hy) hc,
            xor-Shares p c (xor_bool a d && xor_bool b d) d (subst (Shares p) (bit-mul r _ _) h) hc,
          ))

    pub one_bit_subtractor_lem :
        (x y c : Sharing A) (a b d compute : Bool)
        → Shares x (bit a)
        → Shares y (bit b)
        → Shares c (bit d)
        → ComputesBits
            (one_bit_subtractor dec debug prss x y c compute)
            (parity a (not b) d)
            (if compute then carry a (not b) d else d)
    unfolding one_bit_subtractor difference
    one_bit_subtractor_lem x y c a b d false hx hy hc =
        (difference x y c, c, refl, difference-Shares x y c a b d hx hy hc, hc)
    one_bit_subtractor_lem x y c a b d true hx hy hc =
        >>=-Computes (λ o. ComputesBits {A = A} o (parity a (not b) d) (carry a (not b) d))
          (mul dec debug (zip_three add x c) (zip_three add (known 𝟙) (zip_three add y c)) prss)
          (λ p. done (difference x y c, zip_three add p c))
          (mul-Computes r dec debug (zip_three add x c)
            (zip_three add (known 𝟙) (zip_three add y c)) prss (xor-Shares x c a d hx hc)
            (xor-Shares (known 𝟙) (zip_three add y c) true (xor_bool b d)
              (share_known_value-Shares r 𝟙) (xor-Shares y c b d hy hc))
            hp)
          (λ p h. (
            difference x y c,
            zip_three add p c,
            refl,
            difference-Shares x y c a b d hx hy hc,
            subst (λ e. Shares (zip_three add p c) (bit e)) (borrow_bits a b d)
                (xor-Shares p c (xor_bool a d && xor_bool true (xor_bool b d)) d
                  (subst (Shares p) (bit-mul r _ _) h) hc),
          ))
