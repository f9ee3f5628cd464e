-- ===== src/Protocol/Boolean/Comparison.antt =====
-- src/protocol/boolean/comparison.rs: the comparison of a shared value with a value that all helpers
-- know.
pub mod Plain
pub mod FirstBit
pub mod Constant
pub mod Interval
pub mod Greater
use raw_ipa.Prelude.{
  ℕ, suc, ◌+◌, ◌-◌, ◌/◌, ◌%◌, ◌^◌, Bool, true, false, List, [], ◌∷◌, not, ◌&&◌, reverse, length,
  leb, ltb, ◌==◌, if◌then◌else◌,
}
use raw_ipa.Algebra.{Field, 𝟙}
use mathlib.Core.Logic.{ite}
use raw_ipa.Helpers.Role.{Three, zip_three}
use raw_ipa.SecretSharing.Replicated.{add, sub}
use raw_ipa.SecretSharing.Sharing.{Sharing}
use raw_ipa.Protocol.Exchange.{Outcome, panic, done, ◌>>=◌}
use raw_ipa.Protocol.Basics.SumOfProducts.{Pairs, sum_of_products_all}
use raw_ipa.Protocol.Basics.KnownValue.{known}
use raw_ipa.Protocol.Basics.SecureMul.{mul}
use raw_ipa.Protocol.Basics.Reveal.{reveal_all}
use raw_ipa.Protocol.Boolean.Or.{or}

-- `((b >> i) & 1) == 0`
abbrev pub is_zero_at : ℕ → ℕ → Bool
is_zero_at b i = ((b / 2 ^ i) % 2) == 0

-- The vectors of `sum_of_products`, pair by pair.
abbrev pub zip_pairs {ℓ} : {A : Type ℓ} → List A → List A → Pairs A
zip_pairs [] ys = []
zip_pairs (x ∷ xs) [] = []
zip_pairs (x ∷ xs) (y ∷ ys) = (x, y) ∷ zip_pairs xs ys

module _ {ℓ} {A : Type ℓ} ⦃f : Field A⦄ where
  -- `one - bit`
  abbrev pub flipped : Sharing A → Sharing A
  flipped a = zip_three sub (known 𝟙) a

  -- `xored_bits`, from bit `i`.
  unfoldable pub xored_bits : ℕ → ℕ → List (Sharing A) → List (Sharing A)
  xored_bits b i [] = []
  xored_bits b i (a ∷ bits) = (if is_zero_at b i then a else flipped a) ∷ xored_bits b (suc i) bits

  unfoldable pub flip_bits : List (Sharing A) → List (Sharing A)
  flip_bits [] = []
  flip_bits (a ∷ bits) = flipped a ∷ flip_bits bits

module _ {ℓ} {A : Type ℓ} ⦃f : Field A⦄ (dec : Discrete A) (debug : Bool)
    (prss : ℕ → Sharing A) where
  -- The loop of `first_differing_bit`, over the bits after the first of the reversed list. `prss` is
  -- the randomness of each step.
  unfoldable pub differences : ℕ → Sharing A → List (Sharing A) → Outcome (List (Sharing A))
  differences i previous_bit [] = done []
  differences i previous_bit (bit ∷ bits) = do
    result ← or dec debug (prss i) previous_bit bit
    rest ← differences (suc i) result bits
    done (zip_three sub result previous_bit ∷ rest)

  -- `first_differing_bit`, from the last of the xored bits; there is none to unwrap in no bits.
  unfoldable pub from_last : List (Sharing A) → Outcome (List (Sharing A))
  from_last [] = panic
  from_last (previous_bit ∷ bits) = do
    rest ← differences 0 previous_bit bits
    done (reverse (previous_bit ∷ rest))

  unfoldable pub first_differing_bit : List (Sharing A) → ℕ → Outcome (List (Sharing A))
  first_differing_bit a b = from_last (reverse (xored_bits b 0 a))

  -- `bitwise_greater_than_constant`; `dot_prss` is the randomness of its last step.
  unfoldable pub bitwise_greater_than_constant :
      Sharing A → List (Sharing A) → ℕ → Outcome (Sharing A)
  bitwise_greater_than_constant dot_prss a c =
      if leb (length a) 128
      then (do
        first_diff_bit ← first_differing_bit a c
        sum_of_products_all (zip_pairs first_diff_bit a) dot_prss)
      else panic

  unfoldable pub bitwise_less_than_constant : Sharing A → List (Sharing A) → ℕ → Outcome (Sharing A)
  bitwise_less_than_constant dot_prss a c =
      if leb (length a) 128
      then (do
        first_diff_bit ← first_differing_bit a c
        sum_of_products_all (zip_pairs first_diff_bit (flip_bits a)) dot_prss)
      else panic

-- `RBounds`
pub record RBounds : Type 0 where
  pub r_lo : ℕ
  pub r_hi : ℕ
  pub invert : Bool

unfoldable pub compute_r_bounds : ℕ → ℕ → ℕ → RBounds
compute_r_bounds b c p =
    if ltb c b
    then record { r_lo = b - c - 1; r_hi = b + 1; invert = true }
    else record { r_lo = b; r_hi = p + b - c; invert = false }

-- `RBounds::evaluate`
unfoldable pub evaluate : RBounds → ℕ → Bool
evaluate bounds r =
    if bounds.invert
    then not (ltb bounds.r_lo r && ltb r bounds.r_hi)
    else ltb bounds.r_lo r && ltb r bounds.r_hi

-- `RandomBitsShare` (src/protocol/boolean/solved_bits.rs): a random value, bit by bit and as it is.
pub record RandomBitsShare {ℓ} (A : Type ℓ) : Type ℓ where
  pub b_b : List (Sharing A)
  pub b_p : Sharing A

module _ {ℓ} {A : Type ℓ} ⦃f : Field A⦄ (dec : Discrete A) (debug : Bool) (as_u128 : A → ℕ)
    (prime : ℕ) (lo_prss hi_prss : ℕ → Sharing A)
    (lo_dot_prss hi_dot_prss and_prss : Sharing A) where
  -- The rest of `greater_than_constant`, once the masked value is open.
  unfoldable pub compare_masked : RandomBitsShare A → ℕ → A → Outcome (Sharing A)
  compare_masked r c b =
      let bounds = compute_r_bounds (as_u128 b) c prime in
      (do
        r_gt_r_lo ← bitwise_greater_than_constant dec debug lo_prss lo_dot_prss r.b_b bounds.r_lo
        r_lt_r_hi ← bitwise_less_than_constant dec debug hi_prss hi_dot_prss r.b_b bounds.r_hi
        in_range ← mul dec debug r_gt_r_lo r_lt_r_hi and_prss
        done (if bounds.invert then flipped in_range else in_range))

  -- What the helpers do that were shown these values. If they were not shown the same, they would
  -- compare with different bounds, which is not modelled.
  unfoldable pub agreeing : Three A → (A → Outcome (Sharing A)) → Outcome (Sharing A)
  agreeing b next =
      ite (dec b.first b.second) (ite (dec b.second b.third) (next b.first) panic) panic

  -- `greater_than_constant`, with the random bits that were generated for it; a failed assertion
  -- where `c` is not below the prime.
  unfoldable pub greater_than_constant : RandomBitsShare A → Sharing A → ℕ → Outcome (Sharing A)
  greater_than_constant r a c =
      if ltb c prime
      then (do b ← reveal_all (zip_three add r.b_p a); agreeing b (compare_masked r c))
      else panic
