-- ===== src/Tests/Comparisons.antt =====
-- The numbers 5 and 19, in three and six bits, over the field of 31 elements.
use raw_ipa.Prelude.{
  ℕ, ◌%◌, ◌^◌, ◌+◌, ◌≤◌, ◌<◌, ◌≡◌, refl, Bool, true, false, List, [], ◌∷◌, ltb, arith,
}
use raw_ipa.Ff.PrimeField.{truncate_from}
use raw_ipa.Ff.PrimeField.Ring.{Fp31, Fp31_field, raw-Fp31}
use raw_ipa.SecretSharing.Sharing.{Sharing}
use raw_ipa.Protocol.Computes.{Computes}
use raw_ipa.Protocol.Boolean.Xor.{bit}
use raw_ipa.Protocol.Boolean.SaturatingSum.Bits.{AllBits, none, more}
use raw_ipa.Protocol.Boolean.Comparison.{
  RandomBitsShare, bitwise_greater_than_constant, compute_r_bounds, evaluate, greater_than_constant,
}
use raw_ipa.Protocol.Boolean.Comparison.Constant.{bitwise_greater_than_constant-Computes}
use raw_ipa.Protocol.Boolean.Comparison.Interval.{compute_r_bounds_lem}
use raw_ipa.Protocol.Boolean.Comparison.Greater.{
  IsModular, IsRandomBits, greater_than_constant-Computes,
}
use raw_ipa.Tests.{el, is_ring, fp31_discrete, dealt, dealt-Shares, noise, noise-IsReplicated}

abbrev five : List Bool
five = true ∷ false ∷ true ∷ []

abbrev nineteen : List Bool
nineteen = true ∷ true ∷ false ∷ false ∷ true ∷ false ∷ []

abbrev pub dealt_bits : List Bool → List (Sharing Fp31)
dealt_bits [] = []
dealt_bits (b ∷ bs) = dealt (bit b) ∷ dealt_bits bs

pub dealt_bits-AllBits : (bs : List Bool) → AllBits (dealt_bits bs) bs
dealt_bits-AllBits [] = none
dealt_bits-AllBits (b ∷ bs) = more (dealt-Shares (bit b)) (dealt_bits-AllBits bs)

abbrev pub steps : ℕ → Sharing Fp31
steps i = noise

-- 11 has more bits than 5 is given, and its low three bits are 3.
bitwise_greater_than_constant-Computes_example :
    Computes
      (bitwise_greater_than_constant fp31_discrete true steps noise (dealt_bits five) 11)
      (bit (ltb (11 % 2 ^ 3) 5))
bitwise_greater_than_constant-Computes_example =
    bitwise_greater_than_constant-Computes is_ring fp31_discrete true steps
      (λ i. noise-IsReplicated) noise noise-IsReplicated (dealt_bits five) five 11
      (dealt_bits-AllBits five) (omega arith) (omega arith)

compute_r_bounds_lem_example :
    (evaluate (compute_r_bounds ((19 + 20) % 31) 7 31) 19 ≡ ltb 7 20)
    × ((compute_r_bounds ((19 + 20) % 31) 7 31).r_lo < 31)
    × ((compute_r_bounds ((19 + 20) % 31) 7 31).r_hi ≤ 31)
compute_r_bounds_lem_example =
    compute_r_bounds_lem 20 19 7 31 (omega arith) (omega arith) (omega arith)

abbrev as_number : Fp31 → ℕ
as_number x = x.raw

fp31-IsModular : IsModular Fp31 as_number 31
fp31-IsModular = record { is_below = λ a. a.below; is_sum = λ a b. raw-Fp31 a b }

abbrev mask : RandomBitsShare Fp31
mask = record { b_b = dealt_bits nineteen; b_p = dealt (el 19) }

mask-IsRandomBits : IsRandomBits as_number 31 mask
unfolding truncate_from
mask-IsRandomBits = record {
  random = el 19;
  bits = nineteen;
  shares_b_p = dealt-Shares (el 19);
  shares_b_b = dealt_bits-AllBits nineteen;
  same_number = refl;
  some_bits = omega arith;
  few_bits = omega arith;
  enough_bits = omega arith;
}

greater_than_constant-Computes_example :
    Computes
      (greater_than_constant fp31_discrete true as_number 31 steps steps noise noise noise mask
        (dealt (el 20))
        7)
      (bit (ltb 7 20))
unfolding truncate_from
greater_than_constant-Computes_example =
    greater_than_constant-Computes is_ring fp31_discrete true as_number 31 fp31-IsModular steps
      steps noise noise noise (λ i. noise-IsReplicated) (λ i. noise-IsReplicated) noise-IsReplicated
      noise-IsReplicated noise-IsReplicated mask mask-IsRandomBits (dealt (el 20)) 7 (el 20)
      (omega arith) (dealt-Shares (el 20))
