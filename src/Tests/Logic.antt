-- ===== src/Tests/Logic.antt =====
-- Numbers of five and six shared bits, over the field of 31 elements.
use raw_ipa.Prelude.{
  ℕ, ◌%◌, ◌^◌, refl, Bool, true, false, List, [], ◌∷◌, ltb, ◌==◌, arith, length, ◌≡◌, ◌+◌,
}
use raw_ipa.Ff.PrimeField.Ring.{Fp31, Fp31_field}
use raw_ipa.SecretSharing.Sharing.{Sharing}
use raw_ipa.Protocol.Computes.{Computes}
use raw_ipa.Protocol.Boolean.Xor.{bit}
use raw_ipa.Algebra.{𝟙, ◌⊕◌}
use raw_ipa.Protocol.Exchange.{done}
use raw_ipa.Protocol.Boolean.SaturatingSum.Bits.{AllBits, from_bits}
use raw_ipa.Protocol.Boolean.AddConstant.{add_constant}
use raw_ipa.Protocol.Boolean.AddConstant.Correct.{add_constant-Sums}
use raw_ipa.Protocol.Boolean.Zeroes.{multiply_rounds, bitwise_equal_constant}
use raw_ipa.Protocol.Boolean.Zeroes.Tree.{multiply_rounds-Computes}
use raw_ipa.Protocol.Boolean.Zeroes.Equal.{bitwise_equal_constant-Computes}
use raw_ipa.Protocol.Boolean.LessThanPrime.{Step, less_than_prime}
use raw_ipa.Protocol.Boolean.LessThanPrime.Plain.{mersenne}
use raw_ipa.Protocol.Boolean.LessThanPrime.Correct.{less_than_prime-Computes}
use raw_ipa.Tests.{is_ring, fp31_discrete, noise, noise-IsReplicated}
use raw_ipa.Tests.Comparisons.{dealt_bits, dealt_bits-AllBits, steps}

abbrev thirty_three : List Bool
thirty_three = true ∷ false ∷ false ∷ false ∷ false ∷ true ∷ []

abbrev five_ones : List Bool
five_ones = true ∷ true ∷ true ∷ true ∷ true ∷ []

abbrev noise_of : Step → ℕ → Sharing Fp31
noise_of s i = noise

-- Three rounds for five bits.
multiply_rounds-Computes_example :
    Computes (multiply_rounds fp31_discrete true steps 3 0 (dealt_bits five_ones)) (bit true)
multiply_rounds-Computes_example =
    multiply_rounds-Computes is_ring fp31_discrete true steps (λ i. noise-IsReplicated) 3 0
      (dealt_bits-AllBits five_ones) (omega arith) (omega arith)

bitwise_equal_constant-Computes_example :
    Computes
      (bitwise_equal_constant fp31_discrete true steps (dealt_bits thirty_three) 33)
      (bit (33 == (33 % 2 ^ 6)))
bitwise_equal_constant-Computes_example =
    bitwise_equal_constant-Computes is_ring fp31_discrete true steps (λ i. noise-IsReplicated)
      (dealt_bits thirty_three) thirty_three 33 (dealt_bits-AllBits thirty_three) (omega arith)
      (omega arith)

-- 33 has one bit more than the prime.
less_than_prime-Computes_example :
    Computes
      (less_than_prime fp31_discrete true 31 noise_of (dealt_bits thirty_three))
      (bit (ltb 33 31))
less_than_prime-Computes_example =
    less_than_prime-Computes is_ring fp31_discrete true 31 noise_of (λ s i. noise-IsReplicated) 5
      (dealt_bits thirty_three) thirty_three (mersenne (omega arith) (omega arith) refl)
      (dealt_bits-AllBits thirty_three) (omega arith)

-- 31 + 35, with the low five bits of 35, which are 3.
add_constant-Sums_example :
    (ts : List (Sharing Fp31)) × (ds : List Bool) × (add_constant fp31_discrete true
        (𝟙 ⊕ 𝟙)
        steps
        (dealt_bits five_ones)
        35
      ≡ done ts)
    × AllBits ts ds
    × (length ds ≡ 6)
    × (from_bits ds ≡ 31 + 35 % 2 ^ 5)
add_constant-Sums_example =
    add_constant-Sums is_ring fp31_discrete true (𝟙 ⊕ 𝟙) refl steps (λ i. noise-IsReplicated)
      (dealt_bits five_ones) five_ones 35 (dealt_bits-AllBits five_ones) (omega arith) (omega arith)
