-- ===== src/Tests/Sums.antt =====
-- A saturating sum of two bits, over the field of two elements.
use raw_ipa.Prelude.{
  ◌==◌, ℕ, ◌+◌, ◌%◌, ◌^◌, ◌≡◌, refl, Bool, true, false, List, [], ◌∷◌, length, take, arith,
}
use raw_ipa.Algebra.{Field, IsRing, 𝟘, 𝟙, ◌⊕◌}
use raw_ipa.Ff.PrimeField.{Params, IsSound, add_raw}
use raw_ipa.Ff.PrimeField.Ring.{
  Element, Element-discrete, element_field, element_field-IsRing, eq_of_raw,
}
use raw_ipa.SecretSharing.Sharing.{Sharing, IsReplicated, of_parts, of_parts-IsReplicated}
use raw_ipa.Protocol.Exchange.{done}
use raw_ipa.Protocol.Computes.{Computes}
use raw_ipa.Protocol.Boolean.Zeroes.{bitwise_equal_gf2}
use raw_ipa.Protocol.Boolean.Zeroes.Equal.{bitwise_equal_gf2-Computes}
use raw_ipa.Protocol.Basics.KnownValue.{known, share_known_value-Shares}
use raw_ipa.Protocol.Boolean.Xor.{bit}
use raw_ipa.Protocol.Boolean.SaturatingSum.{
  SaturatingSum, add_value, truncated_delta_to_saturation_point,
}
use raw_ipa.Protocol.Boolean.SaturatingSum.Bits.{from_bits, AllBits, none, more}
use raw_ipa.Protocol.Boolean.SaturatingSum.Correct.{add_value-Computes, ComputesSaturating}
use raw_ipa.Protocol.Boolean.SaturatingSum.Delta.{truncated_delta-Computes}

abbrev two : Params
two = record { bits = 8; prime = 2 }

two-IsSound : IsSound two
two-IsSound = record {
  at_least_two = omega arith;
  fits_store = omega arith;
  fits_u32 = omega arith;
}

instance two_field : Field (Element two)
two_field = element_field two two-IsSound

two_laws : IsRing (Element two)
unfolding two_field
two_laws = element_field-IsRing two two-IsSound

two_discrete : Discrete (Element two)
two_discrete = Element-discrete two

two_vanishes : ◌≡◌ {A = Element two} (𝟙 ⊕ 𝟙) 𝟘
unfolding two_field add_raw
two_vanishes = eq_of_raw refl

abbrev random_bits : ℕ → Sharing (Element two)
random_bits i = of_parts 𝟙 𝟘 𝟙

random_bits-IsReplicated : (i : ℕ) → IsReplicated (random_bits i)
random_bits-IsReplicated i = of_parts-IsReplicated 𝟙 𝟘 𝟙

-- 3 of at most 3.
abbrev full : SaturatingSum (Element two)
full = record { sum = known (bit true) ∷ known (bit true) ∷ []; is_saturated = known (bit false) }

full-AllBits : AllBits full.sum (true ∷ true ∷ [])
full-AllBits =
    more (share_known_value-Shares two_laws (bit true))
      (more (share_known_value-Shares two_laws (bit true)) none)

add_value-Computes_example :
    ComputesSaturating
      (add_value two_discrete true random_bits full (known (bit true) ∷ []))
      2
      (from_bits (true ∷ true ∷ []) + from_bits (true ∷ []))
      false
add_value-Computes_example =
    add_value-Computes two_laws two_vanishes two_discrete true random_bits random_bits-IsReplicated
      full (known (bit true) ∷ []) (true ∷ true ∷ []) (true ∷ []) false full-AllBits
      (more (share_known_value-Shares two_laws (bit true)) none)
      (share_known_value-Shares two_laws (bit false)) (omega arith)

truncated_delta-Computes_example :
    (zs : List (Sharing (Element two))) × (bs : List Bool) × (truncated_delta_to_saturation_point
        two_discrete true random_bits full 2
      ≡ done zs)
    × AllBits zs bs
    × (length bs ≡ 2)
    × ((from_bits bs + from_bits (take 2 (true ∷ true ∷ []))) % 2 ^ 2 ≡ 0)
truncated_delta-Computes_example =
    truncated_delta-Computes two_laws two_vanishes two_discrete true random_bits
      random_bits-IsReplicated full (true ∷ true ∷ []) 2 full-AllBits (omega arith)

-- Twice the number 3, in two bits.
bitwise_equal_gf2-Computes_example :
    Computes
      (bitwise_equal_gf2 two_discrete true random_bits full.sum full.sum)
      (bit (from_bits (true ∷ true ∷ []) == from_bits (true ∷ true ∷ [])))
bitwise_equal_gf2-Computes_example =
    bitwise_equal_gf2-Computes two_laws two_discrete true random_bits random_bits-IsReplicated
      two_vanishes full.sum full.sum (true ∷ true ∷ []) (true ∷ true ∷ []) full-AllBits full-AllBits
      refl (omega arith)
