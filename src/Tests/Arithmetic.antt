-- ===== src/Tests/Arithmetic.antt =====
-- Roles, assignments and field elements at concrete inputs.
use raw_ipa.Prelude.{◌%◌, ◌^◌, ◌≤◌, ◌<◌, ◌≡◌, ◌⊎◌, some, none, arith}
use raw_ipa.Helpers.Role.{h1, h2, h3}
use raw_ipa.Helpers.Assignment.{
  one, two, three, try_from_pairs, try_from_pairs_lem, ok, identity, RoleAssignment,
}
use raw_ipa.Algebra.{IsRing}
use raw_ipa.Ff.PrimeField.{Params, fp31, fp32_bit_prime}
use raw_ipa.Ff.PrimeField
use raw_ipa.Ff.PrimeField.Ring.{
  Element, element_field, element_field-IsRing, from_u128, fp31-IsSound, fp32_bit_prime-IsSound,
}
use raw_ipa.Ff.PrimeField.Bytes
use raw_ipa.Ff.PrimeField.Bytes.{serialize, deserialize, deserialize-serialize}

try_from_pairs_example :
    (ra : RoleAssignment) × (try_from_pairs
        (record { first = (two, h3); second = (one, h1); third = (three, h2) })
      ≡ ok ra)
    × (identity ra h3 ≡ two)
    × (identity ra h1 ≡ one)
    × (identity ra h2 ≡ three)
try_from_pairs_example = try_from_pairs_lem two one three h3 h1 h2 (λ e. cc) (λ e. cc) (λ e. cc)

element_field-IsRing_example :
    IsRing (Element fp32_bit_prime) ⦃f = element_field fp32_bit_prime fp32_bit_prime-IsSound⦄
element_field-IsRing_example = element_field-IsRing fp32_bit_prime fp32_bit_prime-IsSound

try_from_element_example :
    ((37 < 2 ^ 8) × (PrimeField.try_from fp31 37 ≡ some (37 % 31)))
    ⊎ ((2 ^ 8 ≤ 37) × (PrimeField.try_from fp31 37 ≡ none))
try_from_element_example = Bytes.try_from-truncate_from fp31 fp31-IsSound 37 (omega arith)

deserialize-serialize_example :
    deserialize fp32_bit_prime
      (serialize fp32_bit_prime (from_u128 fp32_bit_prime fp32_bit_prime-IsSound 4294967290))
    ≡ some (from_u128 fp32_bit_prime fp32_bit_prime-IsSound 4294967290).raw
deserialize-serialize_example =
    deserialize-serialize fp32_bit_prime fp32_bit_prime-IsSound (omega arith) (omega arith)
      (from_u128 fp32_bit_prime fp32_bit_prime-IsSound 4294967290)
