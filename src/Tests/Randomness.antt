-- ===== src/Tests/Randomness.antt =====
-- Keys that are numbers, with a commutative product for the exchange of keys.
use raw_ipa.Prelude.{ℕ, ◌+◌, ◌*◌, ◌≡◌, refl, true, [], ◌∷◌, none, ℕ_discrete, arith}
use raw_ipa.Ff.PrimeField.Ring.{Fp31_field}
use raw_ipa.Helpers.Role.{Three, h1, h2, h3}
use raw_ipa.Protocol.Exchange.{done}
use raw_ipa.Protocol.Prss.{
  Crypto, indexed_item, Endpoint, EndpointSetup, generate_values, indexed, insert_used, sequential,
  negotiate_all,
}
use raw_ipa.Protocol.Prss.Agreement.{new_gate, drawn}
use raw_ipa.Protocol.Prss.History.{begins}
use raw_ipa.Protocol.Prss.Reuse.{generate_values-once}
use raw_ipa.Protocol.Prss.Sharing.{
  IsSymmetric, Distinct, Paired, negotiate_all-Paired, Draws, generate_values-Draws,
}
use raw_ipa.Tests.{el, is_ring}

abbrev toy : Crypto
toy = record {
  Secret = ℕ;
  Public = ℕ;
  Shared = ℕ;
  Key = ℕ;
  Gate = ℕ;
  public_key = λ s. 7 * s;
  diffie_hellman = λ s k. s * k;
  expand = λ s g. 31 * s + g;
  encrypt = λ k i. k + i;
}

toy-IsSymmetric : IsSymmetric toy
toy-IsSymmetric = record { agree = λ a b. grind arith }

abbrev setups : Three (EndpointSetup toy)
setups = record {
  first = record { left = 2; right = 3 };
  second = record { left = 4; right = 5 };
  third = record { left = 6; right = 8 };
}

setups-Distinct : Distinct toy setups
setups-Distinct = record {
  first_second = λ e. omega (arith, e);
  second_third = λ e. omega (arith, e);
  third_first = λ e. omega (arith, e);
}

negotiate_all-Paired_example :
    (es : Three (Endpoint toy)) × (negotiate_all toy ℕ_discrete true setups ≡ done es)
    × Paired toy es
negotiate_all-Paired_example =
    negotiate_all-Paired toy ℕ_discrete true setups toy-IsSymmetric setups-Distinct

-- What these setups negotiate.
abbrev endpoints : Three (Endpoint toy)
endpoints = record {
  first = record { left = 112; right = 84; items = [] };
  second = record { left = 84; right = 210; items = [] };
  third = record { left = 210; right = 112; items = [] };
}

endpoints-Paired : Paired toy endpoints
endpoints-Paired = record {
  first_second = refl;
  second_third = refl;
  third_first = refl;
  unasked = elim [ h1 ↦ refl | h2 ↦ refl | h3 ↦ refl ];
}

generate_values-Draws_example : Draws toy ℕ_discrete true is_ring el 1 20 endpoints
generate_values-Draws_example =
    generate_values-Draws toy ℕ_discrete true is_ring el 1 20 endpoints endpoints endpoints-Paired
      (λ r. begins) (elim [ h1 ↦ new_gate refl | h2 ↦ new_gate refl | h3 ↦ new_gate refl ])

abbrev quiet : Endpoint toy
quiet = record { left = 56; right = 84; items = [] }

abbrev after_one : Endpoint toy
after_one = record {
  left = 56;
  right = 84;
  items = (1, indexed_item (record { left = 1737; right = 2605; used = 20 ∷ [] })) ∷ [];
}

generate_values-once_example :
    (generate_values toy ℕ_discrete true 1 20 after_one ≡ none)
    × (sequential toy ℕ_discrete 1 after_one ≡ none)
unfolding generate_values indexed insert_used ℕ_discrete
generate_values-once_example =
    generate_values-once toy ℕ_discrete 1 20 quiet after_one after_one
      (drawn toy ℕ_discrete true quiet 1 20) (omega arith) refl begins
