-- ===== src/Tests/Products.antt =====
-- Multiplications at concrete inputs.
use raw_ipa.Prelude.{◌≡◌, refl, true, false, ◌&&◌, [], ◌∷◌}
use raw_ipa.Algebra.{𝟘, ◌⊕◌, ◌⊗◌}
use raw_ipa.Ff.PrimeField.Ring.{Fp31, Fp31_field}
use raw_ipa.SecretSharing.Sharing.{Sharing, Shares, of_parts, of_parts-IsReplicated}
use raw_ipa.Protocol.Computes.{Computes}
use raw_ipa.Protocol.Basics.ZeroPositions.{pvzz, pvvz, is_pointless}
use raw_ipa.Protocol.Basics.Mul.{multiply_all}
use raw_ipa.Protocol.Basics.Mul.Sparse.{Conforms}
use raw_ipa.Protocol.Basics.Mul.Debug.{multiply-Computes}
use raw_ipa.Protocol.Basics.KnownValue.{known, share_known_value, share_known_value-Shares}
use raw_ipa.Protocol.Basics.SumOfProducts.{
  Pairs, AllShares, none, more, dot, sum_of_products_all, sum_of_products-Computes,
}
use raw_ipa.Tests.{el, is_ring, fp31_discrete, dealt, dealt-Shares, noise, noise-IsReplicated}

abbrev flat : Sharing Fp31
flat = of_parts (el 8) (el 14) 𝟘

known-Conforms : Conforms pvzz (known (el 5))
unfolding share_known_value
known-Conforms = record { first_zero = λ e. cc; second_zero = λ e. refl; third_zero = λ e. refl }

flat-Conforms : Conforms pvvz flat
flat-Conforms = record { first_zero = λ e. cc; second_zero = λ e. cc; third_zero = λ e. refl }

flat-Shares : Shares flat (el 8 ⊕ el 14 ⊕ 𝟘)
flat-Shares = record { replicated = of_parts-IsReplicated (el 8) (el 14) 𝟘; shared = refl }

needs_work : (true && is_pointless pvzz pvvz) ≡ false
unfolding is_pointless
needs_work = refl

multiply-Computes_example :
    Computes
      (multiply_all fp31_discrete true (pvzz, pvvz) (known (el 5)) flat noise)
      (el 5 ⊗ (el 8 ⊕ el 14 ⊕ 𝟘))
multiply-Computes_example =
    multiply-Computes is_ring fp31_discrete true pvzz pvvz (known (el 5)) flat noise needs_work
      known-Conforms flat-Conforms (share_known_value-Shares is_ring (el 5)) flat-Shares
      noise-IsReplicated

abbrev vectors : Pairs (Sharing Fp31)
vectors = (dealt (el 2), dealt (el 3)) ∷ (dealt (el 30), dealt (el 7)) ∷ []

vectors-AllShares : AllShares vectors ((el 2, el 3) ∷ (el 30, el 7) ∷ [])
vectors-AllShares =
    more (dealt-Shares (el 2)) (dealt-Shares (el 3))
      (more (dealt-Shares (el 30)) (dealt-Shares (el 7)) none)

sum_of_products-Computes_example :
    Computes (sum_of_products_all vectors noise) (dot ((el 2, el 3) ∷ (el 30, el 7) ∷ []))
sum_of_products-Computes_example =
    sum_of_products-Computes is_ring vectors ((el 2, el 3) ∷ (el 30, el 7) ∷ []) noise
      vectors-AllShares noise-IsReplicated
