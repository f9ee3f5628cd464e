-- ===== src/Tests/Sharings.antt =====
-- Sharings at concrete inputs.
use raw_ipa.Prelude.{◌≡◌, some}
use raw_ipa.Algebra.{◌⊕◌, ◌⊖◌, ◌⊗◌, ⊝◌}
use raw_ipa.Ff.PrimeField.Ring.{Fp31_field}
use raw_ipa.Helpers.Role.{map_three, zip_three}
use raw_ipa.SecretSharing.Malicious.{Authentic, add, sub, neg, mul, local-Authentic}
use raw_ipa.SecretSharing.Sharing.{share_with, reconstruct, reconstruct-share_with}
use raw_ipa.Tests.{el, is_ring, fp31_discrete, same, same-IsExtension, carried, carried-Authentic}

reconstruct-share_with_example :
    reconstruct fp31_discrete (share_with (el 11) (el 27) (el 5)) ≡ some (el 5)
reconstruct-share_with_example = reconstruct-share_with is_ring fp31_discrete (el 11) (el 27) (el 5)

local-Authentic_example :
    Authentic same
      (el 9)
      (zip_three add (carried (el 9) (el 5)) (carried (el 9) (el 6)))
      (el 5 ⊕ el 6)
    × Authentic same
        (el 9)
        (zip_three sub (carried (el 9) (el 5)) (carried (el 9) (el 6)))
        (el 5 ⊖ el 6)
    × Authentic same (el 9) (map_three neg (carried (el 9) (el 5))) (⊝ (el 5))
    × Authentic same
        (el 9)
        (map_three (λ u. mul same u (el 3)) (carried (el 9) (el 5)))
        (el 5 ⊗ el 3)
local-Authentic_example =
    local-Authentic is_ring is_ring same-IsExtension (el 9) (carried (el 9) (el 5))
      (carried (el 9) (el 6)) (el 3) (carried-Authentic (el 9) (el 5))
      (carried-Authentic (el 9) (el 6))
