-- ===== src/Tests/Protocols.antt =====
-- Runs of the basic protocols.
use raw_ipa.Prelude.{◌≡◌, refl, true, false, ◌⊎◌, inl, Option, some, none, if◌then◌else◌, ◌&&◌}
use raw_ipa.Algebra.{◌⊗◌}
use raw_ipa.Ff.PrimeField.Ring.{Fp31, Fp31_field}
use raw_ipa.Helpers.Role.{Role, h1, h2, h3, at}
use raw_ipa.SecretSharing.Sharing.{Sharing, Shares, value}
use raw_ipa.Protocol.Computes.{Computes}
use raw_ipa.Protocol.Exchange.{done, err, malicious_reveal_failed}
use raw_ipa.Protocol.Basics.ZeroPositions.{pvvv, is_pointless}
use raw_ipa.Protocol.Basics.Reveal.{reveal_malicious, reveal_to, reveal_malicious_safe}
use raw_ipa.Protocol.Basics.Reshare.{reshare_all, reshare_all-Computes}
use raw_ipa.Protocol.Basics.CheckZero.{all_say, is_zero, check_zero, check_zero_lem}
use raw_ipa.Protocol.Basics.IfElse.{if_else, if_else-Computes}
use raw_ipa.Protocol.Boolean.Xor.{bit}
use raw_ipa.Tests.{el, is_ring, fp31_discrete, dealt, dealt-Shares, noise, noise-IsReplicated}

-- H3, on the left of H1, sends a wrong part.
abbrev inbox : Role → Option Fp31
inbox h1 = none
inbox h2 = reveal_to h2 (at (dealt (el 5)) h2) h1
inbox h3 = some (el 17)

reveal_malicious_safe_example :
    ((reveal_malicious fp31_discrete h1 (at (dealt (el 5)) h1)).resume inbox ≡ done (el 5))
    ⊎ ((reveal_malicious fp31_discrete h1 (at (dealt (el 5)) h1)).resume inbox
        ≡ err malicious_reveal_failed)
reveal_malicious_safe_example =
    reveal_malicious_safe is_ring fp31_discrete h1 (dealt (el 5)) (el 17) inbox
      (dealt-Shares (el 5)) (inl (refl, refl))

reshare_all-Computes_example :
    (t : Sharing Fp31) × (reshare_all h2 noise (dealt (el 5)) ≡ done t)
    × Shares t (el 5)
    × (at t h2 ≡ at noise h2)
reshare_all-Computes_example =
    reshare_all-Computes is_ring h2 noise (dealt (el 5)) noise-IsReplicated (dealt-Shares (el 5))

check_zero_example :
    check_zero fp31_discrete true noise noise (dealt (el 5))
    ≡ done (all_say (is_zero fp31_discrete (value noise ⊗ el 5)))
check_zero_example =
    check_zero_lem is_ring fp31_discrete true noise noise (dealt (el 5)) noise-IsReplicated
      noise-IsReplicated (dealt-Shares (el 5))

if_else-Computes_example :
    Computes
      (if_else fp31_discrete true noise (dealt (bit true)) (dealt (el 5)) (dealt (el 6)))
      (if true then el 5 else el 6)
if_else-Computes_example =
    if_else-Computes is_ring fp31_discrete true noise (dealt (bit true)) (dealt (el 5))
      (dealt (el 6)) true noise-IsReplicated (dealt-Shares (bit true)) (dealt-Shares (el 5))
      (dealt-Shares (el 6))

unrestricted : (true && is_pointless pvvv pvvv) ≡ false
unfolding is_pointless
unrestricted = refl
