-- ===== src/Tests/Malicious.antt =====
-- A computation that is validated, with an honest input and with one that was tampered with.
use raw_ipa.Prelude.{◌≡◌, refl, sym, ap, true, false, ◌&&◌, List, [], ◌∷◌}
use raw_ipa.Algebra.{◌⊗◌}
use raw_ipa.Ff.PrimeField.Ring.{Fp31, Fp31_field}
use raw_ipa.Helpers.Role.{Three, tabulate, at, zip_three}
use raw_ipa.SecretSharing.Malicious.{MaliciousShare, Authentic, x_of}
use raw_ipa.SecretSharing.Sharing.{value}
use raw_ipa.Protocol.Exchange.{done}
use raw_ipa.Protocol.Basics.ZeroPositions.{pvvv, is_pointless}
use raw_ipa.Protocol.Basics.SecureMul.{pvvv-Conforms}
use raw_ipa.Protocol.Basics.CheckZero.{is_zero}
use raw_ipa.Protocol.Context.Validator.{
  AccumulatorState, initial, accumulate_macs, Inputs, validate,
}
use raw_ipa.Protocol.Context.Macs.{Logged, Logs, answer}
use raw_ipa.Protocol.Context.Deviation.{
  deviation, Honest, finished, validate-deviation, validate-Honest,
}
use raw_ipa.Protocol.Context.MaliciousMul.{malicious_multiply, malicious_multiply-Authentic}
use raw_ipa.Tests.{
  el, is_ring, fp31_discrete, dealt, dealt-Shares, noise, noise-IsReplicated, same,
  same-IsExtension, carried, carried-Authentic,
}

-- `r` is 9, and the random constant of the input is 3.
abbrev honest : Inputs same
honest = (dealt (el 3), carried (el 9) (el 5)) ∷ []

abbrev honest_log : List (Logged Fp31 Fp31)
honest_log = record { alpha = el 3; x = el 5; rx = el 5 ⊗ el 9 } ∷ []

honest-Logs : Logs same honest honest_log
honest-Logs =
    Logs.more (dealt-Shares (el 3)) (dealt-Shares (el 5)) (dealt-Shares (el 5 ⊗ el 9)) Logs.none

-- An attacker has added to the first value.
abbrev tampered_value : Three (MaliciousShare Fp31 Fp31)
tampered_value = zip_three (λ s t. record { x = s; rx = t }) (dealt (el 6)) (dealt (el 5 ⊗ el 9))

abbrev tampered : Inputs same
tampered = (dealt (el 3), tampered_value) ∷ []

abbrev tampered_log : List (Logged Fp31 Fp31)
tampered_log = record { alpha = el 3; x = el 6; rx = el 5 ⊗ el 9 } ∷ []

tampered-Logs : Logs same tampered tampered_log
tampered-Logs =
    Logs.more (dealt-Shares (el 3)) (dealt-Shares (el 6)) (dealt-Shares (el 5 ⊗ el 9)) Logs.none

validate-deviation_example :
    validate same fp31_discrete true
      (dealt (el 9))
      noise
      noise
      (finished same noise noise tampered)
      tampered_value
    ≡ answer
        (is_zero fp31_discrete (value noise ⊗ deviation same (value (dealt (el 9))) tampered_log))
        tampered_value
validate-deviation_example =
    validate-deviation is_ring same-IsExtension fp31_discrete true noise noise (dealt (el 9)) noise
      noise noise-IsReplicated noise-IsReplicated (dealt-Shares (el 9)).replicated
      noise-IsReplicated noise-IsReplicated tampered tampered_log tampered_value tampered-Logs

honest_log-Honest : Honest same (value (dealt (el 9))) honest_log
honest_log-Honest = Honest.more (ap (λ y. el 5 ⊗ y) (sym (dealt-Shares (el 9)).shared)) Honest.none

validate-Honest_example :
    validate same fp31_discrete true
      (dealt (el 9))
      noise
      noise
      (finished same noise noise honest)
      (carried (el 9) (el 5))
    ≡ done (x_of (carried (el 9) (el 5)))
validate-Honest_example =
    validate-Honest is_ring same-IsExtension fp31_discrete true noise noise (dealt (el 9)) noise
      noise noise-IsReplicated noise-IsReplicated (dealt-Shares (el 9)).replicated
      noise-IsReplicated noise-IsReplicated honest honest_log (carried (el 9) (el 5)) honest-Logs
      honest_log-Honest

abbrev codes : Three (AccumulatorState Fp31)
codes = tabulate (λ role. initial (at noise role) (at noise role))

unrestricted : (true && is_pointless pvvv pvvv) ≡ false
unfolding is_pointless
unrestricted = refl

malicious_multiply-Authentic_example :
    (ab : Three (MaliciousShare Fp31 Fp31)) × (malicious_multiply same fp31_discrete fp31_discrete
        true
        (pvvv, pvvv)
        noise
        noise
        (dealt (el 3))
        (carried (el 9) (el 5))
        (carried (el 9) (el 6))
        codes
      ≡ done (
        ab,
        tabulate
            (λ role. accumulate_macs same (at (dealt (el 3)) role) (at ab role) (at codes role)),
      ))
    × Authentic same (el 9) ab (el 5 ⊗ el 6)
malicious_multiply-Authentic_example =
    malicious_multiply-Authentic is_ring is_ring same-IsExtension (el 9) fp31_discrete fp31_discrete
      true pvvv pvvv noise noise (dealt (el 3)) (carried (el 9) (el 5)) (carried (el 9) (el 6))
      codes unrestricted (pvvv-Conforms (x_of (carried (el 9) (el 5))))
      (pvvv-Conforms (x_of (carried (el 9) (el 6)))) (carried-Authentic (el 9) (el 5))
      (carried-Authentic (el 9) (el 6)) noise-IsReplicated noise-IsReplicated
