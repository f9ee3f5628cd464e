-- ===== src/Protocol/Basics/ZeroPositions.antt =====
-- src/protocol/basics/mul/sparse.rs: where the inputs of a multiplication are known to be zero, and
-- who has to send on that account.
use raw_ipa.Prelude.{◌+◌, ◌%◌, Bool, true, false, if◌then◌else◌}
use mathlib.Core.Logic.{ite}
use raw_ipa.Algebra.{Field, 𝟘}
use raw_ipa.Helpers.Role.{Three, Role, Direction, at, nth, peer, role_index}
use raw_ipa.SecretSharing.Replicated.{AdditiveShare}
use raw_ipa.Protocol.Exchange.{Outcome, panic, done, ◌>>=◌, ◌>>◌}

-- A letter for the left part of each helper in turn: `v` a value, `z` a zero.
pub data ZeroPositions : Type 0 where
  pvvv pzzv pzvz pvzz pvvz pvzv pzvv : ZeroPositions

abbrev pub MultiplyZeroPositions : Type 0
MultiplyZeroPositions = ZeroPositions × ZeroPositions

abbrev triple : Bool → Bool → Bool → Three Bool
triple a b c = record { first = a; second = b; third = c }

-- `From<ZeroPositions> for [bool; 3]`: true where a zero is known.
abbrev pub flags : ZeroPositions → Three Bool
flags pvvv = triple false false false
flags pzzv = triple true true false
flags pzvz = triple true false true
flags pvzz = triple false true true
flags pvvz = triple false false true
flags pvzv = triple false true false
flags pzvv = triple true false false

-- `ZeroPositions::work`, the match arm by arm. A build with debug assertions panics on a
-- multiplication that needs no communication; another build does no work for it.
unfoldable pub work : Bool → ZeroPositions → ZeroPositions → Outcome (Three Bool)
work debug pvzz pvzz = if debug then panic else done (triple false false false)
work debug pzvz pzvz = if debug then panic else done (triple false false false)
work debug pzzv pzzv = if debug then panic else done (triple false false false)
work debug pzvv pzvv = done (triple false false true)
work debug pzvz pzvv = done (triple false false true)
work debug pzzv pzvv = done (triple false false true)
work debug pzvv pzvz = done (triple false false true)
work debug pzzv pzvz = done (triple false false true)
work debug pzvv pzzv = done (triple false false true)
work debug pzvz pzzv = done (triple false false true)
work debug pvvz pvvz = done (triple false true false)
work debug pvzz pvvz = done (triple false true false)
work debug pzvz pvvz = done (triple false true false)
work debug pvvz pvzz = done (triple false true false)
work debug pzvz pvzz = done (triple false true false)
work debug pvvz pzvz = done (triple false true false)
work debug pvzz pzvz = done (triple false true false)
work debug pvvv pzvz = done (triple false true true)
work debug pvzv pzvz = done (triple false true true)
work debug pzvz pvvv = done (triple false true true)
work debug pzvz pvzv = done (triple false true true)
work debug pvzv pvzv = done (triple true false false)
work debug pvzz pvzv = done (triple true false false)
work debug pzzv pvzv = done (triple true false false)
work debug pvzv pvzz = done (triple true false false)
work debug pzzv pvzz = done (triple true false false)
work debug pvzv pzzv = done (triple true false false)
work debug pvzz pzzv = done (triple true false false)
work debug pvvv pzzv = done (triple true false true)
work debug pvvz pzzv = done (triple true false true)
work debug pzzv pvvv = done (triple true false true)
work debug pzzv pvvz = done (triple true false true)
work debug pvvv pvzz = done (triple true true false)
work debug pzvv pvzz = done (triple true true false)
work debug pvzz pvvv = done (triple true true false)
work debug pvzz pzvv = done (triple true true false)
work debug _ _ = done (triple true true true)

-- `ZeroPositions::is_pointless`.
unfoldable pub is_pointless : ZeroPositions → ZeroPositions → Bool
is_pointless pvzz pvzz = true
is_pointless pzvz pzvz = true
is_pointless pzzv pzzv = true
is_pointless _ _ = false

-- What one helper has to do.
pub record Work : Type 0 where
  pub need_to_recv : Bool
  pub need_to_send : Bool
  pub need_random_right : Bool

-- `MultiplyWork::work_for`.
unfoldable pub work_for : Bool → MultiplyZeroPositions → Role → Outcome Work
unfolding work
work_for debug (za, zb) role = work debug za zb >>= λ w. done (record {
  need_to_recv = nth w (role_index role % 3);
  need_to_send = nth w ((role_index role + 1) % 3);
  need_random_right = nth w ((role_index role + 2) % 3);
})

-- The match of `ZeroPositions::mul_output` on the work to do.
abbrev output_of : Bool → Bool → Bool → ZeroPositions
output_of false false true = pzvv
output_of false true false = pvvz
output_of true false false = pvzv
output_of _ _ _ = pvvv

-- `ZeroPositions::mul_output`.
unfoldable pub mul_output : Bool → MultiplyZeroPositions → Outcome ZeroPositions
unfolding work
mul_output debug (za, zb) = work debug za zb >>= λ w. done (output_of w.first w.second w.third)

module _ {ℓ} {A : Type ℓ} ⦃f : Field A⦄ (dec : Discrete A) where
  unfoldable pub assert_zero : Bool → A → Outcome (Unit {0})
  assert_zero flag a = if flag then ite (dec a 𝟘) (done tt) panic else done tt

  -- `ZeroPositions::check`, which only a build with debug assertions performs.
  unfoldable pub check : Bool → ZeroPositions → Role → AdditiveShare A → Outcome (Unit {0})
  check false z role v = done tt
  check true z role v = do
    assert_zero (at (flags z) role) v.left
    assert_zero (at (flags z) (peer role Direction.right)) v.right
