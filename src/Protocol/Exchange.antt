-- ===== src/Protocol/Exchange.antt =====
-- One round of communication. A protocol of src/protocol/basics computes from the helper's inputs,
-- sends at most one value to each of the others (`ctx.send_channel(role)`), awaits values of the
-- others (`ctx.recv_channel(role)`) and returns. Here it is the values that it sends and a function
-- of what arrives. The channels deliver what was sent, in order and once: that is what
-- src/helpers/buffers is for.
use raw_ipa.Prelude.{Option, none, some}
use raw_ipa.Helpers.Role.{Three, Role, h1, h2, h3, at, tabulate}

-- The errors of src/error.rs with which these protocols end.
pub data Error : Type 0 where
  malicious_reveal_failed malicious_security_check_failed : Error

-- How a helper's part of a protocol ends: a failed assertion, an error, a value that never arrives,
-- or a result.
pub data Outcome {ℓ} (A : Type ℓ) : Type ℓ where
  panic : Outcome A
  err : Error → Outcome A
  waiting : Outcome A
  done : A → Outcome A

infixl 5 ◌>>=◌ ◌>>◌
abbrev pub ◌>>=◌ {ℓ κ} : {A : Type ℓ} {B : Type κ} → Outcome A → (A → Outcome B) → Outcome B
panic >>= f = panic
err e >>= f = err e
waiting >>= f = waiting
done a >>= f = f a

abbrev pub ◌>>◌ {ℓ} : {B : Type ℓ} → Outcome (Unit {0}) → Outcome B → Outcome B
m >> k = m >>= λ _. k

-- What one helper sends to each role, and what it does with what each role sends to it.
pub record Exchange {ℓ κ} (M : Type ℓ) (A : Type κ) : Type (ℓ ⊔ κ) where
  pub sent : Role → Option M
  pub resume : (Role → Option M) → Outcome A

-- One value for one role.
abbrev pub only {ℓ} : {M : Type ℓ} → Role → M → Role → Option M
only h1 m h1 = some m
only h2 m h2 = some m
only h3 m h3 = some m
only _ m _ = none

abbrev pub nothing {ℓ} : {M : Type ℓ} → Role → Option M
nothing r = none

-- `receive`: a value that is not sent is awaited forever.
abbrev pub receive {ℓ} : {M : Type ℓ} → Option M → Outcome M
receive none = waiting
receive (some m) = done m

abbrev pub sent_by {ℓ κ} : {M : Type ℓ} {A : Type κ} → Outcome (Exchange M A) → Role → Option M
sent_by panic r = none
sent_by (err e) r = none
sent_by waiting r = none
sent_by (done e) r = e.sent r

-- The three helpers together: each receives what the others sent to it.
abbrev pub exchange {ℓ κ} :
    {M : Type ℓ} {A : Type κ} → Three (Outcome (Exchange M A)) → Three (Outcome A)
exchange runs = tabulate (λ r. at runs r >>= λ e. e.resume (λ from. sent_by (at runs from) r))

-- A result that all three helpers reach. A helper that fails keeps the others from it.
abbrev pub together {ℓ} : {A : Type ℓ} → Three (Outcome A) → Outcome (Three A)
together t = do
  a ← t.first
  b ← t.second
  c ← t.third
  done (record { first = a; second = b; third = c })

-- A result, or a default where there is none.
abbrev pub unwrap_or {ℓ} : {A : Type ℓ} → A → Outcome A → A
unwrap_or d (done a) = a
unwrap_or d _ = d
