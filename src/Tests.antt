-- ===== src/Tests.antt =====
-- Concrete inputs over the field of 31 elements, for the runs of the child modules.
mod Arithmetic
mod Sharings
mod Products
mod Protocols
mod Malicious
mod Queries
mod Sums
mod Buffers
mod Ordering
mod Streams
mod Comparisons
mod Logic
mod Randomness
use raw_ipa.Prelude.{ℕ, refl}
use raw_ipa.Algebra.{Field, IsRing, ◌⊗◌}
use raw_ipa.Helpers.Role.{Three, zip_three}
use raw_ipa.Ff.PrimeField.{fp31}
use raw_ipa.Ff.PrimeField.Ring.{
  Element, Element-discrete, from_u128, Fp31-IsRing, fp31-IsSound, Fp31, Fp31_field,
}
use raw_ipa.SecretSharing.Sharing.{
  Sharing, of_parts, share_with, Shares, share_with-Shares, IsReplicated, of_parts-IsReplicated,
}
use raw_ipa.SecretSharing.Malicious.{MaliciousShare, Authentic, IsExtension}

abbrev pub el : ℕ → Fp31
el = from_u128 fp31 fp31-IsSound

pub is_ring : IsRing Fp31
is_ring = Fp31-IsRing

pub fp31_discrete : Discrete Fp31
fp31_discrete = Element-discrete fp31

-- A sharing of a value, dealt with two fixed random values.
abbrev pub dealt : Fp31 → Sharing Fp31
dealt v = share_with (el 11) (el 27) v

pub dealt-Shares : (v : Fp31) → Shares (dealt v) v
dealt-Shares v = share_with-Shares is_ring (el 11) (el 27) v

-- Correlated randomness.
abbrev pub noise : Sharing Fp31
noise = of_parts (el 4) (el 19) (el 30)

pub noise-IsReplicated : IsReplicated noise
noise-IsReplicated = of_parts-IsReplicated (el 4) (el 19) (el 30)

-- A prime field is its own extension.
abbrev pub same : Fp31 → Fp31
same a = a

pub same-IsExtension : IsExtension same
same-IsExtension = record {
  extend_add = λ a b. refl;
  extend_sub = λ a b. refl;
  extend_neg = λ a. refl;
  extend_mul = λ a b. refl;
}

-- A value beside its product with `r`.
abbrev pub carried : Fp31 → Fp31 → Three (MaliciousShare Fp31 Fp31)
carried r v = zip_three (λ s t. record { x = s; rx = t }) (dealt v) (dealt (v ⊗ r))

pub carried-Authentic : (r v : Fp31) → Authentic same r (carried r v) v
carried-Authentic r v = record { shares_x = dealt-Shares v; shares_rx = dealt-Shares (v ⊗ r) }
