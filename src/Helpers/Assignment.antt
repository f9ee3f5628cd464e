-- ===== src/Helpers/Assignment.antt =====
-- src/helpers/mod.rs: identities of helpers and the assignment of roles to them.
use raw_ipa.Prelude.{
  ℕ, zero, suc, ◌+◌, ◌%◌, ◌≤◌, ◌≡◌, refl, ◌≢◌, ◌⊎◌, inl, inr, ◌||◌, Option, none, some, ltb, ◌==◌,
  if◌then◌else◌, arith,
}
use raw_ipa.Helpers.Role.{Three, Role, h1, h2, h3, all, at, set_at}

-- `HelperIdentity`; its `id` is a `u8`.
pub record HelperIdentity : Type 0 where
  pub id : ℕ

abbrev pub one : HelperIdentity
one = record { id = 1 }

abbrev pub two : HelperIdentity
two = record { id = 2 }

abbrev pub three : HelperIdentity
three = record { id = 3 }

-- `HelperIdentity::try_from(usize)`; `none` is the error.
unfoldable pub try_from : ℕ → Option HelperIdentity
try_from value = if (value == 0) || ltb 3 value then none else some (record { id = value })

-- `HelperIdentity::others`; `none` is the unreachable arm.
unfoldable pub others : HelperIdentity → Option (HelperIdentity × HelperIdentity)
others h =
    if h.id == 1
    then some (two, three)
    else if h.id == 2
    then some (three, one)
    else if h.id == 3
    then some (one, two)
    else none

pub record RoleAssignment : Type 0 where
  pub helper_roles : Three HelperIdentity

-- `RoleAssignment::role`: the first role that is held by `h`; `none` is the panic.
unfoldable pub role : RoleAssignment → HelperIdentity → Option Role
role a h =
    if a.helper_roles.first.id == h.id
    then some all.first
    else if a.helper_roles.second.id == h.id
    then some all.second
    else if a.helper_roles.third.id == h.id
    then some all.third
    else none

abbrev pub identity : RoleAssignment → Role → HelperIdentity
identity a r = at a.helper_roles r

-- `Role {role:?} has been assigned twice`, or the panic of `Option::unwrap` on an empty entry.
pub data AssignmentError : Type 0 where
  assigned_twice : Role → AssignmentError
  unwrap_on_none : AssignmentError

pub data Assigned (A : Type 0) : Type 0 where
  ok : A → Assigned A
  err : AssignmentError → Assigned A

infixl 5 ◌>>=◌
abbrev ◌>>=◌ : {A B : Type 0} → Assigned A → (A → Assigned B) → Assigned B
ok a >>= f = f a
err e >>= f = err e

-- One round of the loop of `try_from([(HelperIdentity, Role); 3])`.
abbrev assign :
    Three (Option HelperIdentity) → HelperIdentity × Role → Assigned (Three (Option HelperIdentity))
assign result (helper, r) = elim (at result r) [
  | some _ ↦ err (assigned_twice r)
  | none ↦ ok (set_at result r (some helper))
]

abbrev unwrap : Option HelperIdentity → Assigned HelperIdentity
unwrap none = err unwrap_on_none
unwrap (some h) = ok h

unfoldable pub try_from_pairs : Three (HelperIdentity × Role) → Assigned RoleAssignment
try_from_pairs value = do
  a ← assign (record { first = none; second = none; third = none }) value.first
  b ← assign a value.second
  c ← assign b value.third
  x ← unwrap c.first
  y ← unwrap c.second
  z ← unwrap c.third
  ok (record { helper_roles = record { first = x; second = y; third = z } })

-- `try_from([Role; 3])`.
unfoldable pub try_from_roles : Three Role → Assigned RoleAssignment
unfolding try_from_pairs
try_from_roles value = try_from_pairs (record {
  first = (one, value.first);
  second = (two, value.second);
  third = (three, value.third);
})

-- The numbers 1, 2 and 3 are identities of helpers, and the number is kept. All others are refused.
pub try_from_lem :
    (n : ℕ)
    → ((1 ≤ n) × (n ≤ 3) × (try_from n ≡ some (record { id = n })))
      ⊎ (((n ≡ 0) ⊎ (4 ≤ n)) × (try_from n ≡ none))
unfolding try_from
try_from_lem zero = inr (inl refl, refl)
try_from_lem (suc zero) = inl (omega arith, omega arith, refl)
try_from_lem (suc (suc zero)) = inl (omega arith, omega arith, refl)
try_from_lem (suc (suc (suc zero))) = inl (omega arith, omega arith, refl)
try_from_lem (suc (suc (suc (suc n)))) = inr (inr (omega arith), ground arith)

-- The others of a helper are the two remaining identities, in ring order: with its own the three
-- numbers are 1, 2 and 3, and the first of the others comes next after it.
pub others_lem :
    (n : ℕ)
    → 1 ≤ n
    → n ≤ 3
    → (a : HelperIdentity) × (b : HelperIdentity) × (others (record { id = n }) ≡ some (a, b))
      × (a.id ≡ n % 3 + 1)
      × (b.id ≡ (n + 1) % 3 + 1)
unfolding others
others_lem (suc zero) h k = (two, three, refl, refl, refl)
others_lem (suc (suc zero)) h k = (three, one, refl, refl, refl)
others_lem (suc (suc (suc zero))) h k = (one, two, refl, refl, refl)
others_lem zero h k = elim h [ ]
others_lem (suc (suc (suc (suc n)))) h k = absurd (too_large k)
  where
    too_large : ¬ (suc (suc (suc (suc n))) ≤ 3)
    too_large l = omega arith

-- Three pairs of a helper and a role are accepted if the three roles differ. Then each helper of the
-- list holds the role that stands beside it.
pub try_from_pairs_lem :
    (a b c : HelperIdentity) (r s t : Role)
    → r ≢ s
    → s ≢ t
    → r ≢ t
    → (ra : RoleAssignment) × (try_from_pairs
          (record { first = (a, r); second = (b, s); third = (c, t) })
        ≡ ok ra)
      × (identity ra r ≡ a)
      × (identity ra s ≡ b)
      × (identity ra t ≡ c)
unfolding try_from_pairs
try_from_pairs_lem a b c h1 h2 h3 p q x = (_, refl, refl, refl, refl)
try_from_pairs_lem a b c h1 h3 h2 p q x = (_, refl, refl, refl, refl)
try_from_pairs_lem a b c h2 h1 h3 p q x = (_, refl, refl, refl, refl)
try_from_pairs_lem a b c h2 h3 h1 p q x = (_, refl, refl, refl, refl)
try_from_pairs_lem a b c h3 h1 h2 p q x = (_, refl, refl, refl, refl)
try_from_pairs_lem a b c h3 h2 h1 p q x = (_, refl, refl, refl, refl)
try_from_pairs_lem a b c h1 h1 t p q x = absurd (p refl)
try_from_pairs_lem a b c h2 h2 t p q x = absurd (p refl)
try_from_pairs_lem a b c h3 h3 t p q x = absurd (p refl)
try_from_pairs_lem a b c h1 s h1 p q x = absurd (x refl)
try_from_pairs_lem a b c h2 s h2 p q x = absurd (x refl)
try_from_pairs_lem a b c h3 s h3 p q x = absurd (x refl)
try_from_pairs_lem a b c r h1 h1 p q x = absurd (q refl)
try_from_pairs_lem a b c r h2 h2 p q x = absurd (q refl)
try_from_pairs_lem a b c r h3 h3 p q x = absurd (q refl)

-- Where a role stands twice, the pairs are refused, and the error names a role that does.
pub try_from_pairs-twice :
    (a b c : HelperIdentity) (r s t : Role)
    → (r ≡ s) ⊎ ((s ≡ t) ⊎ (r ≡ t))
    → (x : Role) × (try_from_pairs (record { first = (a, r); second = (b, s); third = (c, t) })
        ≡ err (assigned_twice x))
      × ((x ≡ s) ⊎ (x ≡ t))
unfolding try_from_pairs
try_from_pairs-twice a b c h1 h1 t h = (h1, refl, inl refl)
try_from_pairs-twice a b c h2 h2 t h = (h2, refl, inl refl)
try_from_pairs-twice a b c h3 h3 t h = (h3, refl, inl refl)
try_from_pairs-twice a b c h1 h2 h1 h = (h1, refl, inr refl)
try_from_pairs-twice a b c h1 h3 h1 h = (h1, refl, inr refl)
try_from_pairs-twice a b c h2 h1 h2 h = (h2, refl, inr refl)
try_from_pairs-twice a b c h2 h3 h2 h = (h2, refl, inr refl)
try_from_pairs-twice a b c h3 h1 h3 h = (h3, refl, inr refl)
try_from_pairs-twice a b c h3 h2 h3 h = (h3, refl, inr refl)
try_from_pairs-twice a b c h1 h2 h2 h = (h2, refl, inl refl)
try_from_pairs-twice a b c h1 h3 h3 h = (h3, refl, inl refl)
try_from_pairs-twice a b c h2 h1 h1 h = (h1, refl, inl refl)
try_from_pairs-twice a b c h2 h3 h3 h = (h3, refl, inl refl)
try_from_pairs-twice a b c h3 h1 h1 h = (h1, refl, inl refl)
try_from_pairs-twice a b c h3 h2 h2 h = (h2, refl, inl refl)
try_from_pairs-twice a b c _ _ _ h = ground arith
