-- ===== src/Helpers/Role.antt =====
-- src/helpers/mod.rs: the roles, the ring that they stand in, and arrays of three.
use raw_ipa.Prelude.{ℕ, zero, suc, ◌≡◌, refl}

-- `[T; 3]`, an entry for each role.
pub record Three {ℓ} (A : Type ℓ) : Type ℓ where
  pub first : A
  pub second : A
  pub third : A

-- `Role::H1`, `Role::H2` and `Role::H3`.
pub data Role : Type 0 where
  h1 h2 h3 : Role

pub data Direction : Type 0 where
  left right : Direction

unfoldable pub Role-discrete : Discrete Role
Role-discrete h1 h1 = yes refl
Role-discrete h2 h2 = yes refl
Role-discrete h3 h3 = yes refl
Role-discrete h1 h2 = no (λ e. cc)
Role-discrete h1 h3 = no (λ e. cc)
Role-discrete h2 h1 = no (λ e. cc)
Role-discrete h2 h3 = no (λ e. cc)
Role-discrete h3 h1 = no (λ e. cc)
Role-discrete h3 h2 = no (λ e. cc)

-- `Role::all`.
abbrev pub all : Three Role
all = record { first = h1; second = h2; third = h3 }

-- `role as usize`.
abbrev pub role_index : Role → ℕ
role_index h1 = 0
role_index h2 = 1
role_index h3 = 2

-- `Role::peer`: H1, H2 and H3 stand in a ring, each to the right of the one before.
abbrev pub peer : Role → Direction → Role
peer h1 Direction.left = h3
peer h2 Direction.right = h3
peer h1 Direction.right = h2
peer h3 Direction.left = h2
peer h3 Direction.right = h1
peer h2 Direction.left = h1

-- `Index<Role>` and `IndexMut<Role>`.
abbrev pub at {ℓ} : {A : Type ℓ} → Three A → Role → A
at t h1 = t.first
at t h2 = t.second
at t h3 = t.third

abbrev pub set_at {ℓ} : {A : Type ℓ} → Three A → Role → A → Three A
set_at t h1 a = record t { first = a }
set_at t h2 a = record t { second = a }
set_at t h3 a = record t { third = a }

-- Indexing by a number below three.
abbrev pub nth {ℓ} : {A : Type ℓ} → Three A → ℕ → A
nth t zero = t.first
nth t (suc zero) = t.second
nth t (suc (suc i)) = t.third

-- What the three helpers hold, when each computes from its role.
abbrev pub tabulate {ℓ} : {A : Type ℓ} → (Role → A) → Three A
tabulate f = record { first = f h1; second = f h2; third = f h3 }

abbrev pub map_three {ℓ κ} : {A : Type ℓ} {B : Type κ} → (A → B) → Three A → Three B
map_three f t = record { first = f t.first; second = f t.second; third = f t.third }

abbrev pub zip_three {ℓ κ μ} :
    {A : Type ℓ} {B : Type κ} {C : Type μ} → (A → B → C) → Three A → Three B → Three C
zip_three f t u = record {
  first = f t.first u.first;
  second = f t.second u.second;
  third = f t.third u.third;
}

pub opposite : Direction → Direction
opposite Direction.left = Direction.right
opposite Direction.right = Direction.left

-- From every role and in both directions: going one way and back ends where it began, three steps
-- in one direction go round the ring, and the neighbour is another role.
pub peer_ring :
    (r : Role) (d : Direction)
    → (peer (peer r d) (opposite d) ≡ r) × (peer (peer (peer r d) d) d ≡ r) × ¬ (peer r d ≡ r)
unfolding opposite
peer_ring h1 Direction.left = (refl, refl, λ e. cc)
peer_ring h1 Direction.right = (refl, refl, λ e. cc)
peer_ring h2 Direction.left = (refl, refl, λ e. cc)
peer_ring h2 Direction.right = (refl, refl, λ e. cc)
peer_ring h3 Direction.left = (refl, refl, λ e. cc)
peer_ring h3 Direction.right = (refl, refl, λ e. cc)
