-- ===== src/Query/Announcement.antt =====
-- src/query/processor.rs: how a query gets from the helper that receives it to the two others.
use raw_ipa.Prelude.{ℕ, zero, suc, ◌≡◌, refl, ◌≤◌, true, some, none, arith}
use raw_ipa.Helpers.Role.{Role, h1, h2, h3}
use raw_ipa.Helpers.Assignment.{HelperIdentity, others, try_from_pairs, role, identity}
use raw_ipa.Query.State.{
  QueryState, preparing, awaiting_inputs, ok, err, returned, Queries, set_state, transition,
  StateError,
}
use raw_ipa.Query.Processor.{
  PrepareQuery, wrong_target, assign_roles, new_query, acknowledged, prepare, state,
}
use raw_ipa.Query.Processor

-- What follows from an announcement of `config` by the helper `id`.
pub record Announced {C : Type 0} (T R : Type 0) (id : HelperIdentity) (config : C)
    (request : PrepareQuery C) (right left : HelperIdentity) : Type 0 where
  pub announces :
      new_query {T = T} {R = R} id config none ≡ returned (some (preparing config)) (ok request)
  pub the_others : others id ≡ some (right, left)
  pub leads : identity request.roles h1 ≡ id
  pub right_accepts :
      prepare {T = T} {R = R} right request none
      ≡ returned (some (awaiting_inputs config request.roles)) (ok tt)
  pub left_accepts :
      prepare {T = T} {R = R} left request none
      ≡ returned (some (awaiting_inputs config request.roles)) (ok tt)
  pub confirmed :
      acknowledged {T = T} {R = R} true request (some (preparing config))
      ≡ returned (some (awaiting_inputs config request.roles)) (ok request)
  pub not_to_itself :
      (queries : Queries C T R) → prepare id request queries ≡ returned queries (err wrong_target)

module _ {C T R : Type 0} where
  -- Whichever of the three helpers receives a query, it takes the first role, both others, when they
  -- have no query, accept the announcement, and all three end with the same configuration and the
  -- same roles. A helper refuses an announcement in which it is the first.
  pub announcement_lem :
      (n : ℕ) (config : C)
      → 1 ≤ n
      → n ≤ 3
      → (request : PrepareQuery C) × (right : HelperIdentity) × (left : HelperIdentity) × Announced
          T R
          (record { id = n })
          config
          request
          right
          left
  unfolding new_query acknowledged prepare others assign_roles try_from_pairs role set_state
      transition
  announcement_lem zero config h k = elim h [ ]
  announcement_lem (suc zero) config h k = (
    _,
    _,
    _,
    record {
      announces = refl;
      the_others = refl;
      leads = refl;
      right_accepts = refl;
      left_accepts = refl;
      confirmed = refl;
      not_to_itself = λ q. refl;
    },
  )
  announcement_lem (suc (suc zero)) config h k = (
    _,
    _,
    _,
    record {
      announces = refl;
      the_others = refl;
      leads = refl;
      right_accepts = refl;
      left_accepts = refl;
      confirmed = refl;
      not_to_itself = λ q. refl;
    },
  )
  announcement_lem (suc (suc (suc zero))) config h k = (
    _,
    _,
    _,
    record {
      announces = refl;
      the_others = refl;
      leads = refl;
      right_accepts = refl;
      left_accepts = refl;
      confirmed = refl;
      not_to_itself = λ q. refl;
    },
  )
  announcement_lem (suc (suc (suc (suc n)))) config h k = absurd (too_large k)
    where
      too_large : ¬ (suc (suc (suc (suc n))) ≤ 3)
      too_large l = omega arith

  busy_coordinator :
      (id : HelperIdentity) (config : C) (s : QueryState C T R)
      → ¬ (s ≡ QueryState.empty)
      → new_query id config (some s) ≡ returned (some s) (err (state StateError.already_running))
  unfolding new_query set_state transition
  busy_coordinator id config QueryState.empty n = absurd (n refl)
  busy_coordinator id config (preparing c) n = refl
  busy_coordinator id config (awaiting_inputs c r) n = refl
  busy_coordinator id config (QueryState.running t) n = refl
  busy_coordinator id config QueryState.awaiting_completion n = refl
  busy_coordinator id config (QueryState.completed r) n = refl

  busy_follower :
      (id : HelperIdentity) (request : PrepareQuery C) (s : QueryState C T R) (r : Role)
      → role request.roles id ≡ some r
      → ¬ (r ≡ h1)
      → prepare id request (some s) ≡ returned (some s) (err Processor.already_running)
  unfolding prepare
  busy_follower id request s h1 h m = absurd (m refl)
  busy_follower id request s h2 h m = rw h refl
  busy_follower id request s h3 h m = rw h refl

  -- A helper that has a query, which is never in the empty state, refuses another, as its
  -- coordinator and, in any role but the first, as its follower. Its query stays as it was.
  pub one_query_at_a_time :
      (id : HelperIdentity) (config : C) (request : PrepareQuery C) (s : QueryState C T R)
      (r : Role)
      → ¬ (s ≡ QueryState.empty)
      → role request.roles id ≡ some r
      → ¬ (r ≡ h1)
      → (new_query id config (some s) ≡ returned (some s) (err (state StateError.already_running)))
        × (prepare id request (some s) ≡ returned (some s) (err Processor.already_running))
  one_query_at_a_time id config request s r n h m =
      (busy_coordinator id config s n, busy_follower id request s r h m)
