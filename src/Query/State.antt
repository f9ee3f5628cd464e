-- ===== src/Query/State.antt =====
-- src/query/state.rs: the state of a query and its changes. `QueryId` has one value, so that the map
-- from it has one entry or none.
use raw_ipa.Prelude.{Bool, true, false, Option, some, none}
use raw_ipa.Helpers.Assignment.{RoleAssignment}

pub data QueryStatus : Type 0 where
  preparing awaiting_inputs running awaiting_completion completed : QueryStatus

-- `QueryState`, for the types `C` of `QueryConfig`, `T` of `RunningQuery` and `R` of `QueryResult`.
pub data QueryState (C T R : Type 0) : Type 0 where
  empty : QueryState C T R
  preparing : C → QueryState C T R
  awaiting_inputs : C → RoleAssignment → QueryState C T R
  running : T → QueryState C T R
  awaiting_completion : QueryState C T R
  completed : R → QueryState C T R

pub data StateError : Type 0 where
  already_running : StateError
  invalid_state : QueryStatus → QueryStatus → StateError

pub data Result (E A : Type 0) : Type 0 where
  ok : A → Result E A
  err : E → Result E A

-- How a call ends: a panic, or a value beside what it left of the state.
pub data Handled (S A : Type 0) : Type 0 where
  panic : Handled S A
  returned : S → A → Handled S A

infixl 5 ◌>>=◌
abbrev pub ◌>>=◌ : {S S' A B : Type 0} → Handled S A → (S → A → Handled S' B) → Handled S' B
panic >>= f = panic
returned s a >>= f = f s a

abbrev pub Queries : Type 0 → Type 0 → Type 0 → Type 0
Queries C T R = Option (QueryState C T R)

-- `InvalidState { from, to }`, which needs the two statuses.
abbrev pub invalid :
    {S A : Type 0} → Option QueryStatus → Option QueryStatus → S → (StateError → A) → Handled S A
invalid (some from) (some to) s f = returned s (f (invalid_state from to))
invalid _ _ s f = panic

module _ {C T R : Type 0} where
  -- `QueryStatus::from`, which panics on the empty state.
  unfoldable pub status_of : QueryState C T R → Option QueryStatus
  status_of empty = none
  status_of (preparing c) = some QueryStatus.preparing
  status_of (awaiting_inputs c r) = some QueryStatus.awaiting_inputs
  status_of (running t) = some QueryStatus.running
  status_of awaiting_completion = some QueryStatus.awaiting_completion
  status_of (completed r) = some QueryStatus.completed

  -- `QueryState::transition`.
  unfoldable pub transition :
      QueryState C T R
      → QueryState C T R
      → Handled (Unit {0}) (Result StateError (QueryState C T R))
  unfolding status_of
  transition empty (preparing c) = returned tt (ok (preparing c))
  transition empty (awaiting_inputs c r) = returned tt (ok (awaiting_inputs c r))
  transition (preparing _) (awaiting_inputs c r) = returned tt (ok (awaiting_inputs c r))
  transition _ (preparing c) = returned tt (err already_running)
  transition cur_state new_state = invalid (status_of cur_state) (status_of new_state) tt err

  abbrev or_empty : Queries C T R → QueryState C T R
  or_empty none = empty
  or_empty (some s) = s

  -- `QueryHandle::set_state`: an error leaves the entry as it was.
  unfoldable pub set_state :
      Queries C T R → QueryState C T R → Handled (Queries C T R) (Result StateError (Unit {0}))
  unfolding transition
  set_state queries new_state = transition (or_empty queries) new_state >>= insert queries
    where
      insert :
          Queries C T R
          → Unit {0}
          → Result StateError (QueryState C T R)
          → Handled (Queries C T R) (Result StateError (Unit {0}))
      insert queries _ (ok s) = returned (some s) (ok tt)
      insert queries _ (err e) = returned queries (err e)

  -- `QueryHandle::status`; the outer `none` is the panic.
  abbrev pub is_registered : Queries C T R → Bool
  is_registered none = false
  is_registered (some s) = true

  -- `RemoveQuery::drop`, of a guard that was not restored.
  unfoldable pub remove_query : Queries C T R → Queries C T R
  remove_query queries = none
