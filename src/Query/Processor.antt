-- ===== src/Query/Processor.antt =====
-- src/query/processor.rs: the requests that a helper answers. What happens between two awaits of a
-- request is one function here.
use raw_ipa.Prelude.{Bool, true, false, Option, some, none, if◌then◌else◌}
use raw_ipa.Helpers.Role.{Role, h1, h2, h3}
use raw_ipa.Helpers.Assignment.{
  HelperIdentity, RoleAssignment, others, role, try_from_pairs, Assigned,
}
use raw_ipa.Query.State.{
  QueryStatus, QueryState, preparing, awaiting_inputs, running, awaiting_completion, completed,
  StateError, Result, ok, err, Handled, panic, returned, ◌>>=◌, Queries, invalid, status_of,
  set_state, is_registered, remove_query,
}

-- `PrepareQuery`.
pub record PrepareQuery (C : Type 0) : Type 0 where
  pub config : C
  pub roles : RoleAssignment

-- The errors of the requests: `NewQueryError`, `PrepareQueryError`, `QueryInputError`,
-- `QueryStatusError` and `QueryCompletionError`.
pub data RequestError : Type 0 where
  state : StateError → RequestError
  transport wrong_target already_running no_such_query : RequestError

-- What `try_recv` says of the channel that the query task reports on.
pub data Received (R : Type 0) : Type 0 where
  result : R → Received R
  closed empty : Received R

-- What `complete` has after its first part: the result, or a running query to await.
pub data Completion (T R : Type 0) : Type 0 where
  finished : R → Completion T R
  handle : T → Completion T R

-- The roles that a coordinator assigns; `none` is a panic.
unfoldable pub assign_roles : HelperIdentity → Option RoleAssignment
assign_roles id = from_others (others id)
  where
    unwrap : Assigned RoleAssignment → Option RoleAssignment
    unwrap (Assigned.ok a) = some a
    unwrap (Assigned.err e) = none

    from_others : Option (HelperIdentity × HelperIdentity) → Option RoleAssignment
    from_others none = none
    from_others (some (right, left)) =
        unwrap
          (try_from_pairs (record { first = (id, h1); second = (right, h2); third = (left, h3) }))

module _ {C T R : Type 0} where
  -- `new_query` until it awaits the other helpers: what it sends to both.
  unfoldable pub new_query :
      HelperIdentity
      → C
      → Queries C T R
      → Handled (Queries C T R) (Result RequestError (PrepareQuery C))
  new_query id req queries = set_state queries (preparing req) >>= proceed (assign_roles id)
    where
      proceed :
          Option RoleAssignment
          → Queries C T R
          → Result StateError (Unit {0})
          → Handled (Queries C T R) (Result RequestError (PrepareQuery C))
      proceed _ qs (err e) = returned qs (err (state e))
      proceed none qs (ok _) = panic
      proceed (some roles) qs (ok _) = returned qs (ok (record { config = req; roles = roles }))

  -- `new_query` after both others have answered. Unless it gets to its end, the guard removes the
  -- query.
  unfoldable pub acknowledged :
      Bool
      → PrepareQuery C
      → Queries C T R
      → Handled (Queries C T R) (Result RequestError (PrepareQuery C))
  acknowledged false request queries = returned (remove_query queries) (err transport)
  acknowledged true request queries =
      set_state queries (awaiting_inputs request.config request.roles) >>= finish
    where
      finish :
          Queries C T R
          → Result StateError (Unit {0})
          → Handled (Queries C T R) (Result RequestError (PrepareQuery C))
      finish qs (err e) = returned (remove_query qs) (err (state e))
      finish qs (ok _) = returned qs (ok request)

  -- `prepare`.
  unfoldable pub prepare :
      HelperIdentity
      → PrepareQuery C
      → Queries C T R
      → Handled (Queries C T R) (Result RequestError (Unit {0}))
  prepare id req queries = with_role (role req.roles id)
    where
      register :
          Queries C T R
          → Result StateError (Unit {0})
          → Handled (Queries C T R) (Result RequestError (Unit {0}))
      register qs (err e) = returned qs (err (state e))
      register qs (ok _) = returned qs (ok tt)

      with_role : Option Role → Handled (Queries C T R) (Result RequestError (Unit {0}))
      with_role none = panic
      with_role (some h1) = returned queries (err wrong_target)
      with_role (some _) =
          if is_registered queries
          then returned queries (err already_running)
          else (set_state queries (awaiting_inputs req.config req.roles) >>= register)

  -- `receive_inputs`; `execute` starts the query task.
  unfoldable pub receive_inputs :
      (C → RoleAssignment → T)
      → Queries C T R
      → Handled (Queries C T R) (Result RequestError (Unit {0}))
  receive_inputs execute none = returned none (err no_such_query)
  receive_inputs execute (some (awaiting_inputs config roles)) =
      returned (some (running (execute config roles))) (ok tt)
  receive_inputs execute (some s) =
      invalid (status_of s) (some QueryStatus.running) (some s) (λ e. err (state e))

  -- `RunningQuery::try_complete` beside the state that it leaves; `none` is the panic.
  abbrev pub try_complete : T → Received R → Option (QueryState C T R)
  try_complete t (result r) = some (completed r)
  try_complete t closed = none
  try_complete t empty = some (running t)

  abbrev pub report :
      QueryState C T R
      → Option QueryStatus
      → Handled (Queries C T R) (Result RequestError QueryStatus)
  report s none = panic
  report s (some status) = returned (some s) (ok status)

  -- `query_status`, when the channel of a running query says `received`.
  unfoldable pub query_status :
      Received R → Queries C T R → Handled (Queries C T R) (Result RequestError QueryStatus)
  query_status received none = returned none (err no_such_query)
  query_status received (some (running t)) = completed_or_not (try_complete t received)
    where
      completed_or_not :
          Option (QueryState C T R) → Handled (Queries C T R) (Result RequestError QueryStatus)
      completed_or_not none = panic
      completed_or_not (some s) = report s (status_of s)
  query_status received (some s) = report s (status_of s)

  -- `complete` until it awaits the query task.
  unfoldable pub complete :
      Queries C T R → Handled (Queries C T R) (Result RequestError (Completion T R))
  complete none = returned none (err no_such_query)
  complete (some (completed r)) = returned none (ok (finished r))
  complete (some (running t)) = returned (some awaiting_completion) (ok (handle t))
  complete (some s) = invalid (status_of s) (some QueryStatus.running) (some s) (λ e. err (state e))
