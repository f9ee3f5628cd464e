-- ===== src/Query/Server/Consistency.antt =====
-- src/query: the states of a helper between requests, in any order of them.
use raw_ipa.Prelude.{ℕ, zero, suc, ◌≡◌, refl, List, [], ◌∷◌, Option, some, none}
use raw_ipa.Helpers.Role.{Role, h1, h2, h3}
use raw_ipa.Helpers.Assignment.{HelperIdentity, RoleAssignment, role}
use raw_ipa.Query.State.{
  preparing, awaiting_inputs, running, awaiting_completion, completed, set_state, transition,
  status_of, remove_query,
}
use raw_ipa.Query.Processor.{
  PrepareQuery, new_query, acknowledged, prepare, receive_inputs, query_status, complete,
  assign_roles, result, empty,
}
use raw_ipa.Query.Server.{
  Server, Event, on_new_query, on_acknowledged, on_failed, on_prepare, on_receive_inputs,
  on_query_status, on_complete, on_completed, step, run,
}

-- The calls in flight are the ones that the state of the query tells.
pub data Consistent {C T R : Type 0} : Server C T R → Type 0 where
  no_query : Consistent (record { queries = none; coordinating = []; completing = [] })
  announcing :
      (request : PrepareQuery C)
      → Consistent (record {
        queries = some (preparing request.config);
        coordinating = request ∷ [];
        completing = [];
      })
  ready :
      (config : C) (roles : RoleAssignment)
      → Consistent (record {
        queries = some (awaiting_inputs config roles);
        coordinating = [];
        completing = [];
      })
  executing :
      (t : T)
      → Consistent (record { queries = some (running t); coordinating = []; completing = [] })
  awaiting :
      (t : T)
      → Consistent
          (record { queries = some awaiting_completion; coordinating = []; completing = t ∷ [] })
  holding :
      (r : R)
      → Consistent (record { queries = some (completed r); coordinating = []; completing = [] })

-- What keeps an event from a panic: the helpers are the three that there are, a helper has a role in a
-- query that it is asked to prepare, and the query task does not drop its channel without a result.
pub data Expected {C T R : Type 0} : Event C T R → Type 0 where
  new_query_expected :
      {id : HelperIdentity} (config : C) (roles : RoleAssignment)
      → assign_roles id ≡ some roles
      → Expected (on_new_query id config)
  acknowledged_expected : (i : ℕ) → Expected (on_acknowledged i)
  failed_expected : (i : ℕ) → Expected (on_failed i)
  prepare_expected :
      {id : HelperIdentity} (request : PrepareQuery C) (r : Role)
      → role request.roles id ≡ some r
      → Expected (on_prepare id request)
  inputs_expected : (execute : C → RoleAssignment → T) → Expected (on_receive_inputs execute)
  result_expected : (r : R) → Expected (on_query_status (result r))
  nothing_expected : Expected (on_query_status empty)
  complete_expected : Expected on_complete
  completed_expected : (i : ℕ) → Expected (on_completed i)

module _ {C T R : Type 0} where
  abbrev pub Continues : Option (Server C T R) → Type 0
  Continues o = (s : Server C T R) × (o ≡ some s) × Consistent s

  new_query_stays :
      (id : HelperIdentity) (config : C) (roles : RoleAssignment) (s : Server C T R)
      → assign_roles id ≡ some roles
      → Consistent s
      → Continues (step (on_new_query id config) s)
  unfolding step new_query set_state transition status_of
  new_query_stays id config roles s h no_query = (
    record {
      queries = some (preparing config);
      coordinating = record { config = config; roles = roles } ∷ [];
      completing = [];
    },
    rw h refl,
    announcing (record { config = config; roles = roles }),
  )
  new_query_stays id config roles s h (announcing request) = (s, refl, announcing request)
  new_query_stays id config roles s h (ready c r) = (s, refl, ready c r)
  new_query_stays id config roles s h (executing t) = (s, refl, executing t)
  new_query_stays id config roles s h (awaiting t) = (s, refl, awaiting t)
  new_query_stays id config roles s h (holding r) = (s, refl, holding r)

  acknowledged_stays :
      (i : ℕ) (s : Server C T R) → Consistent s → Continues (step (on_acknowledged i) s)
  unfolding step acknowledged set_state transition status_of remove_query
  acknowledged_stays zero s (announcing request) = (_, refl, ready request.config request.roles)
  acknowledged_stays (suc i) s (announcing request) = (s, refl, announcing request)
  acknowledged_stays i s no_query = (s, refl, no_query)
  acknowledged_stays i s (ready c r) = (s, refl, ready c r)
  acknowledged_stays i s (executing t) = (s, refl, executing t)
  acknowledged_stays i s (awaiting t) = (s, refl, awaiting t)
  acknowledged_stays i s (holding r) = (s, refl, holding r)

  failed_stays : (i : ℕ) (s : Server C T R) → Consistent s → Continues (step (on_failed i) s)
  unfolding step acknowledged remove_query
  failed_stays zero s (announcing request) = (_, refl, no_query)
  failed_stays (suc i) s (announcing request) = (s, refl, announcing request)
  failed_stays i s no_query = (s, refl, no_query)
  failed_stays i s (ready c r) = (s, refl, ready c r)
  failed_stays i s (executing t) = (s, refl, executing t)
  failed_stays i s (awaiting t) = (s, refl, awaiting t)
  failed_stays i s (holding r) = (s, refl, holding r)

  prepared :
      (id : HelperIdentity) (request : PrepareQuery C) (r : Role) (s : Server C T R)
      → role request.roles id ≡ some r
      → Consistent s
      → Continues (step (on_prepare id request) s)
  unfolding step prepare set_state transition status_of
  prepared id request h1 s h c = (s, rw h refl, c)
  prepared id request h2 s h no_query = (
    record {
      queries = some (awaiting_inputs request.config request.roles);
      coordinating = [];
      completing = [];
    },
    rw h refl,
    ready _ _,
  )
  prepared id request h2 s h (announcing q) = (s, rw h refl, announcing q)
  prepared id request h2 s h (ready c r) = (s, rw h refl, ready c r)
  prepared id request h2 s h (executing t) = (s, rw h refl, executing t)
  prepared id request h2 s h (awaiting t) = (s, rw h refl, awaiting t)
  prepared id request h2 s h (holding r) = (s, rw h refl, holding r)
  prepared id request h3 s h no_query = (
    record {
      queries = some (awaiting_inputs request.config request.roles);
      coordinating = [];
      completing = [];
    },
    rw h refl,
    ready _ _,
  )
  prepared id request h3 s h (announcing q) = (s, rw h refl, announcing q)
  prepared id request h3 s h (ready c r) = (s, rw h refl, ready c r)
  prepared id request h3 s h (executing t) = (s, rw h refl, executing t)
  prepared id request h3 s h (awaiting t) = (s, rw h refl, awaiting t)
  prepared id request h3 s h (holding r) = (s, rw h refl, holding r)

  inputs_stays :
      (execute : C → RoleAssignment → T) (s : Server C T R)
      → Consistent s
      → Continues (step (on_receive_inputs execute) s)
  unfolding step receive_inputs status_of
  inputs_stays execute s no_query = (s, refl, no_query)
  inputs_stays execute s (announcing q) = (s, refl, announcing q)
  inputs_stays execute s (ready c r) = (_, refl, executing (execute c r))
  inputs_stays execute s (executing t) = (s, refl, executing t)
  inputs_stays execute s (awaiting t) = (s, refl, awaiting t)
  inputs_stays execute s (holding r) = (s, refl, holding r)

  result_stays :
      (x : R) (s : Server C T R) → Consistent s → Continues (step (on_query_status (result x)) s)
  unfolding step query_status status_of
  result_stays x s no_query = (s, refl, no_query)
  result_stays x s (announcing q) = (s, refl, announcing q)
  result_stays x s (ready c r) = (s, refl, ready c r)
  result_stays x s (executing t) = (_, refl, holding x)
  result_stays x s (awaiting t) = (s, refl, awaiting t)
  result_stays x s (holding r) = (s, refl, holding r)

  nothing_stays : (s : Server C T R) → Consistent s → Continues (step (on_query_status empty) s)
  unfolding step query_status status_of
  nothing_stays s no_query = (s, refl, no_query)
  nothing_stays s (announcing q) = (s, refl, announcing q)
  nothing_stays s (ready c r) = (s, refl, ready c r)
  nothing_stays s (executing t) = (s, refl, executing t)
  nothing_stays s (awaiting t) = (s, refl, awaiting t)
  nothing_stays s (holding r) = (s, refl, holding r)

  complete_stays : (s : Server C T R) → Consistent s → Continues (step on_complete s)
  unfolding step complete status_of
  complete_stays s no_query = (s, refl, no_query)
  complete_stays s (announcing q) = (s, refl, announcing q)
  complete_stays s (ready c r) = (s, refl, ready c r)
  complete_stays s (executing t) = (_, refl, awaiting t)
  complete_stays s (awaiting t) = (s, refl, awaiting t)
  complete_stays s (holding r) = (_, refl, no_query)

  completed_stays : (i : ℕ) (s : Server C T R) → Consistent s → Continues (step (on_completed i) s)
  unfolding step remove_query
  completed_stays zero s (awaiting t) = (_, refl, no_query)
  completed_stays (suc i) s (awaiting t) = (s, refl, awaiting t)
  completed_stays i s no_query = (s, refl, no_query)
  completed_stays i s (announcing q) = (s, refl, announcing q)
  completed_stays i s (ready c r) = (s, refl, ready c r)
  completed_stays i s (executing t) = (s, refl, executing t)
  completed_stays i s (holding r) = (s, refl, holding r)

  -- Every event leaves a consistent helper consistent.
  step-Consistent :
      (e : Event C T R) (s : Server C T R) → Expected e → Consistent s → Continues (step e s)
  step-Consistent e s (new_query_expected {id} config roles h) c =
      new_query_stays id config roles s h c
  step-Consistent e s (acknowledged_expected i) c = acknowledged_stays i s c
  step-Consistent e s (failed_expected i) c = failed_stays i s c
  step-Consistent e s (prepare_expected {id} request r h) c = prepared id request r s h c
  step-Consistent e s (inputs_expected execute) c = inputs_stays execute s c
  step-Consistent e s (result_expected r) c = result_stays r s c
  step-Consistent e s nothing_expected c = nothing_stays s c
  step-Consistent e s complete_expected c = complete_stays s c
  step-Consistent e s (completed_expected i) c = completed_stays i s c

  pub data AllExpected : List (Event C T R) → Type 0 where
    none_left : AllExpected []
    more_expected :
        {e : Event C T R} {es : List (Event C T R)}
        → Expected e
        → AllExpected es
        → AllExpected (e ∷ es)

  -- In any order of requests, answers and failures, a helper that was consistent does not panic and
  -- stays consistent: at most one call is in flight, and the state of the query tells which. What
  -- is expected of the events: a coordinator is one of the three helpers, a helper has a role in a
  -- query that it prepares, and a query task does not drop its channel without a result.
  pub run-Consistent :
      (es : List (Event C T R)) (s : Server C T R)
      → AllExpected es
      → Consistent s
      → (t : Server C T R) × (run es s ≡ some t) × Consistent t
  unfolding run
  run-Consistent es s none_left c = (s, refl, c)
  run-Consistent es s (more_expected {e} {es = rest} h hs) c =
      let (s', p, c') = step-Consistent e s h c in
      let (t, q, d) = run-Consistent rest s' hs c' in (t, rw p q, d)
