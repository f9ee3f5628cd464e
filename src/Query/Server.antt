-- ===== src/Query/Server.antt =====
-- The requests of src/query/processor.rs in any order. Between the two parts of `new_query` and of
-- `complete`, where they await, a helper answers other requests.
pub mod Consistency
use raw_ipa.Prelude.{ℕ, zero, suc, Bool, true, false, List, [], ◌∷◌, Option, some, none, get_elem?}
use raw_ipa.Helpers.Assignment.{HelperIdentity, RoleAssignment}
use raw_ipa.Query.State.{
  QueryStatus, QueryState, Result, ok, err, Handled, panic, returned, ◌>>=◌, Queries, remove_query,
}
use raw_ipa.Query.Processor.{
  PrepareQuery, RequestError, Received, Completion, finished, handle, new_query, acknowledged,
  prepare, receive_inputs, query_status, complete,
}

-- A helper: its queries and the calls in flight, those of `new_query` that await the others and those
-- of `complete` that await a query task.
pub record Server (C T R : Type 0) : Type 0 where
  pub queries : Queries C T R
  pub coordinating : List (PrepareQuery C)
  pub completing : List T

abbrev pub idle : {C T R : Type 0} → Server C T R
idle = record { queries = none; coordinating = []; completing = [] }

-- What can happen next. A call in flight is named by its place in the list. `failed` covers a failure
-- of a peer, an error of the transport and a call that is dropped, which all run the guard.
pub data Event (C T R : Type 0) : Type 0 where
  on_new_query : HelperIdentity → C → Event C T R
  on_acknowledged on_failed : ℕ → Event C T R
  on_prepare : HelperIdentity → PrepareQuery C → Event C T R
  on_receive_inputs : (C → RoleAssignment → T) → Event C T R
  on_query_status : Received R → Event C T R
  on_complete : Event C T R
  on_completed : ℕ → Event C T R

abbrev pub remove_at : {A : Type 0} → List A → ℕ → List A
remove_at [] i = []
remove_at (x ∷ xs) zero = xs
remove_at (x ∷ xs) (suc i) = x ∷ remove_at xs i

module _ {C T R : Type 0} where
  -- `none` where the call panics.
  abbrev updated : {A : Type 0} → Server C T R → Handled (Queries C T R) A → Option (Server C T R)
  updated s panic = none
  updated s (returned qs _) = some (record s { queries = qs })

  abbrev announced :
      Server C T R
      → Handled (Queries C T R) (Result RequestError (PrepareQuery C))
      → Option (Server C T R)
  announced s panic = none
  announced s (returned qs (err e)) = some (record s { queries = qs })
  announced s (returned qs (ok request)) =
      some (record s { queries = qs; coordinating = request ∷ s.coordinating })

  abbrev answered : Server C T R → ℕ → Bool → Option (PrepareQuery C) → Option (Server C T R)
  answered s i success none = some s
  answered s i success (some request) =
      updated (record s { coordinating = remove_at s.coordinating i })
        (acknowledged success request s.queries)

  abbrev awaited :
      Server C T R
      → Handled (Queries C T R) (Result RequestError (Completion T R))
      → Option (Server C T R)
  awaited s panic = none
  awaited s (returned qs (err e)) = some (record s { queries = qs })
  awaited s (returned qs (ok (finished r))) = some (record s { queries = qs })
  awaited s (returned qs (ok (handle t))) =
      some (record s { queries = qs; completing = t ∷ s.completing })

  -- The end of `complete`, or its being dropped: the guard removes the query.
  abbrev released : Server C T R → ℕ → Option T → Option (Server C T R)
  released s i none = some s
  released s i (some t) =
      some (record s { queries = remove_query s.queries; completing = remove_at s.completing i })

  unfoldable pub step : Event C T R → Server C T R → Option (Server C T R)
  step (on_new_query id config) s = announced s (new_query id config s.queries)
  step (on_acknowledged i) s = answered s i true (get_elem? s.coordinating i)
  step (on_failed i) s = answered s i false (get_elem? s.coordinating i)
  step (on_prepare id request) s = updated s (prepare id request s.queries)
  step (on_receive_inputs execute) s = updated s (receive_inputs execute s.queries)
  step (on_query_status received) s = updated s (query_status received s.queries)
  step on_complete s = awaited s (complete s.queries)
  step (on_completed i) s = released s i (get_elem? s.completing i)

  abbrev continue :
      (Server C T R → Option (Server C T R)) → Option (Server C T R) → Option (Server C T R)
  continue f none = none
  continue f (some s) = f s

  unfoldable pub run : List (Event C T R) → Server C T R → Option (Server C T R)
  run [] s = some s
  run (e ∷ es) s = continue (run es) (step e s)
