-- ===== src/Tests/Queries.antt =====
-- Requests to a helper, with numbers for configurations, query tasks and results.
use raw_ipa.Prelude.{ℕ, ◌≡◌, refl, List, [], ◌∷◌, some, arith}
use raw_ipa.Helpers.Role.{h2}
use raw_ipa.Helpers.Assignment.{
  HelperIdentity, RoleAssignment, one, two, three, role, others, try_from_pairs,
}
use raw_ipa.Query.Processor.{PrepareQuery, assign_roles, empty}
use raw_ipa.Query.Server.{
  Server, idle, Event, on_new_query, on_acknowledged, on_failed, on_prepare, on_receive_inputs,
  on_query_status, on_complete, on_completed, run,
}
use raw_ipa.Query.Server.Consistency.{
  Consistent, no_query, new_query_expected, acknowledged_expected, failed_expected,
  prepare_expected, inputs_expected, nothing_expected, complete_expected, completed_expected,
  AllExpected, none_left, more_expected, run-Consistent,
}
use raw_ipa.Query.Announcement.{Announced, announcement_lem}

abbrev ring : RoleAssignment
ring = record { helper_roles = record { first = one; second = two; third = three } }

abbrev request : PrepareQuery ℕ
request = record { config = 7; roles = ring }

ring-assign_roles : assign_roles one ≡ some ring
unfolding assign_roles others try_from_pairs
ring-assign_roles = refl

role_of_two : role ring two ≡ some h2
unfolding role
role_of_two = refl

-- A query fails to be announced, is announced again, takes a second request in between, gets its
-- inputs and is awaited.
abbrev session : List (Event ℕ ℕ ℕ)
session =
    on_new_query one 7
    ∷ on_failed 0
    ∷ on_new_query one 7
    ∷ on_prepare two request
    ∷ on_acknowledged 0
    ∷ on_receive_inputs (λ c r. c)
    ∷ on_query_status empty
    ∷ on_complete
    ∷ on_completed 0
    ∷ []

session-AllExpected : AllExpected session
session-AllExpected = more_expected (new_query_expected 7 ring ring-assign_roles) (
    more_expected (failed_expected 0) (
      more_expected (new_query_expected 7 ring ring-assign_roles) (
        more_expected (prepare_expected request h2 role_of_two) (
          more_expected (acknowledged_expected 0) (
            more_expected (inputs_expected (λ c r. c)) (
              more_expected nothing_expected (
                more_expected complete_expected
                  (more_expected (completed_expected 0) none_left))))))))

run-Consistent_example : (t : Server ℕ ℕ ℕ) × (run session idle ≡ some t) × Consistent t
run-Consistent_example = run-Consistent session idle session-AllExpected no_query

announcement_example :
    (q : PrepareQuery ℕ) × (right : HelperIdentity) × (left : HelperIdentity) × Announced ℕ ℕ
      (record { id = 2 })
      7
      q
      right
      left
announcement_example = announcement_lem 2 7 (omega arith) (omega arith)
