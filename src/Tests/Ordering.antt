-- ===== src/Tests/Ordering.antt =====
-- Messages of two bytes, sent out of order into a buffer of seven bytes.
use raw_ipa.Prelude.{ℕ, ◌<◌, ◌≡◌, refl, Bool, true, false, List, [], ◌∷◌, some, none, arith}
use raw_ipa.Helpers.Buffers.Ordering.State.{State, new_state}
use raw_ipa.Helpers.Buffers.Ordering.Space.{Fits}
use raw_ipa.Helpers.Buffers.Ordering.Progress.{Proceeds, write-Proceeds}
use raw_ipa.Helpers.Buffers.Ordering.Waiting.{
  add, add_to_shard, search_back, shard, wake_at, no_waiting, fresh_shard,
}
use raw_ipa.Helpers.Buffers.Ordering.Parked.{Tidy, Parked, wake_at-Parked}
use raw_ipa.Helpers.Buffers.Ordering.Sender.{
  OrderingSender, new_sender, next_op, poll_send, take_next,
}
use raw_ipa.Helpers.Buffers.Ordering.Order.{Ordered, Sends, later, poll_send-Sends}
use raw_ipa.Helpers.Buffers.Ordering.Take.{Yields, take_next-Yields}
use raw_ipa.Helpers.Buffers.Ordering.Trace.{
  Op, send, poll_op, Allowed, Trace, start, next_poll, Trace-Ordered,
}

abbrev pairs : ℕ → List ℕ
pairs i = i ∷ (i ∷ [])

abbrev anyone : ℕ → ℕ → Bool
anyone a b = true

abbrev one_waits : OrderingSender ℕ
one_waits = record {
  next = 0;
  state = record {
    buf = 0 ∷ 0 ∷ 0 ∷ 0 ∷ 0 ∷ 0 ∷ 0 ∷ [];
    spare = 3;
    written = 0;
    closed = false;
    write_ready = none;
    stream_ready = none;
  };
  waiting =
      record { woken_at = 0; wakers = record { i = 1; w = 9 } ∷ [] }
      ∷ fresh_shard
      ∷ fresh_shard
      ∷ fresh_shard
      ∷ fresh_shard
      ∷ fresh_shard
      ∷ fresh_shard
      ∷ fresh_shard
      ∷ [];
}

-- The task 9 polls for the index 1, before that of the index 0.
early : Trace anyone true pairs 4 3 one_waits []
unfolding new_sender new_state no_waiting poll_send next_op add add_to_shard search_back shard
early =
    next_poll (send 1 9) start
      (
        record { to_come = omega arith; still_open = λ e. refl; same_task = λ v q. refl },
        omega arith,
      )
      refl

Trace-Ordered_example :
    Ordered 7 3 pairs one_waits []
    × ((op : Op ℕ)
        → Allowed anyone true pairs 4 3 op one_waits
        → (s' : OrderingSender ℕ) × (out' : List ℕ) × (poll_op anyone true pairs op one_waits []
            ≡ some (s', out'))
          × Ordered 7 3 pairs s' out')
Trace-Ordered_example = Trace-Ordered anyone true pairs 4 3 (omega arith) early

one_waits-Ordered : Ordered 7 3 pairs one_waits []
one_waits-Ordered = (Trace-Ordered anyone true pairs 4 3 (omega arith) early).0

poll_send-Sends_example :
    Sends 7 3 pairs 0 8 one_waits [] (poll_send anyone 0 (pairs 0) 8 one_waits)
poll_send-Sends_example =
    poll_send-Sends 7 3 pairs anyone 0 8 one_waits [] one_waits-Ordered
      (record { to_come = omega arith; still_open = λ e. refl; same_task = λ v q. refl })
      (omega arith)

take_next-Yields_example : Yields 7 3 pairs one_waits [] (take_next 5 one_waits)
take_next-Yields_example = take_next-Yields 7 3 pairs 5 one_waits [] one_waits-Ordered

-- Six bytes are held, and another two do not fit.
abbrev nearly_full : State ℕ
nearly_full = record {
  buf = 0 ∷ 0 ∷ 1 ∷ 1 ∷ 2 ∷ 2 ∷ 0 ∷ [];
  spare = 3;
  written = 6;
  closed = false;
  write_ready = none;
  stream_ready = none;
}

nearly_full-Fits : Fits 7 nearly_full
nearly_full-Fits = record { sized = refl; within = omega arith; has_spare = omega arith }

write-Proceeds_example : Proceeds 7 (pairs 3) 8 5 nearly_full
write-Proceeds_example = write-Proceeds 7 (pairs 3) 8 5 nearly_full nearly_full-Fits (omega arith)

wake_at-Parked_example :
    Tidy 1 (wake_at 1 one_waits.waiting).0
    × ((w : ℕ) → Parked one_waits.waiting 1 w → (wake_at 1 one_waits.waiting).1 ≡ w ∷ [])
    × ((j : ℕ) (v : ℕ)
        → 1 < j
        → Parked one_waits.waiting j v
        → Parked (wake_at 1 one_waits.waiting).0 j v)
wake_at-Parked_example =
    wake_at-Parked 1 1 one_waits.waiting
      (later 7 3 pairs anyone 0 one_waits.waiting one_waits-Ordered.tidy) (omega arith)
