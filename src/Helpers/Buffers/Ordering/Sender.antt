-- ===== src/Helpers/Buffers/Ordering/Sender.antt =====
-- src/helpers/buffers/ordering_sender.rs: `OrderingSender`, and the futures `Send` and `Close` and the
-- stream `OrderedStream` that poll it.
use raw_ipa.Prelude.{
  ℕ, suc, ◌+◌, compare, Ordering, Bool, true, false, List, [], ◌++◌, Option, some, none,
}
use raw_ipa.Helpers.Buffers.Ordering.State.{State, new_state, Poll, write, take_written, close}
use raw_ipa.Helpers.Buffers.Ordering.Waiting.{
  Waiting, no_waiting, Added, added, rejected, add, wake_at,
}

-- `OrderingSender`
pub record OrderingSender (W : Type 0) : Type 0 where
  pub next : ℕ
  pub state : State W
  pub waiting : Waiting W

-- How a poll ends, with the wakers that were woken. `again` is a round of the loop of `next_op` that
-- could not add its waker and reads the position anew.
pub data Polled (W A : Type 0) : Type 0 where
  panic : Polled W A
  again : Polled W A
  pending : OrderingSender W → Polled W A
  ready : A → OrderingSender W → List W → Polled W A

module _ {W : Type 0} where
  -- `OrderingSender::new`
  unfoldable pub new_sender : ℕ → ℕ → OrderingSender W
  new_sender write_size spare = record {
    next = 0;
    state = new_state write_size spare;
    waiting = no_waiting;
  }

  -- The branch of `next_op` for a task whose turn it is.
  abbrev pub our_turn : OrderingSender W → Poll (State W) W Unit → Polled W Unit
  our_turn s Poll.panic = panic
  our_turn s (Poll.pending b) = pending (record s { state = b })
  our_turn s (Poll.ready u b ws) = ready tt (record s { state = b; next = suc s.next }) ws

  -- The branch of `next_op` for a task that has to wait.
  abbrev pub wait_turn : OrderingSender W → Added (Waiting W) → Polled W Unit
  wait_turn s Added.panic = panic
  wait_turn s rejected = again
  wait_turn s (added shards) = pending (record s { waiting = shards })

  -- The assertion that the sender is not closed.
  abbrev pub unless_closed : Bool → Poll (State W) W Unit → Poll (State W) W Unit
  unless_closed true p = Poll.panic
  unless_closed false p = p

  module _ (will_wake : W → W → Bool) where
    -- `next_op`, a round of its loop.
    unfoldable pub next_op :
        ℕ → W → (State W → Poll (State W) W Unit) → OrderingSender W → Polled W Unit
    next_op i w f s = elim (compare s.next i) [
      | Ordering.gt ↦ panic
      | Ordering.eq ↦ our_turn s (f s.state)
      | Ordering.lt ↦ wait_turn s (add will_wake s.next i w s.waiting)
    ]

    -- What the closure of `Send::poll` does with the state.
    abbrev pub write_open : List ℕ → W → State W → Poll (State W) W Unit
    write_open m w b = unless_closed b.closed (write m w b)

    -- The end of `Send::poll`, which wakes the task of the next index.
    abbrev pub wake_next : ℕ → Polled W Unit → Polled W Unit
    wake_next i panic = panic
    wake_next i again = again
    wake_next i (pending s) = pending s
    wake_next i (ready u s ws) =
        let (shards, vs) = wake_at (i + 1) s.waiting in
        ready tt (record s { waiting = shards }) (ws ++ vs)

    -- `Send::poll`, of a message that serializes to these bytes.
    unfoldable pub poll_send : ℕ → List ℕ → W → OrderingSender W → Polled W Unit
    poll_send i m w s = wake_next i (next_op i w (write_open m w) s)

    -- `Close::poll`, with debug assertions or without.
    unfoldable pub poll_close : Bool → ℕ → W → OrderingSender W → Polled W Unit
    poll_close debug i w s = next_op i w (close debug) s

  abbrev pub end_or_wait : OrderingSender W → Bool → Polled W (Option (List ℕ))
  end_or_wait s true = ready none s []
  end_or_wait s false = pending s

  -- The branches of `take_next`, by what `State::take` yields.
  abbrev pub or_end : OrderingSender W → Poll (State W) W (List ℕ) → Polled W (Option (List ℕ))
  or_end s Poll.panic = panic
  or_end s (Poll.ready v b ws) =
      let (shards, vs) = wake_at s.next s.waiting in
      ready (some v) (record s { state = b; waiting = shards }) (ws ++ vs)
  or_end s (Poll.pending b) = end_or_wait (record s { state = b }) b.closed

  -- `take_next`, which is also `OrderedStream::poll_next`.
  unfoldable pub take_next : W → OrderingSender W → Polled W (Option (List ℕ))
  take_next w s = or_end s (take_written w s.state)
