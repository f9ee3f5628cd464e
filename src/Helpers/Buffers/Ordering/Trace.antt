-- ===== src/Helpers/Buffers/Ordering/Trace.antt =====
-- src/helpers/buffers/ordering_sender.rs: any sequence of polls, from a new sender.
use raw_ipa.Prelude.{
  ℕ, suc, ◌+◌, ◌≤◌, ◌<◌, ◌≡◌, refl, sym, ap, ◌∙◌, subst, Bool, true, false, List, [], ◌++◌, Option,
  some, none, length, length-replicate, arith, ℕ_discrete, ◌&&◌, append-nil, ◌≢◌, if◌then◌else◌,
}
use raw_ipa.Helpers.Buffers.Ordering.State.{State, Poll, new_state, close, wake}
use raw_ipa.Helpers.Buffers.Ordering.Parked.{no_waiting-Tidy}
use raw_ipa.Helpers.Buffers.Ordering.Sender.{
  OrderingSender, Polled, panic, again, pending, ready, new_sender, our_turn, poll_send, poll_close,
  take_next,
}
use raw_ipa.Helpers.Buffers.Ordering.Order.{
  first_messages, Ordered, MayPoll, Sends, sends, waits_turn, waits_room, parks, acts, later,
  poll_send-Sends,
}
use raw_ipa.Helpers.Buffers.Ordering.Take.{Yields, yields, ended, waits, take_next-Yields}

-- A poll of the task of an index, of the close at an index, or of the stream.
pub data Op (W : Type 0) : Type 0 where
  send : ℕ → W → Op W
  close_at : ℕ → W → Op W
  take_bytes : W → Op W

true_ne : true ≢ false
true_ne e = cc

module _ {W : Type 0} (will_wake : W → W → Bool) (debug : Bool) (message : ℕ → List ℕ) where
  -- The sender after a poll, and the bytes that its stream has yielded until then; `none` where the
  -- poll panics or would have to begin again.
  abbrev pub outcome :
      {A : Type 0} → (A → List ℕ) → List ℕ → Polled W A → Option (OrderingSender W × List ℕ)
  outcome yielded out panic = none
  outcome yielded out again = none
  outcome yielded out (pending s) = some (s, out)
  outcome yielded out (ready a s ws) = some (s, out ++ yielded a)

  abbrev pub chunk_of : Option (List ℕ) → List ℕ
  chunk_of none = []
  chunk_of (some v) = v

  abbrev pub poll_op : Op W → OrderingSender W → List ℕ → Option (OrderingSender W × List ℕ)
  poll_op (send i w) s out = outcome (λ _. []) out (poll_send will_wake i (message i) w s)
  poll_op (close_at i w) s out = outcome (λ _. []) out (poll_close will_wake debug i w s)
  poll_op (take_bytes w) s out = outcome chunk_of out (take_next w s)

  module _ (write_size spare : ℕ) where
    -- What a client of the sender may do: messages are shorter than the spare part, and an index is
    -- used for one task.
    abbrev pub Allowed : Op W → OrderingSender W → Type 0
    Allowed (send i w) s =
        MayPoll (write_size + spare) spare message will_wake i w s × (length (message i) < spare)
    Allowed (close_at i w) s = MayPoll (write_size + spare) spare message will_wake i w s
    Allowed (take_bytes w) s = Unit

    -- The states of a sender, after any polls in any order, with the bytes that have left it.
    pub data Trace : OrderingSender W → List ℕ → Type 0 where
      start : Trace (new_sender write_size spare) []
      next_poll :
          {s s' : OrderingSender W} {out out' : List ℕ} (op : Op W)
          → Trace s out
          → Allowed op s
          → poll_op op s out ≡ some (s', out')
          → Trace s' out'

    abbrev Good : OrderingSender W → List ℕ → Type 0
    Good = Ordered (write_size + spare) spare message

    -- The next state and bytes of a poll.
    abbrev Goes : Option (OrderingSender W × List ℕ) → Type 0
    Goes r = (s' : OrderingSender W) × (out' : List ℕ) × (r ≡ some (s', out')) × Good s' out'

    new_sender-Good : 1 ≤ write_size → Good (new_sender write_size spare) []
    unfolding new_sender new_state first_messages
    new_sender-Good h = record {
      fits = record {
        sized = length-replicate (write_size + spare) 0;
        within = omega arith;
        has_spare = omega arith;
      };
      spare_kept = refl;
      tidy = no_waiting-Tidy;
      sent = 0;
      before_next = omega arith;
      all_sent = λ _. refl;
      bytes = refl;
    }

    poll_send-Goes :
        (i : ℕ) (w : W) (s : OrderingSender W) (out : List ℕ) (p : Polled W Unit)
        → Sends (write_size + spare) spare message i w s out p
        → Goes (outcome (λ _. []) out p)
    poll_send-Goes i w s out p (sends {s'} a b o c d) =
        (s', out, ap (λ b. some (s', b)) (append-nil out), o)
    poll_send-Goes i w s out p (waits_turn {s'} a o c d e) = (s', out, refl, o)
    poll_send-Goes i w s out p (waits_room {s'} a o c d) = (s', out, refl, o)

    take_next-Goes :
        (s : OrderingSender W) (out : List ℕ) (p : Polled W (Option (List ℕ)))
        → Yields (write_size + spare) spare message s out p
        → Goes (outcome chunk_of out p)
    take_next-Goes s out p (yields {v} {s'} o a b c) = (s', out ++ v, refl, o)
    take_next-Goes s out p (ended {s'} o a b) =
        (s', out, ap (λ b. some (s', b)) (append-nil out), o)
    take_next-Goes s out p (waits {s'} o a b) = (s', out, refl, o)

    not_twice : (b c : Bool) → c ≡ false → (b && c) ≡ false
    not_twice true c e = e
    not_twice false c e = refl

    closed_state : State W → State W
    closed_state b = record b { closed = true; stream_ready = none }

    poll_close-Goes :
        (i : ℕ) (w : W) (s : OrderingSender W) (out : List ℕ)
        → Good s out
        → MayPoll (write_size + spare) spare message will_wake i w s
        → Goes (outcome (λ _. []) out (poll_close will_wake debug i w s))
    unfolding poll_close close closed_state
    poll_close-Goes i w s out o p = elim (ℕ_discrete s.next i) [
      | yes e ↦ (
        record s { state = closed_state s.state; next = suc s.next },
        out,
        ap (outcome (λ _. []) out) (
              acts (write_size + spare) spare message will_wake i w (close debug) s e
              ∙ ap
                  (λ b. our_turn s (
                    if b
                    then Poll.panic
                    else Poll.ready tt (closed_state s.state) (wake s.state.stream_ready)))
                  (not_twice debug s.state.closed (p.still_open e)))
            ∙ ap (λ b. some (record s { state = closed_state s.state; next = suc s.next }, b))
                (append-nil out),
        record {
          fits = record {
            sized = o.fits.sized;
            within = o.fits.within;
            has_spare = o.fits.has_spare;
          };
          spare_kept = o.spare_kept;
          tidy = later (write_size + spare) spare message will_wake s.next s.waiting o.tidy;
          sent = o.sent;
          before_next = omega (arith, o.before_next);
          all_sent = λ q. absurd (true_ne q);
          bytes = o.bytes;
        },
      )
      | no n ↦
          let (s', e, q, _, _, _) =
            parks (write_size + spare) spare message will_wake i w (close debug) s out o p
              (omega (arith, n, p.to_come)) in
          (s', out, ap (outcome (λ _. []) out) e, q)
    ]

    Allowed-Goes :
        (op : Op W) (s : OrderingSender W) (out : List ℕ)
        → Good s out
        → Allowed op s
        → Goes (poll_op op s out)
    Allowed-Goes (send i w) s out o p =
        poll_send-Goes i w s out _
          (poll_send-Sends (write_size + spare) spare message will_wake i w s out o p.0 p.1)
    Allowed-Goes (close_at i w) s out o p = poll_close-Goes i w s out o p
    Allowed-Goes (take_bytes w) s out o p =
        take_next-Goes s out _ (take_next-Yields (write_size + spare) spare message w s out o)

    same_result :
        {s t : OrderingSender W} {out out' : List ℕ}
        → ◌≡◌ {A = Option (OrderingSender W × List ℕ)} (some (t, out')) (some (s, out))
        → Good t out'
        → Good s out
    same_result {s} {t} {out} {out'} e o = subst (λ r. Good (fst_of r) (snd_of r)) e o
      where
        fst_of : Option (OrderingSender W × List ℕ) → OrderingSender W
        fst_of none = t
        fst_of (some r) = r.0

        snd_of : Option (OrderingSender W × List ℕ) → List ℕ
        snd_of none = out'
        snd_of (some r) = r.1

    Trace-Good : {s : OrderingSender W} {out : List ℕ} → 1 ≤ write_size → Trace s out → Good s out
    Trace-Good h start = new_sender-Good h
    Trace-Good h (next_poll op t a e) =
        let (s', out', f, o) = Allowed-Goes op _ _ (Trace-Good h t) a in same_result (sym f ∙ e) o

    -- A sender refines a queue of messages by index. After any allowed polls in any order, the bytes
    -- that have left it and those that it holds are the messages of the indices up to some number, in
    -- the order of the indices, and that number is its position while it is open. No allowed poll
    -- panics or has its waker rejected, and this holds of the state after it too.
    pub Trace-Ordered :
        {s : OrderingSender W} {out : List ℕ}
        → 1 ≤ write_size
        → Trace s out
        → Ordered (write_size + spare) spare message s out
          × ((op : Op W)
              → Allowed op s
              → (s' : OrderingSender W) × (out' : List ℕ) × (poll_op op s out ≡ some (s', out'))
                × Ordered (write_size + spare) spare message s' out')
    Trace-Ordered {s} {out} h t = (Trace-Good h t, λ op a. Allowed-Goes op s out (Trace-Good h t) a)
