-- ===== src/Helpers/Buffers/Ordering/Order.antt =====
-- src/helpers/buffers/ordering_sender.rs: the bytes that leave a sender, by the indices of messages.
use raw_ipa.Prelude.{
  ℕ, zero, suc, ◌+◌, ◌≤◌, ◌<◌, ◌≡◌, ◌≢◌, refl, some, sym, ap, ◌∙◌, subst, Bool, true, false, List,
  [], ◌∷◌, ◌++◌, inl, inr, length, arith, ℕ_discrete, append_assoc, compare-cases,
}
use raw_ipa.Helpers.Buffers.Ordering.State.{State, Poll, write}
use raw_ipa.Helpers.Buffers.Ordering.Space.{held, Fits, Writes, wrote, full, write-Writes}
use raw_ipa.Helpers.Buffers.Ordering.Waiting.{Waiting}
use raw_ipa.Helpers.Buffers.Ordering.Parked.{Tidy, Parked, add-Parked, wake_at-Parked}
use raw_ipa.Helpers.Buffers.Ordering.Sender.{
  OrderingSender, Polled, pending, ready, our_turn, next_op, write_open, wake_next, poll_send,
  unless_closed,
}

-- The bytes of the first messages, in the order of their indices.
unfoldable pub first_messages : (ℕ → List ℕ) → ℕ → List ℕ
first_messages message zero = []
first_messages message (suc k) = first_messages message k ++ message k

module _ {W : Type 0} (size spare : ℕ) (message : ℕ → List ℕ) where
  -- What holds of a sender between polls, where `out` are the bytes that its stream has yielded:
  -- they and those it holds are the first messages, as many as its position says while it is open.
  pub record Ordered (s : OrderingSender W) (out : List ℕ) : Type 0 where
    pub fits : Fits size s.state
    pub spare_kept : s.state.spare ≡ spare
    pub tidy : Tidy s.next s.waiting
    pub sent : ℕ
    pub before_next : sent ≤ s.next
    pub all_sent : s.state.closed ≡ false → sent ≡ s.next
    pub bytes : out ++ held s.state ≡ first_messages message sent

  -- A task that has its turn to come, at an index at which no other waits, on an open sender.
  pub record MayPoll (will_wake : W → W → Bool) (i : ℕ) (w : W) (s : OrderingSender W)
      : Type 0 where
    pub to_come : s.next ≤ i
    pub still_open : s.next ≡ i → s.state.closed ≡ false
    pub same_task : (v : W) → Parked s.waiting i v → will_wake w v ≡ true

  -- What polling to send a message achieves.
  pub data Sends (i : ℕ) (w : W) (s : OrderingSender W) (out : List ℕ)
      : Polled W Unit → Type 0 where
    sends :
        {s' : OrderingSender W} {ws : List W}
        → s.next ≡ i
        → s'.next ≡ suc i
        → Ordered s' out
        → ((v : W) → Parked s.waiting (i + 1) v → (vs : List W) × (ws ≡ vs ++ (v ∷ [])))
        → ((j : ℕ) (v : W) → i + 1 < j → Parked s.waiting j v → Parked s'.waiting j v)
        → Sends i w s out (ready tt s' ws)
    waits_turn :
        {s' : OrderingSender W}
        → s.next < i
        → Ordered s' out
        → Parked s'.waiting i w
        → s' ≡ record s { waiting = s'.waiting }
        → ((j : ℕ) (v : W) → j ≢ i → Parked s.waiting j v → Parked s'.waiting j v)
        → Sends i w s out (pending s')
    waits_room :
        {s' : OrderingSender W}
        → s.next ≡ i
        → Ordered s' out
        → size < s.state.written + length (message i)
        → s' ≡ record s { state = record s.state { write_ready = some w } }
        → Sends i w s out (pending s')

  module _ (will_wake : W → W → Bool) where
    -- A task that waits for its turn is parked, and nothing else changes.
    pub parks :
        (i : ℕ) (w : W) (f : State W → Poll (State W) W Unit) (s : OrderingSender W) (out : List ℕ)
        → Ordered s out
        → MayPoll will_wake i w s
        → s.next < i
        → (s' : OrderingSender W) × (next_op will_wake i w f s ≡ pending s')
          × Ordered s' out
          × Parked s'.waiting i w
          × (s' ≡ record s { waiting = s'.waiting })
          × ((j : ℕ) (v : W) → j ≢ i → Parked s.waiting j v → Parked s'.waiting j v)
    unfolding next_op
    parks i w f s out o p l = elim (compare-cases s.next i) [
      | inl (c, _) ↦
          let (shards, e, t, q, others) =
            add-Parked will_wake s.next i w s.waiting o.tidy p.same_task in
          (
            record s { waiting = shards },
            rw (next_op, c, e) refl,
            record {
              fits = o.fits;
              spare_kept = o.spare_kept;
              tidy = t;
              sent = o.sent;
              before_next = o.before_next;
              all_sent = o.all_sent;
              bytes = o.bytes;
            },
            q,
            refl,
            others,
          )
      | inr (inl (_, e)) ↦ absurd (omega arith)
      | inr (inr (_, e)) ↦ absurd (omega arith)
    ]

    pub acts :
        (i : ℕ) (w : W) (f : State W → Poll (State W) W Unit) (s : OrderingSender W)
        → s.next ≡ i
        → next_op will_wake i w f s ≡ our_turn s (f s.state)
    unfolding next_op
    acts i w f s e = elim (compare-cases s.next i) [
      | inl (_, l) ↦ absurd (omega arith)
      | inr (inl (c, _)) ↦ rw (next_op, c) refl
      | inr (inr (_, l)) ↦ absurd (omega arith)
    ]

    pub later : (n : ℕ) (shards : Waiting W) → Tidy n shards → Tidy (suc n) shards
    later n shards t = record {
      eight = t.eight;
      sorted = t.sorted;
      behind = λ k. omega (arith, t.behind k);
    }

    writes :
        (i : ℕ) (w : W) (s : OrderingSender W) (out : List ℕ) (r : Poll (State W) W Unit)
        → Ordered s out
        → s.next ≡ i
        → s.state.closed ≡ false
        → Writes size (message i) w s.state r
        → Sends i w s out (wake_next will_wake i (our_turn s r))
    unfolding first_messages
    writes i w s out r o e c (wrote {s'} {ws} f h d k) =
        let (t, wakes, others) =
          wake_at-Parked (suc s.next) (i + 1) s.waiting (later s.next s.waiting o.tidy)
            (omega arith) in
        let all : o.sent ≡ i = o.all_sent c ∙ e in
        sends e (ap suc e)
          (record {
            fits = f;
            spare_kept = k ∙ o.spare_kept;
            tidy = t;
            sent = suc i;
            before_next = omega arith;
            all_sent = λ q. ap suc (sym e);
            bytes =
                ap (λ b. out ++ b) h
                ∙ sym (append_assoc out (held s.state) (message i))
                ∙ ap (λ b. b ++ message i) (o.bytes ∙ ap (first_messages message) all);
          })
          (λ v q. (ws, ap (λ vs. ws ++ vs) (wakes v q))) others
    writes i w s out r o e c (full f h d k l a b) =
        waits_room e
          (record {
            fits = f;
            spare_kept = k ∙ o.spare_kept;
            tidy = o.tidy;
            sent = o.sent;
            before_next = o.before_next;
            all_sent = λ q. o.all_sent c;
            bytes = ap (λ t. out ++ t) h ∙ o.bytes;
          })
          l (ap (λ t. record s { state = t }) b)

    -- For a message that is shorter than the spare part, and a task whose index is not yet passed,
    -- at which no other waits, polling `Send` on an open sender never panics and its waker is never
    -- rejected. At its turn the message joins the bytes that are sent, if it fits, the task of the next
    -- index is woken, and those of later ones stay parked. Before its turn the task is parked, the
    -- tasks of other indices stay so, and nothing else of the sender changes. If the message does not
    -- fit, nothing changes but that the task's waker is kept as the one to wake when there is room.
    pub poll_send-Sends :
        (i : ℕ) (w : W) (s : OrderingSender W) (out : List ℕ)
        → Ordered s out
        → MayPoll will_wake i w s
        → length (message i) < spare
        → Sends i w s out (poll_send will_wake i (message i) w s)
    unfolding poll_send
    poll_send-Sends i w s out o p h = elim (ℕ_discrete s.next i) [
      | yes e ↦
          let c = p.still_open e in
          rw (poll_send, acts i w (write_open will_wake (message i) w) s e)
            (subst (λ r. Sends i w s out (wake_next will_wake i (our_turn s r)))
              (sym (is_open (message i) w s.state c))
              (writes i w s out _ o e c
                (write-Writes size (message i) w s.state o.fits (omega (arith, o.spare_kept)))))
      | no n ↦
          let (s', e, q, k, same, others) =
            parks i w (write_open will_wake (message i) w) s out o p
              (omega (arith, n, p.to_come)) in
          rw (poll_send, e) (waits_turn (omega (arith, n, p.to_come)) q k same others)
    ]
      where
        is_open :
            (m : List ℕ) (w : W) (b : State W)
            → b.closed ≡ false
            → write_open will_wake m w b ≡ write m w b
        is_open m w b c = ap (λ d. unless_closed d (write m w b)) c
