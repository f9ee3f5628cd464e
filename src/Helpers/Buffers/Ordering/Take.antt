-- ===== src/Helpers/Buffers/Ordering/Take.antt =====
-- src/helpers/buffers/ordering_sender.rs: polling the stream of a sender.
use raw_ipa.Prelude.{
  ℕ, ◌+◌, ◌≤◌, ◌<◌, ◌≡◌, refl, sym, ap, ◌∙◌, subst, true, false, List, [], ◌++◌, ◌⊎◌, inl, inr,
  Option, some, none, length, take, ◌≢◌, arith, append-nil, Bool-cases,
}
use raw_ipa.Helpers.Buffers.Ordering.State.{State, Poll}
use raw_ipa.Helpers.Buffers.Ordering.Space.{held, Takes, took, nothing, take_written-Takes}
use raw_ipa.Helpers.Buffers.Ordering.Parked.{wake_at-Parked}
use raw_ipa.Helpers.Buffers.Ordering.Sender.{
  OrderingSender, Polled, pending, ready, end_or_wait, or_end, take_next,
}
use raw_ipa.Helpers.Buffers.Ordering.Order.{first_messages, Ordered}

held-none : {W : Type 0} (b : State W) → b.written ≡ 0 → held b ≡ []
held-none b e = ap (λ n. take n b.buf) e

true_ne : true ≢ false
true_ne e = cc

module _ {W : Type 0} (size spare : ℕ) (message : ℕ → List ℕ) where
  -- What polling the stream achieves.
  pub data Yields (s : OrderingSender W) (out : List ℕ) : Polled W (Option (List ℕ)) → Type 0 where
    yields :
        {v : List ℕ} {s' : OrderingSender W} {ws : List W}
        → Ordered size spare message s' (out ++ v)
        → s'.next ≡ s.next
        → 0 < length v
        → length v ≤ size
        → Yields s out (ready (some v) s' ws)
    ended :
        {s' : OrderingSender W} {ws : List W} (o : Ordered size spare message s' out)
        → s.state.closed ≡ true
        → out ≡ first_messages message o.sent
        → Yields s out (ready none s' ws)
    waits :
        {s' : OrderingSender W}
        → Ordered size spare message s' out
        → s.state.closed ≡ false
        → s.state.written + spare < size ⊎ (s.state.written ≡ 0)
        → Yields s out (pending s')

  drained :
      (s : OrderingSender W) (out : List ℕ) (r : Poll (State W) W (List ℕ))
      → Ordered size spare message s out
      → Takes size s.state r
      → Yields s out (or_end s r)
  drained s out r o (took {s'} f z c k h l a) =
      yields
        (record {
          fits = f;
          spare_kept = k ∙ o.spare_kept;
          tidy = (wake_at-Parked s.next s.next s.waiting o.tidy (omega arith)).0;
          sent = o.sent;
          before_next = o.before_next;
          all_sent = λ q. o.all_sent (sym c ∙ q);
          bytes =
              ap (λ b. (out ++ held s.state) ++ b) (held-none s' z)
              ∙ append-nil (out ++ held s.state)
              ∙ o.bytes;
        })
        refl h l
  drained s out r o (nothing {s'} f h c k a) = by_case (Bool-cases s'.closed) a
    where
      same : Ordered size spare message (record s { state = s' }) out
      same = record {
        fits = f;
        spare_kept = k ∙ o.spare_kept;
        tidy = o.tidy;
        sent = o.sent;
        before_next = o.before_next;
        all_sent = λ q. o.all_sent (sym c ∙ q);
        bytes = ap (λ b. out ++ b) h ∙ o.bytes;
      }

      open_waits :
          s'.closed ≡ false
          → ((s.state.written + spare < size) ⊎ (s.state.written ≡ 0))
          → Yields s out (or_end s (Poll.pending s'))
      open_waits e b =
          subst (λ d. Yields s out (end_or_wait (record s { state = s' }) d)) (sym e)
            (waits same (sym c ∙ e) b)

      by_case :
          ((s'.closed ≡ true) ⊎ (s'.closed ≡ false))
          → ((s.state.written ≡ 0)
              ⊎ ((s.state.closed ≡ false) × (s.state.written + s.state.spare < size)))
          → Yields s out (or_end s (Poll.pending s'))
      by_case (inl e) (inl z) =
          subst (λ d. Yields s out (end_or_wait (record s { state = s' }) d)) (sym e)
            (ended same (sym c ∙ e)
              (sym (append-nil out) ∙ ap (λ b. out ++ b) (sym (held-none s.state z)) ∙ o.bytes))
      by_case (inl e) (inr (d, _)) = absurd (true_ne (sym e ∙ c ∙ d))
      by_case (inr e) (inl z) = open_waits e (inr z)
      by_case (inr e) (inr (d, l)) = open_waits e (inl (omega (arith, l, o.spare_kept)))

  -- Polling the stream never panics. It yields bytes, more than none and at most the size of the
  -- buffer, which follow those that it has yielded in the order of their messages; or it ends, when
  -- the sender is closed and all bytes of the messages sent have left; or it waits, while the sender
  -- is open and has nothing or too little.
  pub take_next-Yields :
      (w : W) (s : OrderingSender W) (out : List ℕ)
      → Ordered size spare message s out
      → Yields s out (take_next w s)
  unfolding take_next
  take_next-Yields w s out o = drained s out _ o (take_written-Takes size w s.state o.fits)
