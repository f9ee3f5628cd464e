-- ===== src/Helpers/Buffers/Receiver/Laws.antt =====
-- src/helpers/buffers/unordered_receiver.rs: the bytes ahead of a receiver and the messages in them.
use raw_ipa.Prelude.{
  ℕ, zero, suc, max, ◌+◌, ◌≤◌, ◌<◌, ◌≡◌, refl, sym, ap, ◌∙◌, subst, List, [], ◌∷◌, ◌++◌, some, none,
  length, append_assoc, length-append, arith, inl, inr,
}
use raw_ipa.Helpers.Buffers.Spare.{unread, read_lem, extend_lem}
use raw_ipa.Helpers.Buffers.Receiver.{
  OperatingState, Stream, Polled, pending, end_of_stream, ready, wake_next, poll_stream, poll_next,
  receive_all,
}

-- The bytes that a stream brings.
abbrev pub bytes : Stream → List ℕ
bytes [] = []
bytes (none ∷ xs) = bytes xs
bytes (some b ∷ xs) = b ++ bytes xs

-- Bytes that have arrived or will.
abbrev pub ahead : {W : Type 0} → OperatingState W → Stream → List ℕ
ahead s xs = unread s.spare ++ bytes xs

module _ {M : Type 0} (sz : ℕ) (deserialize : List ℕ → M) where
  -- The messages of a sequence of bytes: one for every `sz` of them, as long as there are as many.
  pub data Messages : List ℕ → List M → Type 0 where
    end : {rest : List ℕ} → length rest < sz → Messages rest []
    one_more :
        {block rest : List ℕ} {ms : List M}
        → length block ≡ sz
        → Messages rest ms
        → Messages (block ++ rest) (deserialize block ∷ ms)

module _ {W M : Type 0} (sz : ℕ) (deserialize : List ℕ → M) where
  -- What a poll of the next record achieves: the message of the next `sz` bytes, or no loss while it
  -- waits, or the end, when fewer bytes than a message are left.
  pub data Progress (s : OperatingState W) (xs : Stream) : Polled W M → Type 0 where
    got :
        {block : List ℕ} {s' : OperatingState W} {ws : List W} {xs' : Stream}
        → length block ≡ sz
        → ahead s xs ≡ block ++ ahead s' xs'
        → s'.next ≡ suc s.next
        → length xs' ≤ length xs
        → Progress s xs (ready (deserialize block) s' ws xs')
    waits :
        {s' : OperatingState W} {xs' : Stream}
        → ahead s xs ≡ ahead s' xs'
        → s'.next ≡ s.next
        → length xs' < length xs
        → Progress s xs (pending s' xs')
    ends :
        {s' : OperatingState W} → length (ahead s xs) < sz → Progress s xs (end_of_stream s.next s')

  -- Progress from a state that has the same bytes ahead.
  widen :
      (s t : OperatingState W) (xs ys : Stream) (p : Polled W M)
      → ahead s xs ≡ ahead t ys
      → s.next ≡ t.next
      → length ys ≤ length xs
      → Progress t ys p
      → Progress s xs p
  widen s t xs ys p e n l (got b a m k) = got b (e ∙ a) (m ∙ ap suc (sym n)) (omega arith)
  widen s t xs ys p e n l (waits a m k) = waits (e ∙ a) (m ∙ sym n) (omega arith)
  widen s t xs ys p e n l (ends {s'} k) =
      subst (λ i. Progress s xs (end_of_stream i s')) n
        (ends {s' = s'} (subst (λ u. length u < sz) (sym e) k))

  poll_stream-Progress :
      (s : OperatingState W) (xs : Stream)
      → length (unread s.spare) < sz
      → Progress s xs (poll_stream sz deserialize s xs)
  unfolding poll_stream wake_next
  poll_stream-Progress s [] h = ends (omega (arith, length-append (unread s.spare) []))
  poll_stream-Progress s (none ∷ xs) h = waits refl refl (omega arith)
  poll_stream-Progress s (some b ∷ xs) h = elim (extend_lem sz deserialize s.spare b h) [
    | inl (block, sp, e, l, u) ↦
        rw (e, poll_stream)
          (got l
            (sym (append_assoc (unread s.spare) b (bytes xs))
              ∙ ap (λ t. t ++ bytes xs) u
              ∙ append_assoc block (unread sp) (bytes xs))
            refl (omega arith))
    | inr (sp, e, u, l) ↦
        rw (e, poll_stream)
          (widen s (record s { spare = sp }) (some b ∷ xs) xs _
            (sym (append_assoc (unread s.spare) b (bytes xs)) ∙ ap (λ t. t ++ bytes xs) (sym u))
            refl (omega arith) (poll_stream-Progress (record s { spare = sp }) xs l))
  ]

  -- For messages of at least one byte, polling for the next record never panics, whatever the
  -- stream brings. It delivers the message of the next bytes and advances the cursor, or is pending
  -- and loses nothing, or is at the end with fewer bytes than a message left.
  pub poll_next-Progress :
      (s : OperatingState W) (xs : Stream) → 1 ≤ sz → Progress s xs (poll_next sz deserialize s xs)
  unfolding poll_next wake_next
  poll_next-Progress s xs h = elim (read_lem sz deserialize s.spare h) [
    | inl (block, sp, e, l, u) ↦
        rw (e, poll_next)
          (got l (ap (λ t. t ++ bytes xs) u ∙ append_assoc block (unread sp) (bytes xs)) refl
            (omega arith))
    | inr (e, l) ↦
        rw (e, poll_next)
          (widen s polled xs xs _ refl refl (omega arith) (poll_stream-Progress polled xs l))
  ]
    where
      polled : OperatingState W
      polled = record s { max_polled_idx = max s.max_polled_idx s.next }

  -- Fuel for all polls until the end of the stream.
  abbrev pub enough : OperatingState W → Stream → ℕ
  enough s xs = suc (length (ahead s xs) + length xs)

  abbrev pub Received : ℕ → OperatingState W → Stream → Type 0
  Received fuel s xs =
      (ms : List M) × (receive_all sz deserialize fuel s xs ≡ some ms)
      × Messages sz deserialize (ahead s xs) ms

  one_poll :
      (fuel : ℕ) (s : OperatingState W) (xs : Stream) (p : Polled W M)
      → 1 ≤ sz
      → enough s xs ≤ suc fuel
      → poll_next sz deserialize s xs ≡ p
      → ((s' : OperatingState W) (xs' : Stream) → enough s' xs' ≤ fuel → Received fuel s' xs')
      → Progress s xs p
      → Received (suc fuel) s xs
  unfolding receive_all
  one_poll fuel s xs p h k e ih (got {block} {s'} {ws} {xs'} l a n m) =
      let (ms, q, r) = ih s' xs' (omega (arith, ap length a, length-append block (ahead s' xs'))) in
      (
        deserialize block ∷ ms,
        rw (receive_all, e, q) refl,
        subst (λ u. Messages sz deserialize u (deserialize block ∷ ms)) (sym a) (one_more l r),
      )
  one_poll fuel s xs p h k e ih (waits {s'} {xs'} a n m) =
      let (ms, q, r) = ih s' xs' (omega (arith, ap length a)) in
      (ms, rw (receive_all, e, q) refl, subst (λ u. Messages sz deserialize u ms) (sym a) r)
  one_poll fuel s xs p h k e ih (ends l) = ([], rw (receive_all, e) refl, end l)

  pub received :
      (fuel : ℕ) (s : OperatingState W) (xs : Stream)
      → 1 ≤ sz
      → enough s xs ≤ fuel
      → Received fuel s xs
  received zero s xs h k = elim k [ ]
  received (suc fuel) s xs h k =
      one_poll fuel s xs (poll_next sz deserialize s xs) h k refl
        (λ s' xs' l. received fuel s' xs' h l) (poll_next-Progress s xs h)
