-- ===== src/Helpers/Buffers/Ordering/Space.antt =====
-- src/helpers/buffers/ordering_sender.rs: room in the buffer, and what it holds.
use raw_ipa.Prelude.{
  ℕ, ◌+◌, ◌≤◌, ◌<◌, ◌≡◌, refl, sym, ap, ◌∙◌, Bool, true, false, ◌||◌, ◌&&◌, List, ◌++◌, ◌⊎◌, inl,
  inr, some, none, length, take, drop, ltb, leb, arith, append_assoc, length-append, length-take,
  length-drop, take-length, Bool-cases, ltb→lt, ltb→ge, lt→ltb, ge→ltb, leb→le, leb→gt, le→leb,
}
use raw_ipa.Helpers.Buffers.Ordering.State.{
  State, Poll, pending, ready, is_available, wake, wake_stream, write, take_written,
}

-- The bytes that are written and not yet taken.
abbrev pub held : {W : Type 0} → State W → List ℕ
held s = take s.written s.buf

take-overwrite :
    (n : ℕ) (xs m : List ℕ)
    → n + length m ≤ length xs
    → take (n + length m) (take n xs ++ (m ++ drop (n + length m) xs)) ≡ take n xs ++ m
take-overwrite n xs m h =
    ap (λ k. take k (take n xs ++ (m ++ drop (n + length m) xs))) (sym size_eq)
    ∙ ap (λ t. take (length (take n xs ++ m)) t)
        (sym (append_assoc (take n xs) m (drop (n + length m) xs)))
    ∙ take-length (take n xs ++ m) (drop (n + length m) xs)
  where
    size_eq : length (take n xs ++ m) ≡ n + length m
    size_eq = omega (arith, length-append (take n xs) m, length-take n xs)

length-overwrite :
    (n : ℕ) (xs m : List ℕ)
    → n + length m ≤ length xs
    → length (take n xs ++ (m ++ drop (n + length m) xs)) ≡ length xs
length-overwrite n xs m h = omega (
  arith,
  length-append (take n xs) (m ++ drop (n + length m) xs),
  length-append m (drop (n + length m) xs),
  length-take n xs,
  length-drop (n + length m) xs,
)

module _ {W : Type 0} (size : ℕ) where
  -- The buffer has its size, what is written lies in it, and the spare part is a proper part.
  pub record Fits (s : State W) : Type 0 where
    pub sized : length s.buf ≡ size
    pub within : s.written ≤ size
    pub has_spare : s.spare < size

  -- What writing a message achieves: it is appended, or there is no room for it and the stream has
  -- bytes to take.
  pub data Writes (m : List ℕ) (w : W) (s : State W) : Poll (State W) W Unit → Type 0 where
    wrote :
        {s' : State W} {ws : List W}
        → Fits s'
        → held s' ≡ held s ++ m
        → s'.closed ≡ s.closed
        → s'.spare ≡ s.spare
        → Writes m w s (ready tt s' ws)
    full :
        {s' : State W}
        → Fits s'
        → held s' ≡ held s
        → s'.closed ≡ s.closed
        → s'.spare ≡ s.spare
        → size < s.written + length m
        → (0 < s'.written) × (is_available s' ≡ true)
        → s' ≡ record s { write_ready = some w }
        → Writes m w s (pending s')

  appended :
      (m : List ℕ) (w : W) (s : State W)
      → Fits s
      → s.written + length m ≤ size
      → Writes m w s (
          wake_stream (record s {
            buf = take s.written s.buf ++ (m ++ drop (s.written + length m) s.buf);
            written = s.written + length m;
          }))
  appended m w s f l = by_test (Bool-cases _)
    where
      fits_buf : s.written + length m ≤ length s.buf
      fits_buf = omega (arith, f.sized)

      t : State W
      t = record s {
        buf = take s.written s.buf ++ (m ++ drop (s.written + length m) s.buf);
        written = s.written + length m;
      }

      size_kept : length t.buf ≡ size
      size_kept = length-overwrite s.written s.buf m fits_buf ∙ f.sized

      kept : Fits t
      kept = record { sized = size_kept; within = l; has_spare = f.has_spare }

      kept_woken : Fits (record t { stream_ready = none })
      kept_woken = record { sized = size_kept; within = l; has_spare = f.has_spare }

      by_test : ((is_available t ≡ true) ⊎ (is_available t ≡ false)) → Writes m w s (wake_stream t)
      by_test (inl e) =
          rw e (wrote kept_woken (take-overwrite s.written s.buf m fits_buf) refl refl)
      by_test (inr e) = rw e (wrote kept (take-overwrite s.written s.buf m fits_buf) refl refl)

  -- Writing a message that is shorter than the spare part never panics and keeps the buffer in
  -- bounds. It appends the message to what is held, or leaves that as it is because the message does
  -- not fit, and then the stream has bytes to take.
  pub write-Writes :
      (m : List ℕ) (w : W) (s : State W) → Fits s → length m < s.spare → Writes m w s (write m w s)
  unfolding write
  write-Writes m w s f h = elim (Bool-cases (leb (length m) (length (drop s.written s.buf)))) [
    | inl e ↦
        rw (write, lt→ltb _ _ h, in_bounds, e)
          (appended m w s f
            (omega (arith, leb→le _ _ e, length-drop s.written s.buf, f.sized, f.within)))
    | inr e ↦
        rw (write, lt→ltb _ _ h, in_bounds, e)
          (full (record { sized = f.sized; within = f.within; has_spare = f.has_spare }) refl refl
            refl (no_room e)
            (omega (arith, no_room e, f.has_spare), le→leb _ _ (omega (arith, no_room e, f.sized)))
            refl)
  ]
    where
      in_bounds : ltb (length s.buf) s.written ≡ false
      in_bounds = ge→ltb _ _ (omega (arith, f.within, f.sized))

      no_room : leb (length m) (length (drop s.written s.buf)) ≡ false → size < s.written + length m
      no_room e = omega (arith, leb→gt _ _ e, length-drop s.written s.buf, f.sized, f.within)

  -- What taking achieves: all that is held, where it reaches into the spare part or the sender is
  -- closed, and else nothing.
  pub data Takes (s : State W) : Poll (State W) W (List ℕ) → Type 0 where
    took :
        {s' : State W}
        → Fits s'
        → s'.written ≡ 0
        → s'.closed ≡ s.closed
        → s'.spare ≡ s.spare
        → 0 < length (held s)
        → length (held s) ≤ size
        → ((s.closed ≡ true) ⊎ (size ≤ length (held s) + s.spare))
        → Takes s (ready (held s) s' (wake s.write_ready))
    nothing :
        {s' : State W}
        → Fits s'
        → held s' ≡ held s
        → s'.closed ≡ s.closed
        → s'.spare ≡ s.spare
        → (s.written ≡ 0) ⊎ ((s.closed ≡ false) × (s.written + s.spare < size))
        → Takes s (pending s')

  -- The test of `State::take`, where the sender is closed, or is not and has too little.
  test :
      (s : State W)
      → 0 < s.written
      → s.closed ≡ true
      → (ltb 0 s.written && (is_available s || s.closed)) ≡ true
  test s h c = rw (lt→ltb 0 s.written h, c) (or_true (is_available s))
    where
      or_true : (b : Bool) → (b || true) ≡ true
      or_true true = refl
      or_true false = refl

  closed_test :
      (s : State W)
      → is_available s ≡ false
      → s.closed ≡ false
      → (ltb 0 s.written && (is_available s || s.closed)) ≡ false
  closed_test s a c = rw (a, c) (and_false (ltb 0 s.written))
    where
      and_false : (b : Bool) → (b && false) ≡ false
      and_false true = refl
      and_false false = refl

  -- Taking never panics and keeps the buffer in bounds. It yields all bytes that are held, at most
  -- the size of the buffer and, while the sender is open, at least that of its part that is not
  -- spare; or none, where none are held or the sender is open and holds fewer than that.
  pub take_written-Takes : (w : W) (s : State W) → Fits s → Takes s (take_written w s)
  unfolding take_written
  take_written-Takes w s f =
      split (Bool-cases (ltb 0 s.written)) (Bool-cases (is_available s)) (Bool-cases s.closed)
    where
      in_bounds : ltb (length s.buf) s.written ≡ false
      in_bounds = ge→ltb _ _ (omega (arith, f.within, f.sized))

      held_size : length (held s) ≡ s.written
      held_size = omega (arith, length-take s.written s.buf, f.within, f.sized)

      emptied : Fits (record s { written = 0; write_ready = none })
      emptied = record { sized = f.sized; within = omega arith; has_spare = f.has_spare }

      waiting : Fits (record s { stream_ready = some w })
      waiting = record { sized = f.sized; within = f.within; has_spare = f.has_spare }

      all_held :
          0 < s.written
          → ((s.closed ≡ true) ⊎ (size ≤ length (held s) + s.spare))
          → Takes s
              (ready (held s) (record s { written = 0; write_ready = none }) (wake s.write_ready))
      all_held h o =
          took emptied refl refl refl (omega (arith, held_size))
            (omega (arith, held_size, f.within)) o

      split :
          ((ltb 0 s.written ≡ true) ⊎ (ltb 0 s.written ≡ false))
          → ((is_available s ≡ true) ⊎ (is_available s ≡ false))
          → ((s.closed ≡ true) ⊎ (s.closed ≡ false))
          → Takes s (take_written w s)
      split (inr z) a c =
          rw (take_written, z) (nothing waiting refl refl refl (inl (omega (arith, ltb→ge _ _ z))))
      split (inl p) (inl a) c =
          rw (take_written, p, a, in_bounds)
            (all_held (ltb→lt _ _ p) (inr (omega (arith, leb→le _ _ a, held_size, f.sized))))
      split (inl p) (inr a) (inl c) =
          rw (take_written, test s (ltb→lt _ _ p) c, in_bounds) (all_held (ltb→lt _ _ p) (inl c))
      split (inl p) (inr a) (inr c) =
          rw (take_written, closed_test s a c)
            (nothing waiting refl refl refl (inr (c, omega (arith, leb→gt _ _ a, f.sized))))
