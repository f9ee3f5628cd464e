-- ===== src/Helpers/Buffers/Ordering/Progress.antt =====
-- src/helpers/buffers/ordering_sender.rs: a message that does not fit, and the stream that makes room.
use raw_ipa.Prelude.{
  ℕ, ◌+◌, ◌≤◌, ◌<◌, ◌≡◌, refl, ap, ap₂, ◌∙◌, true, List, [], ◌∷◌, ◌⊎◌, inl, inr, none, length,
  arith, lt→ltb, ge→ltb,
}
use raw_ipa.Helpers.Buffers.Ordering.State.{
  State, Poll, pending, ready, wake, is_available, write, take_written,
}
use raw_ipa.Helpers.Buffers.Ordering.Space.{held, Fits, Writes, wrote, full, write-Writes}

module _ {W : Type 0} (size : ℕ) where
  abbrev Ready : {A : Type 0} → Poll (State W) W A → Type 0
  Ready {A} p = (a : A) × (s : State W) × (ws : List W) × (p ≡ ready a s ws)

  written_now :
      (m : List ℕ) (w : W) (s : State W) (p : Poll (State W) W Unit)
      → s.written + length m ≤ size
      → write m w s ≡ p
      → Writes size m w s p
      → Ready (write m w s)
  written_now m w s p h e (wrote {s'} {ws} f a b c) = (tt, s', ws, e)
  written_now m w s p h e (full f a b c l o r) = absurd (omega arith)

  abbrev Emptied : State W → State W
  Emptied s = record s { written = 0; write_ready = none }

  take_available :
      (v : W) (s : State W)
      → Fits size s
      → 0 < s.written
      → is_available s ≡ true
      → take_written v s ≡ ready (held s) (Emptied s) (wake s.write_ready)
  unfolding take_written
  take_available v s f h a =
      rw
        (
          take_written,
          lt→ltb 0 s.written h,
          a,
          ge→ltb (length s.buf) s.written (omega (arith, f.within, f.sized)),
        )
        refl

  -- Writing a message either succeeds, or waits for the stream, whose next poll then yields all that
  -- is held, and wakes the writer, for whom writing now succeeds.
  abbrev pub Proceeds : List ℕ → W → W → State W → Type 0
  Proceeds m w v s =
      Ready (write m w s)
      ⊎ ((s' : State W) × (t : State W) × (write m w s ≡ pending s')
          × (take_written v s' ≡ ready (held s) t (w ∷ []))
          × Ready (write m w t))

  after_write :
      (m : List ℕ) (w v : W) (s : State W) (p : Poll (State W) W Unit)
      → length m < s.spare
      → write m w s ≡ p
      → Writes size m w s p
      → Proceeds m w v s
  after_write m w v s p h e (wrote {s'} {ws} f a b c) = inl (tt, s', ws, e)
  after_write m w v s p h e (full {s'} f a b c l o r) = inr (
    s',
    Emptied s',
    e,
    take_available v s' f o.0 o.1
        ∙ ap₂ (λ b ws. ready b (Emptied s') ws) a (ap (λ t. wake t.write_ready) r),
    written_now m w (Emptied s') _ (omega (arith, c, f.has_spare)) refl (
        write-Writes size m w (Emptied s')
          (record { sized = f.sized; within = omega arith; has_spare = f.has_spare })
          (omega (arith, c))),
  )

  -- No sender of a message that is shorter than the spare part waits in vain: either its write
  -- succeeds, or the stream has bytes to take at once, and after that the write succeeds.
  pub write-Proceeds :
      (m : List ℕ) (w v : W) (s : State W) → Fits size s → length m < s.spare → Proceeds m w v s
  write-Proceeds m w v s f h = after_write m w v s _ h refl (write-Writes size m w s f h)
