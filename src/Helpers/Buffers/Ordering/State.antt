-- ===== src/Helpers/Buffers/Ordering/State.antt =====
-- src/helpers/buffers/ordering_sender.rs: `State`, the buffer into which messages are written.
use raw_ipa.Prelude.{
  ℕ, ◌+◌, Bool, true, false, ◌||◌, ◌&&◌, List, [], ◌∷◌, ◌++◌, Option, some, none, length, take,
  drop, replicate, ltb, leb, if◌then◌else◌,
}

-- `State`, for wakers of the type `W`.
pub record State (W : Type 0) : Type 0 where
  pub buf : List ℕ
  pub spare : ℕ
  pub written : ℕ
  pub closed : Bool
  pub write_ready : Option W
  pub stream_ready : Option W

-- `State::new`; both sizes are `NonZeroUsize`.
unfoldable pub new_state : {W : Type 0} → ℕ → ℕ → State W
new_state capacity spare = record {
  buf = replicate (capacity + spare) 0;
  spare = spare;
  written = 0;
  closed = false;
  write_ready = none;
  stream_ready = none;
}

-- `Poll` of a state of the type `S`, with the wakers that were woken.
pub data Poll (S W A : Type 0) : Type 0 where
  panic : Poll S W A
  pending : S → Poll S W A
  ready : A → S → List W → Poll S W A

-- `State::wake`
abbrev pub wake : {W : Type 0} → Option W → List W
wake none = []
wake (some w) = w ∷ []

module _ {W : Type 0} where
  -- Whether what is written reaches into the spare part.
  abbrev pub is_available : State W → Bool
  is_available s = leb (length s.buf) (s.written + s.spare)

  abbrev pub wake_stream : State W → Poll (State W) W Unit
  wake_stream s =
      if is_available s
      then ready tt (record s { stream_ready = none }) (wake s.stream_ready)
      else ready tt s []

  -- `State::write` of a message, which is the bytes that it serializes to.
  unfoldable pub write : List ℕ → W → State W → Poll (State W) W Unit
  write m w s =
      if ltb (length m) s.spare
      then (if ltb (length s.buf) s.written
          then panic
          else (if leb (length m) (length (drop s.written s.buf))
              then wake_stream (record s {
                buf = take s.written s.buf ++ (m ++ drop (s.written + length m) s.buf);
                written = s.written + length m;
              })
              else pending (record s { write_ready = some w })))
      else panic

  -- `State::take`
  unfoldable pub take_written : W → State W → Poll (State W) W (List ℕ)
  take_written w s =
      if ltb 0 s.written && (is_available s || s.closed)
      then (if ltb (length s.buf) s.written
          then panic
          else ready (take s.written s.buf) (record s { written = 0; write_ready = none })
              (wake s.write_ready))
      else pending (record s { stream_ready = some w })

  -- `State::close`, with debug assertions or without; it wakes the stream.
  unfoldable pub close : Bool → State W → Poll (State W) W Unit
  close debug s =
      if debug && s.closed
      then panic
      else ready tt (record s { closed = true; stream_ready = none }) (wake s.stream_ready)
