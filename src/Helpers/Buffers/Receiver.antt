-- ===== src/Helpers/Buffers/Receiver.antt =====
-- src/helpers/buffers/unordered_receiver.rs: `OperatingState`, from which messages are received.
pub mod Laws
pub mod Chunks
pub mod Wakers
use raw_ipa.Prelude.{
  ℕ, zero, suc, ◌+◌, ◌/◌, ◌%◌, max, Bool, true, false, List, [], ◌∷◌, ◌++◌, Option, some, none,
  length, get_or, set, ltb, ◌==◌, if◌then◌else◌, replicate,
}
use raw_ipa.Helpers.Buffers.Spare.{
  Spare, Extended, out_of_range, saved, message, replace, read, extend,
}

-- `OperatingState`, less the stream, for wakers of the type `W`, in a build without stall detection.
pub record OperatingState (W : Type 0) : Type 0 where
  pub next : ℕ
  pub max_polled_idx : ℕ
  pub spare : Spare
  pub wakers : List (Option W)
  pub overflow_wakers : List W

-- What the stream answers when it is polled, in order: a chunk, or `none` where it is pending. The
-- end of the list is the end of the stream.
abbrev pub Stream : Type 0
Stream = List (Option (List ℕ))

-- `UnorderedReceiver::new`; `none` is the failed assertion.
unfoldable pub new : {W : Type 0} → ℕ → Option (OperatingState W)
new capacity =
    if ltb 1 capacity
    then some (record {
      next = 0;
      max_polled_idx = 0;
      spare = replace [];
      wakers = replicate capacity none;
      overflow_wakers = [];
    })
    else none

-- How polling ends, with the wakers that were woken.
pub data Polled (W M : Type 0) : Type 0 where
  panic : Polled W M
  pending : OperatingState W → Stream → Polled W M
  end_of_stream : ℕ → OperatingState W → Polled W M
  ready : M → OperatingState W → List W → Stream → Polled W M

abbrev pub before : {M : Type 0} → M → Option (List M) → Option (List M)
before m none = none
before m (some ms) = some (m ∷ ms)

module _ {W : Type 0} where
  -- `add_waker`; `none` is a failed assertion.
  unfoldable pub add_waker : (W → W → Bool) → ℕ → W → OperatingState W → Option (OperatingState W)
  add_waker will_wake i waker s =
      if ltb s.next i
      then (if ltb (s.next + length s.wakers) i
          then some (record s { overflow_wakers = s.overflow_wakers ++ (waker ∷ []) })
          else store (get_or s.wakers (i % length s.wakers) none))
      else none
    where
      stored : OperatingState W
      stored = record s { wakers = set s.wakers (i % length s.wakers) (some waker) }

      store : Option W → Option (OperatingState W)
      store none = some stored
      store (some old) = if will_wake waker old then some stored else none

  abbrev pub woken : Option W → List W
  woken none = []
  woken (some w) = w ∷ []

  -- `wake_next`, with the wakers that it wakes.
  unfoldable pub wake_next : OperatingState W → OperatingState W × List W
  wake_next s =
      let next = suc s.next in
      let index = next % length s.wakers in
      let cadence = (next % (length s.wakers / 2)) == 0 in
      (
        record s {
          next = next;
          wakers = set s.wakers index none;
          overflow_wakers = if cadence then [] else s.overflow_wakers;
        },
        woken (get_or s.wakers index none) ++ (if cadence then s.overflow_wakers else []),
      )

  module _ {M : Type 0} (sz : ℕ) (deserialize : List ℕ → M) where
    abbrev pub deliver : M → OperatingState W → Stream → Polled W M
    deliver m s xs = let (s', ws) = wake_next s in ready m s' ws xs

    -- The loop of `poll_next`.
    unfoldable pub poll_stream : OperatingState W → Stream → Polled W M
    poll_stream s [] = end_of_stream s.next s
    poll_stream s (none ∷ xs) = pending s xs
    poll_stream s (some b ∷ xs) = elim (extend sz deserialize s.spare b) [
      | out_of_range ↦ panic
      | saved spare ↦ poll_stream (record s { spare = spare }) xs
      | message m spare ↦ deliver m (record s { spare = spare }) xs
    ]

    unfoldable pub poll_next : OperatingState W → Stream → Polled W M
    poll_next s xs =
        let s' = record s { max_polled_idx = max s.max_polled_idx s.next } in
        elim (read sz deserialize s.spare) [
          | some (m, spare) ↦ deliver m (record s' { spare = spare }) xs
          | none ↦ poll_stream s' xs
        ]

    -- `Receiver::poll`, of the record `i`, by a task with this waker.
    unfoldable pub poll : (W → W → Bool) → W → ℕ → OperatingState W → Stream → Polled W M
    poll will_wake waker i s xs =
        if i == s.next then poll_next s xs else wait (add_waker will_wake i waker s)
      where
        wait : Option (OperatingState W) → Polled W M
        wait none = panic
        wait (some s') = pending s' xs

    -- All messages until the end of the stream, polled in order and again whenever the stream is
    -- pending; `none` where the fuel does not last or a poll panics.
    unfoldable pub receive_all : ℕ → OperatingState W → Stream → Option (List M)
    receive_all zero s xs = none
    receive_all (suc fuel) s xs = elim (poll_next s xs) [
      | panic ↦ none
      | pending s' xs' ↦ receive_all fuel s' xs'
      | end_of_stream _ _ ↦ some []
      | ready m s' ws xs' ↦ before m (receive_all fuel s' xs')
    ]
