-- ===== src/Helpers/Stream/Records.antt =====
-- src/helpers/transport/stream/input.rs: `RecordsStream`, items of a fixed size.
pub mod Laws
pub mod Collect
use raw_ipa.Prelude.{
  ℕ, zero, suc, ◌/◌, max, Bool, true, false, List, [], ◌∷◌, ◌++◌, Option, some, none, ◌==◌,
  if◌then◌else◌,
}
use raw_ipa.Helpers.Stream.Deque.{
  BufDeque, Read, out_of_range, too_few, chunk, Chunk, IoError, ExtendResult, ok, finished, error,
  contiguous_len, read_multi, extend,
}

-- What a stream answers when it is polled, in order, `none` where it is pending. The end of the list
-- is its end, which a fused stream repeats.
abbrev pub Stream : Type 0
Stream = List (Option Chunk)

-- How a poll ends.
pub data Polled (T : Type 0) : Type 0 where
  panic : Polled T
  pending : BufDeque → Stream → Polled T
  items : List T → BufDeque → Stream → Polled T
  broken : IoError → Polled T
  end_of_stream : Polled T

abbrev pub before :
    {T : Type 0} → List T → Option (List T × Option IoError) → Option (List T × Option IoError)
before ms none = none
before ms (some (ns, e)) = some (ms ++ ns, e)

-- At the end of the stream `extend` does not answer `ok`.
abbrev pub at_end : {T : Type 0} → ExtendResult → Polled T
at_end (ok d) = panic
at_end finished = end_of_stream
at_end (error e) = broken e

module _ {T : Type 0} (sz : ℕ) (deserialize : List ℕ → T) where
  -- The read with which a round of `poll_next` begins. To divide by a size of zero panics.
  unfoldable pub attempt : BufDeque → Read (List T)
  attempt d =
      if sz == 0 then out_of_range else read_multi sz deserialize (max 1 (contiguous_len d / sz)) d

  -- `RecordsStream::poll_next`
  unfoldable pub poll_next : BufDeque → Stream → Polled T
  poll_next d [] = elim (attempt d) [
    | out_of_range ↦ panic
    | chunk ms d' ↦ items ms d' []
    | too_few ↦ at_end (extend none d)
  ]
  poll_next d (none ∷ xs) = elim (attempt d) [
    | out_of_range ↦ panic
    | chunk ms d' ↦ items ms d' (none ∷ xs)
    | too_few ↦ pending d xs
  ]
  poll_next d (some c ∷ xs) = elim (attempt d) [
    | out_of_range ↦ panic
    | chunk ms d' ↦ items ms d' (some c ∷ xs)
    | too_few ↦ elim (extend (some c) d) [
      | ok d' ↦ poll_next d' xs
      | finished ↦ end_of_stream
      | error e ↦ broken e
    ]
  ]

  -- Polls until the end of the stream or the first error, and again whenever it is pending; `none`
  -- where the fuel does not last or a poll panics.
  unfoldable pub collect : ℕ → BufDeque → Stream → Option (List T × Option IoError)
  collect zero d xs = none
  collect (suc fuel) d xs = elim (poll_next d xs) [
    | panic ↦ none
    | pending d' xs' ↦ collect fuel d' xs'
    | items ms d' xs' ↦ before ms (collect fuel d' xs')
    | broken e ↦ some ([], some e)
    | end_of_stream ↦ some ([], none)
  ]
