-- ===== src/Helpers/Stream/Deque.antt =====
-- src/helpers/transport/stream/input.rs: `BufDeque`, chunks of bytes from which items are read.
pub mod Laws
use raw_ipa.Prelude.{
  ℕ, zero, suc, ◌+◌, ◌-◌, ◌*◌, Bool, true, false, ◌||◌, List, [], ◌∷◌, ◌++◌, Option, some, none,
  length, take, drop, ltb, leb, ◌==◌, if◌then◌else◌,
}

-- `BufDeque`, its chunks from the front.
pub record BufDeque : Type 0 where
  pub buffered_size : ℕ
  pub buffered : List (List ℕ)

-- `BufDeque::new`
abbrev pub empty : BufDeque
empty = record { buffered_size = 0; buffered = [] }

abbrev pub first_len : List (List ℕ) → ℕ
first_len [] = 0
first_len (b ∷ bs) = length b

-- `contiguous_len`
unfoldable pub contiguous_len : BufDeque → ℕ
contiguous_len d = first_len d.buffered

-- What reading yields; a read outside the buffer panics.
pub data Read (A : Type 0) : Type 0 where
  out_of_range : Read A
  too_few : Read A
  chunk : A → BufDeque → Read A

-- The loop of `read_bytes` that fills `out_bytes`, a vector with the capacity `len`; `none` is a
-- read outside the buffer, or a round too many.
unfoldable pub gather : ℕ → ℕ → List ℕ → List (List ℕ) → Option (List ℕ × List (List ℕ))
gather zero len out bufs = none
gather (suc fuel) len out bufs =
    let remaining_bytes = len - length out in
    elim (remaining_bytes == 0) [
      | true ↦ some (out, bufs)
      | false ↦ elim bufs [
        | [] ↦ none
        | b ∷ bs ↦ elim (ltb remaining_bytes (length b)) [
          | true ↦ gather fuel len (out ++ take remaining_bytes b) (drop remaining_bytes b ∷ bs)
          | false ↦ gather fuel len (out ++ b) bs
        ]
      ]
    ]

-- Rounds for every chunk, for a chunk that is split, and for the last test.
abbrev pub rounds : List (List ℕ) → ℕ
rounds bufs = suc (suc (length bufs))

-- `Bytes::split_to` on the first chunk, which is dropped once it is empty.
abbrev pub put_back : List ℕ → List (List ℕ) → List (List ℕ)
put_back [] bs = bs
put_back (x ∷ xs) bs = (x ∷ xs) ∷ bs

-- The end of `read_bytes`, with the bytes that the loop gathered.
abbrev pub gathered : BufDeque → Option (List ℕ × List (List ℕ)) → Read (List ℕ)
gathered d none = out_of_range
gathered d (some (out, rest)) =
    chunk out (record { buffered_size = d.buffered_size - length out; buffered = rest })

-- `read_bytes` of enough bytes, from the chunks that there are.
abbrev pub from_front : BufDeque → ℕ → List (List ℕ) → Read (List ℕ)
from_front d len [] = out_of_range
from_front d len (b ∷ bs) =
    if leb len (length b)
    then chunk (take len b)
        (record { buffered_size = d.buffered_size - len; buffered = put_back (drop len b) bs })
    else gathered d (gather (rounds (b ∷ bs)) len [] (b ∷ bs))

-- `read_bytes`
unfoldable pub read_bytes : ℕ → BufDeque → Read (List ℕ)
read_bytes len d =
    if (len == 0) || ltb d.buffered_size len then too_few else from_front d len d.buffered

module _ {T : Type 0} (sz : ℕ) (deserialize : List ℕ → T) where
  -- `chunks(T::Size::USIZE)`, each deserialized; there are no more chunks than bytes.
  unfoldable pub deserialize_chunks : ℕ → List ℕ → List T
  deserialize_chunks zero bs = []
  deserialize_chunks (suc fuel) [] = []
  deserialize_chunks (suc fuel) (b ∷ bs) =
      deserialize (take sz (b ∷ bs)) ∷ deserialize_chunks fuel (drop sz (b ∷ bs))

  -- `read_multi`. To cut bytes into chunks of no bytes panics.
  unfoldable pub read_multi : ℕ → BufDeque → Read (List T)
  read_multi count d = elim (read_bytes (count * sz) d) [
    | out_of_range ↦ out_of_range
    | too_few ↦ too_few
    | chunk bytes d' ↦ chunk (deserialize_chunks (length bytes) bytes) d'
  ]

  -- `read`
  unfoldable pub read : BufDeque → Read T
  read d = elim (read_bytes sz d) [
    | out_of_range ↦ out_of_range
    | too_few ↦ too_few
    | chunk bytes d' ↦ chunk (deserialize bytes) d'
  ]

-- What a stream of bytes yields: bytes, or an error.
pub data Chunk : Type 0 where
  arrived : List ℕ → Chunk
  failed : Chunk

-- The errors of the streams: bytes that are left at the end, a failure, or a bad item.
pub data IoError : Type 0 where
  write_zero : ℕ → IoError
  unexpected_eof : IoError
  invalid_data : IoError

-- `ExtendResult`
pub data ExtendResult : Type 0 where
  ok : BufDeque → ExtendResult
  finished : ExtendResult
  error : IoError → ExtendResult

-- `extend`, by what the stream yields, `none` at its end.
unfoldable pub extend : Option Chunk → BufDeque → ExtendResult
extend none d = if ltb 0 d.buffered_size then error (write_zero d.buffered_size) else finished
extend (some failed) d = error unexpected_eof
extend (some (arrived bytes)) d = ok (record {
  buffered_size = d.buffered_size + length bytes;
  buffered = d.buffered ++ (bytes ∷ []);
})
