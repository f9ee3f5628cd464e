-- ===== src/Tests/Buffers.antt =====
-- Messages of two bytes, from chunks that are cut in two ways.
use raw_ipa.Prelude.{suc, ◌<◌, ◌⊎◌, inl, ◌==◌, ℕ, ◌≡◌, ◌≢◌, refl, List, [], ◌∷◌, some, none, arith}
use raw_ipa.Helpers.Buffers.Spare.{replace}
use raw_ipa.Helpers.Buffers.Receiver.{OperatingState, Stream, receive_all, add_waker, wake_next}
use raw_ipa.Helpers.Buffers.Receiver.Wakers.{Registered, wake_next-Registered, add_waker-Registered}
use raw_ipa.Helpers.Buffers.Receiver.Laws.{ahead, enough, Messages}
use raw_ipa.Helpers.Buffers.Receiver.Chunks.{receive_all-chunks}
use raw_ipa.Ff.PrimeField.Bytes.{from_le_bytes}

abbrev fresh : OperatingState ℕ
fresh = record {
  next = 0;
  max_polled_idx = 0;
  spare = replace [];
  wakers = none ∷ none ∷ [];
  overflow_wakers = [];
}

abbrev ragged : Stream
ragged = some (1 ∷ []) ∷ none ∷ some (2 ∷ 3 ∷ 4 ∷ 5 ∷ []) ∷ []

abbrev whole : Stream
whole = some (1 ∷ 2 ∷ 3 ∷ []) ∷ some (4 ∷ 5 ∷ []) ∷ none ∷ []

receive_all-chunks_example :
    (ms : List ℕ) × (receive_all 2 from_le_bytes (enough 2 from_le_bytes fresh ragged) fresh ragged
      ≡ some ms)
    × (receive_all 2 from_le_bytes (enough 2 from_le_bytes fresh whole) fresh whole ≡ some ms)
    × Messages 2 from_le_bytes (ahead fresh ragged) ms
receive_all-chunks_example =
    receive_all-chunks 2 from_le_bytes fresh (omega arith) ragged whole refl

-- Records 1 and 2 are awaited by the tasks 7 and 8, with two slots.
abbrev awaited : OperatingState ℕ
awaited = record {
  next = 0;
  max_polled_idx = 0;
  spare = replace [];
  wakers = some 8 ∷ some 7 ∷ [];
  overflow_wakers = [];
}

awaited-Registered : Registered awaited 1 7
awaited-Registered = record { ahead = omega arith; within = omega arith; slot = refl }

wake_next-Registered_example :
    ((1 ≡ suc awaited.next) × ((rest : List ℕ) × ((wake_next awaited).1 ≡ 7 ∷ rest)))
    ⊎ ((suc awaited.next < 1) × Registered (wake_next awaited).0 1 7)
wake_next-Registered_example = wake_next-Registered awaited 1 7 awaited-Registered

-- The first waker of a receiver.
add_waker-Registered_example :
    (s' : OperatingState ℕ) × (add_waker (λ a b. a == b) 2 8 fresh ≡ some s')
    × Registered s' 2 8
    × ((j v : ℕ) → 2 ≢ j → Registered fresh j v → Registered s' j v)
    × (s' ≡ record fresh { wakers = s'.wakers })
add_waker-Registered_example =
    add_waker-Registered (λ a b. a == b) 2 8 fresh (omega arith) (omega arith) (inl refl)
