-- ===== src/Helpers/Buffers/Ordering/Waiting.antt =====
-- src/helpers/buffers/ordering_sender.rs: `WaitingShard` and `Waiting`, the wakers of tasks that
-- wait for their turn.
use raw_ipa.Prelude.{
  ℕ, ◌/◌, ◌%◌, ◌^◌, max, compare, Ordering, Bool, List, [], ◌∷◌, Option, some, none, replicate,
  get_or, set, ltb, if◌then◌else◌,
}

-- `WakerItem`
pub record WakerItem (W : Type 0) : Type 0 where
  pub i : ℕ
  pub w : W

-- `WaitingShard`
pub record WaitingShard (W : Type 0) : Type 0 where
  pub woken_at : ℕ
  pub wakers : List (WakerItem W)

-- How far the search of `add` from the back has come: every item so far has a greater index, or the
-- waker is placed.
pub data Search (W : Type 0) : Type 0 where
  all_greater : Search W
  placed : List (WakerItem W) → Search W
  other_task : Search W

-- How adding a waker ends; `panic` is the failed assertion that it wakes the same task.
pub data Added (S : Type 0) : Type 0 where
  added : S → Added S
  rejected : Added S
  panic : Added S

module _ {W : Type 0} (will_wake : W → W → Bool) where
  -- The loop of `add`, which looks at the last item first.
  unfoldable pub search_back : WakerItem W → List (WakerItem W) → Search W
  search_back item [] = all_greater
  search_back item (x ∷ xs) = elim (search_back item xs) [
    | placed ys ↦ placed (x ∷ ys)
    | other_task ↦ other_task
    | all_greater ↦ elim (compare x.i item.i) [
      | Ordering.gt ↦ all_greater
      | Ordering.eq ↦ if will_wake item.w x.w then placed (item ∷ xs) else other_task
      | Ordering.lt ↦ placed (x ∷ (item ∷ xs))
    ]
  ]

  -- `WaitingShard::add`
  unfoldable pub add_to_shard : ℕ → ℕ → W → WaitingShard W → Added (WaitingShard W)
  add_to_shard current i w s =
      if ltb current s.woken_at
      then rejected
      else elim (search_back (record { i = i; w = w }) s.wakers) [
        | placed ys ↦ added (record s { wakers = ys })
        | all_greater ↦ added (record s { wakers = record { i = i; w = w } ∷ s.wakers })
        | other_task ↦ panic
      ]

module _ {W : Type 0} where
  -- The waker of an index among items up to that index, and the items after it.
  unfoldable pub find_waker : ℕ → List (WakerItem W) → Option (W × List (WakerItem W))
  find_waker i [] = none
  find_waker i (x ∷ xs) =
      let rest = find_waker i xs in
      elim (compare x.i i) [
        | Ordering.gt ↦ none
        | Ordering.eq ↦ some (x.w, xs)
        | Ordering.lt ↦ rest
      ]

  -- `WaitingShard::wake`, with the waker that it wakes.
  unfoldable pub wake_shard : ℕ → WaitingShard W → WaitingShard W × List W
  wake_shard i s = elim (find_waker i s.wakers) [
    | some (w, rest) ↦ (record { woken_at = max s.woken_at i; wakers = rest }, w ∷ [])
    | none ↦ (record s { woken_at = max s.woken_at i }, [])
  ]

-- `Waiting::SHARDS` and `Waiting::CONTIGUOUS_BITS`
abbrev pub shards_count : ℕ
shards_count = 8

abbrev pub contiguous_bits : ℕ
contiguous_bits = 6

-- `Waiting`, its shards by their numbers.
abbrev pub Waiting : Type 0 → Type 0
Waiting W = List (WaitingShard W)

abbrev pub fresh_shard : {W : Type 0} → WaitingShard W
fresh_shard = record { woken_at = 0; wakers = [] }

-- `Waiting::default`
unfoldable pub no_waiting : {W : Type 0} → Waiting W
no_waiting = replicate shards_count fresh_shard

-- `Waiting::shard`, by its number.
unfoldable pub shard : ℕ → ℕ
shard i = (i / 2 ^ contiguous_bits) % shards_count

module _ {W : Type 0} where
  -- `Waiting::add`
  unfoldable pub add : (W → W → Bool) → ℕ → ℕ → W → Waiting W → Added (Waiting W)
  add will_wake current i w shards =
      elim (add_to_shard will_wake current i w (get_or shards (shard i) fresh_shard)) [
        | added s ↦ added (set shards (shard i) s)
        | rejected ↦ rejected
        | panic ↦ panic
      ]

  -- `Waiting::wake`
  unfoldable pub wake_at : ℕ → Waiting W → Waiting W × List W
  wake_at i shards =
      let (s, ws) = wake_shard i (get_or shards (shard i) fresh_shard) in
      (set shards (shard i) s, ws)
