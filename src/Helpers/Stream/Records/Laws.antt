-- ===== src/Helpers/Stream/Records/Laws.antt =====
-- src/helpers/transport/stream/input.rs: the records of a sequence of bytes.
use raw_ipa.Prelude.{
  ℕ, zero, suc, ◌*◌, ◌/◌, max, ◌≤◌, ◌<◌, ◌≡◌, refl, sym, ap, ◌∙◌, subst, false, List, [], ◌∷◌, ◌++◌,
  ◌⊎◌, inl, inr, Option, some, none, length, drop, concat, ◌==◌, append_assoc, length-append,
  length-take, length-drop, take-append-drop, arith,
}
use native.Mathlib.Nat.{div-mul-le_self, le_trans}
use raw_ipa.Helpers.Stream.Deque.{
  BufDeque, Read, too_few, chunk, IoError, write_zero, unexpected_eof, arrived, failed,
  contiguous_len, first_len, deserialize_chunks, read_multi, read_bytes,
}
use raw_ipa.Helpers.Stream.Deque.Laws.{contents, Consistent, Reads, short, got, read_bytes-Reads}
use raw_ipa.Helpers.Stream.Records.{Stream, Polled, pending, items, broken, end_of_stream, attempt}

-- The bytes that a stream brings before it fails.
abbrev pub bytes : Stream → List ℕ
bytes [] = []
bytes (none ∷ xs) = bytes xs
bytes (some (arrived b) ∷ xs) = b ++ bytes xs
bytes (some failed ∷ xs) = []

abbrev pub ahead : BufDeque → Stream → List ℕ
ahead d xs = contents d ++ bytes xs

-- The error with which a stream ends where so many bytes are left, if it does.
abbrev pub verdict : Stream → ℕ → Option IoError
verdict [] zero = none
verdict [] (suc n) = some (write_zero (suc n))
verdict (none ∷ xs) n = verdict xs n
verdict (some (arrived b) ∷ xs) n = verdict xs n
verdict (some failed ∷ xs) n = some unexpected_eof

module _ {T : Type 0} (sz : ℕ) (deserialize : List ℕ → T) where
  -- Bytes are cut into records of `sz` bytes, up to a rest that is too short.
  pub data Records : List ℕ → List T → List ℕ → Type 0 where
    rest : {bs : List ℕ} → length bs < sz → Records bs [] bs
    record_of :
        {block bs left : List ℕ} {ms : List T}
        → length block ≡ sz
        → Records bs ms left
        → Records (block ++ bs) (deserialize block ∷ ms) left

module _ {T : Type 0} (sz : ℕ) (deserialize : List ℕ → T) where
  pub moved :
      {bs cs left : List ℕ} {ms : List T}
      → bs ≡ cs
      → Records sz deserialize bs ms left
      → Records sz deserialize cs ms left
  moved {left} {ms} e r = subst (λ t. Records sz deserialize t ms left) e r

  pub Records-append :
      {front bs left right : List ℕ} {ms ns : List T}
      → Records sz deserialize front ms left
      → left ≡ []
      → Records sz deserialize bs ns right
      → Records sz deserialize (front ++ bs) (ms ++ ns) right
  Records-append {bs} {right} {ns} (rest h) e r = moved (ap (λ t. t ++ bs) (sym e)) r
  Records-append {bs} {right} (record_of {block} {bs = more} {ms} l h) e r =
      moved (sym (append_assoc block more bs)) (record_of l (Records-append h e r))

  deserialize_chunks-Records :
      (fuel count : ℕ) (bs : List ℕ)
      → 1 ≤ sz
      → length bs ≤ fuel
      → length bs ≡ count * sz
      → Records sz deserialize bs (deserialize_chunks sz deserialize fuel bs) []
  unfolding deserialize_chunks
  deserialize_chunks-Records zero count [] h l e = rest h
  deserialize_chunks-Records (suc fuel) count [] h l e = rest h
  deserialize_chunks-Records zero count (b ∷ bs) h l e = absurd (omega arith)
  deserialize_chunks-Records (suc fuel) zero (b ∷ bs) h l e = absurd (omega arith)
  deserialize_chunks-Records (suc fuel) (suc count) (b ∷ bs) h l e =
      moved (take-append-drop sz (b ∷ bs)) (
        record_of (omega (arith, length-take sz (b ∷ bs))) (
          deserialize_chunks-Records fuel count (drop sz (b ∷ bs)) h
            (omega (arith, length-drop sz (b ∷ bs))) (omega (arith, length-drop sz (b ∷ bs)))))

  -- What a read at the start of a round achieves: a record at least, or fewer bytes than one.
  pub data Attempts (d : BufDeque) : Read (List T) → Type 0 where
    few : length (contents d) < sz → Attempts d too_few
    some_of :
        {block : List ℕ} {ms : List T} {d' : BufDeque}
        → 1 ≤ length block
        → Records sz deserialize block ms []
        → contents d ≡ block ++ contents d'
        → Consistent d'
        → Attempts d (chunk ms d')

  first_len-le : (bufs : List (List ℕ)) → first_len bufs ≤ length (concat bufs)
  first_len-le [] = omega arith
  first_len-le (b ∷ bs) = omega (arith, length-append b (concat bs))

  read_multi-Attempts :
      (count : ℕ) (d : BufDeque) (r : Read (List ℕ))
      → Consistent d
      → 1 ≤ sz
      → 1 ≤ count
      → (count ≡ 1) ⊎ (count * sz ≤ length (contents d))
      → read_bytes (count * sz) d ≡ r
      → Reads (count * sz) d r
      → Attempts d (read_multi sz deserialize count d)
  unfolding read_multi
  read_multi-Attempts count d r c h k l e (short (inl z)) = absurd (grind arith)
  read_multi-Attempts count d r c h k (inl f) e (short (inr z)) =
      rw (read_multi, e) (few (grind arith))
  read_multi-Attempts count d r c h k (inr f) e (short (inr z)) = absurd (omega arith)
  read_multi-Attempts count d r c h k l e (got {block} p q a s) =
      rw (read_multi, e)
        (some_of (omega arith)
          (deserialize_chunks-Records (length block) count block h (omega arith) q) a s)

  at_least_one : (q n : ℕ) → q * sz ≤ n → (max 1 q ≡ 1) ⊎ (max 1 q * sz ≤ n)
  at_least_one zero n h = inl (omega arith)
  at_least_one (suc q) n h = let e : max 1 (suc q) ≡ suc q = omega arith in inr (rw e h)

  pub attempt-Attempts :
      (d : BufDeque) → Consistent d → 1 ≤ sz → Attempts d (attempt sz deserialize d)
  unfolding attempt contiguous_len
  attempt-Attempts d c h = rw (positive sz h) (
      read_multi-Attempts count d _ c h (omega arith) enough refl
        (read_bytes-Reads (count * sz) d c))
    where
      positive : (n : ℕ) → 1 ≤ n → (n == 0) ≡ false
      positive n l = ground arith

      count : ℕ
      count = max 1 (contiguous_len d / sz)

      enough : (count ≡ 1) ⊎ (count * sz ≤ length (contents d))
      enough =
          at_least_one (contiguous_len d / sz) (length (contents d))
            (le_trans (div-mul-le_self (contiguous_len d) sz) (first_len-le d.buffered))

  -- What a poll achieves: records of the next bytes, or no loss while it waits, or the end.
  pub data Polls (d : BufDeque) (xs : Stream) : Polled T → Type 0 where
    got_items :
        {block : List ℕ} {ms : List T} {d' : BufDeque} {xs' : Stream}
        → 1 ≤ length block
        → Records sz deserialize block ms []
        → ahead d xs ≡ block ++ ahead d' xs'
        → Consistent d'
        → ((n : ℕ) → verdict xs n ≡ verdict xs' n)
        → length xs' ≤ length xs
        → Polls d xs (items ms d' xs')
    waits :
        {d' : BufDeque} {xs' : Stream}
        → ahead d xs ≡ ahead d' xs'
        → Consistent d'
        → ((n : ℕ) → verdict xs n ≡ verdict xs' n)
        → length xs' < length xs
        → Polls d xs (pending d' xs')
    breaks :
        {e : IoError}
        → length (ahead d xs) < sz
        → verdict xs (length (ahead d xs)) ≡ some e
        → Polls d xs (broken e)
    ends :
        length (ahead d xs) < sz
        → verdict xs (length (ahead d xs)) ≡ none
        → Polls d xs end_of_stream

  -- A poll from a state that has the same bytes ahead and the same end.
  pub widen :
      (d t : BufDeque) (xs ys : Stream) (p : Polled T)
      → ahead d xs ≡ ahead t ys
      → ((n : ℕ) → verdict xs n ≡ verdict ys n)
      → length ys ≤ length xs
      → Polls t ys p
      → Polls d xs p
  widen d t xs ys p e v l (got_items h r a c w k) =
      got_items h r (e ∙ a) c (λ n. v n ∙ w n) (omega arith)
  widen d t xs ys p e v l (waits a c w k) = waits (e ∙ a) c (λ n. v n ∙ w n) (omega arith)
  widen d t xs ys p e v l (breaks h w) =
      breaks (omega (arith, ap length e)) (ap (verdict xs) (ap length e) ∙ v _ ∙ w)
  widen d t xs ys p e v l (ends h w) =
      ends (omega (arith, ap length e)) (ap (verdict xs) (ap length e) ∙ v _ ∙ w)

  pub read_ahead :
      (d : BufDeque) (xs : Stream) {block : List ℕ} {ms : List T} {d' : BufDeque}
      → 1 ≤ length block
      → Records sz deserialize block ms []
      → contents d ≡ block ++ contents d'
      → Consistent d'
      → Polls d xs (items ms d' xs)
  read_ahead d xs {block} {d'} h r a c =
      got_items h r (ap (λ t. t ++ bytes xs) a ∙ append_assoc block (contents d') (bytes xs)) c
        (λ n. refl) (omega arith)
