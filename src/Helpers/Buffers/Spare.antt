-- ===== src/Helpers/Buffers/Spare.antt =====
-- src/helpers/buffers/unordered_receiver.rs: `Spare`, the unread data of a chunk.
use raw_ipa.Prelude.{
  ℕ, zero, suc, ◌+◌, ◌-◌, ◌≤◌, ◌<◌, ◌≡◌, refl, sym, ap, ◌∙◌, List, [], ◌∷◌, ◌++◌, Option, some,
  none, length, take, drop, leb, ltb, if◌then◌else◌, arith, ◌⊎◌, inl, inr, Bool-cases, false,
  length-drop, length-take, length-append, take-append-drop, ltb→lt, ltb→ge, leb→le, leb→gt, ge→ltb,
  append_assoc,
}

pub record Spare : Type 0 where
  pub buf : List ℕ
  pub offset : ℕ

-- How `extend` ends: it saves the data, or reads a message. `out_of_range` is a panic.
pub data Extended (M : Type 0) : Type 0 where
  out_of_range : Extended M
  saved : Spare → Extended M
  message : M → Spare → Extended M

abbrev pub replace : List ℕ → Spare
replace v = record { buf = v; offset = 0 }

-- What has arrived and was not read.
abbrev pub unread : Spare → List ℕ
unread s = drop s.offset s.buf

-- `sz` is the size of a message, `deserialize` reads one.
module _ {M : Type 0} (sz : ℕ) (deserialize : List ℕ → M) where
  unfoldable pub read : Spare → Option (M × Spare)
  read s =
      let end = s.offset + sz in
      if leb end (length s.buf)
      then some (deserialize (take sz (drop s.offset s.buf)), record s { offset = end })
      else none

  unfoldable pub extend : Spare → List ℕ → Extended M
  extend s v =
      let remainder = length s.buf - s.offset in
      if ltb (remainder + length v) sz
      then saved (record { buf = drop s.offset s.buf ++ v; offset = 0 })
      else if ltb sz remainder
      then out_of_range
      else if ltb 0 remainder
      then (let needed = sz - remainder in
          let tmp = drop s.offset s.buf ++ take needed v in
          message (deserialize tmp) (replace (drop needed v)))
      else message (deserialize (take sz v)) (replace (drop sz v))

drop-nil : (n : ℕ) → drop {A = ℕ} n [] ≡ []
drop-nil zero = refl
drop-nil (suc n) = refl

drop-drop : (m n : ℕ) (xs : List ℕ) → drop (m + n) xs ≡ drop n (drop m xs)
drop-drop zero n xs = ap (λ k. drop k xs) (zero_add n)
  where
    zero_add : (n : ℕ) → zero + n ≡ n
    zero_add n = omega arith
drop-drop (suc m) n [] = drop-nil (suc m + n) ∙ sym (drop-nil n)
drop-drop (suc m) n (x ∷ xs) = ap (λ k. drop k (x ∷ xs)) (suc_add m n) ∙ drop-drop m n xs
  where
    suc_add : (m n : ℕ) → suc m + n ≡ suc (m + n)
    suc_add m n = omega arith

nil_of_length : (xs : List ℕ) → length xs ≤ 0 → xs ≡ []
nil_of_length [] h = refl
nil_of_length (x ∷ xs) h = elim h [ ]

module _ {M : Type 0} (sz : ℕ) (deserialize : List ℕ → M) where
  -- A message is read from the first `sz` unread bytes, if there are as many.
  pub read_lem :
      (s : Spare)
      → 1 ≤ sz
      → ((block : List ℕ) × (s' : Spare) × (read sz deserialize s ≡ some (deserialize block, s'))
          × (length block ≡ sz)
          × (unread s ≡ block ++ unread s'))
        ⊎ ((read sz deserialize s ≡ none) × (length (unread s) < sz))
  unfolding read
  read_lem s h = elim (Bool-cases (leb (s.offset + sz) (length s.buf))) [
    | inl e ↦ inl (
      take sz (unread s),
      record s { offset = s.offset + sz },
      rw e refl,
      full (leb→le _ _ e),
      sym (take-append-drop sz (unread s))
          ∙ ap (λ t. take sz (unread s) ++ t) (sym (drop-drop s.offset sz s.buf)),
    )
    | inr e ↦ inr (rw e refl, short (leb→gt _ _ e))
  ]
    where
      full : s.offset + sz ≤ length s.buf → length (take sz (unread s)) ≡ sz
      full l = omega (arith, length-take sz (unread s), length-drop s.offset s.buf)

      short : length s.buf < s.offset + sz → length (unread s) < sz
      short l = omega (arith, length-drop s.offset s.buf)

  -- When the unread bytes are no message, more data makes one, or is saved behind them.
  pub extend_lem :
      (s : Spare) (v : List ℕ)
      → length (unread s) < sz
      → ((block : List ℕ) × (s' : Spare) × (extend sz deserialize s v
            ≡ message (deserialize block) s')
          × (length block ≡ sz)
          × (unread s ++ v ≡ block ++ unread s'))
        ⊎ ((s' : Spare) × (extend sz deserialize s v ≡ saved s')
            × (unread s' ≡ unread s ++ v)
            × (length (unread s') < sz))
  unfolding extend
  extend_lem s v h = elim (Bool-cases (ltb (length s.buf - s.offset + length v) sz)) [
    | inl e ↦ inr (replace (unread s ++ v), rw e refl, refl, short (ltb→lt _ _ e))
    | inr e ↦ inl (elim (Bool-cases (ltb 0 (length s.buf - s.offset))) [
      | inl k ↦ (
        unread s ++ take needed v,
        replace (drop needed v),
        rw (e, in_range, k) refl,
        joined (ltb→ge _ _ e),
        ap (λ t. unread s ++ t) (sym (take-append-drop needed v))
            ∙ sym (append_assoc (unread s) (take needed v) (drop needed v)),
      )
      | inr k ↦ (
        take sz v,
        replace (drop sz v),
        rw (e, in_range, k) refl,
        whole (ltb→ge _ _ e) (ltb→ge _ _ k),
        ap (λ t. t ++ v) (nil_of_length (unread s) (none_left (ltb→ge _ _ k)))
            ∙ sym (take-append-drop sz v),
      )
    ])
  ]
    where
      needed : ℕ
      needed = sz - (length s.buf - s.offset)

      remainder_lem : length (unread s) ≡ length s.buf - s.offset
      remainder_lem = length-drop s.offset s.buf

      in_range : ltb sz (length s.buf - s.offset) ≡ false
      in_range = ge→ltb _ _ (omega (arith, remainder_lem))

      short : length s.buf - s.offset + length v < sz → length (unread s ++ v) < sz
      short l = omega (arith, remainder_lem, length-append (unread s) v)

      joined : sz ≤ length s.buf - s.offset + length v → length (unread s ++ take needed v) ≡ sz
      joined l =
          omega
            (arith, remainder_lem, length-append (unread s) (take needed v), length-take needed v)

      whole :
          sz ≤ length s.buf - s.offset + length v
          → length s.buf - s.offset ≤ 0
          → length (take sz v) ≡ sz
      whole l m = omega (arith, length-take sz v)

      none_left : length s.buf - s.offset ≤ 0 → length (unread s) ≤ 0
      none_left m = omega (arith, remainder_lem)
