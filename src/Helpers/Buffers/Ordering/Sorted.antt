-- ===== src/Helpers/Buffers/Ordering/Sorted.antt =====
-- src/helpers/buffers/ordering_sender.rs: the order of the wakers in a `WaitingShard`.
use raw_ipa.Prelude.{
  ℕ, max, ◌≤◌, ◌<◌, ◌≡◌, ◌≢◌, refl, sym, ◌∙◌, subst, Bool, true, false, List, [], ◌∷◌, inl, inr,
  Option, some, none, arith, Bool-cases, compare-cases, Option-cases, ge→ltb,
}
use raw_ipa.Helpers.Buffers.Ordering.Waiting.{
  WakerItem, WaitingShard, Search, all_greater, placed, other_task, added, search_back,
  add_to_shard, find_waker, wake_shard,
}

true_ne : true ≢ false
true_ne e = cc

module _ {W : Type 0} where
  -- Every item has an index above this one.
  abbrev pub Above : ℕ → List (WakerItem W) → Type 0
  Above n [] = Unit
  Above n (x ∷ xs) = (n < x.i) × Above n xs

  -- The indices increase, so each occurs once.
  abbrev pub Sorted : List (WakerItem W) → Type 0
  Sorted [] = Unit
  Sorted (x ∷ xs) = Above x.i xs × Sorted xs

  -- A waker is saved at an index.
  pub data Saved (i : ℕ) (w : W) : List (WakerItem W) → Type 0 where
    here : {xs : List (WakerItem W)} → Saved i w (record { i = i; w = w } ∷ xs)
    behind : {x : WakerItem W} {xs : List (WakerItem W)} → Saved i w xs → Saved i w (x ∷ xs)

  Above-le : (m n : ℕ) (xs : List (WakerItem W)) → m ≤ n → Above n xs → Above m xs
  Above-le m n [] h a = tt
  Above-le m n (x ∷ xs) h a = (omega (arith, a.0), Above-le m n xs h a.1)

  -- Items above an index do not hold it, nor one that is smaller.
  Saved-lt : {i n : ℕ} {w : W} {xs : List (WakerItem W)} → Above n xs → Saved i w xs → n < i
  Saved-lt a here = a.0
  Saved-lt a (behind s) = Saved-lt a.1 s

  Saved-cons :
      {j : ℕ} {v : W} {x : WakerItem W} {xs ys : List (WakerItem W)}
      → (Saved j v xs → Saved j v ys)
      → Saved j v (x ∷ xs)
      → Saved j v (x ∷ ys)
  Saved-cons f here = here
  Saved-cons f (behind s) = behind (f s)

  Saved-tail :
      {j : ℕ} {v : W} {x : WakerItem W} {xs : List (WakerItem W)}
      → j ≢ x.i
      → Saved j v (x ∷ xs)
      → Saved j v xs
  Saved-tail n here = absurd (n refl)
  Saved-tail n (behind s) = s

  -- What the search of `add` finds for an item.
  data Finds (will_wake : W → W → Bool) (item : WakerItem W) (xs : List (WakerItem W))
      : Search W → Type 0 where
    greater : Above item.i xs → Finds will_wake item xs all_greater
    put :
        {ys : List (WakerItem W)}
        → Sorted ys
        → Saved item.i item.w ys
        → ((j : ℕ) (v : W) → j ≢ item.i → Saved j v xs → Saved j v ys)
        → ((n : ℕ) → Above n xs → Above n ys)
        → Finds will_wake item xs (placed ys)
    clash :
        (v : W)
        → Saved item.i v xs
        → will_wake item.w v ≡ false
        → Finds will_wake item xs other_task

  module _ (will_wake : W → W → Bool) (item : WakerItem W) where
    step :
        (x : WakerItem W) (xs : List (WakerItem W)) (r : Search W)
        → Sorted (x ∷ xs)
        → search_back will_wake item xs ≡ r
        → Finds will_wake item xs r
        → Finds will_wake item (x ∷ xs) (search_back will_wake item (x ∷ xs))
    unfolding search_back
    step x xs r s e (clash v m n) = rw (search_back, e) (clash v (behind m) n)
    step x xs r s e (put {ys} t m k a) =
        rw (search_back, e)
          (put (a x.i s.0, t) (behind m) (λ j v n. Saved-cons (k j v n)) (λ n h. (h.0, a n h.1)))
    step x xs r s e (greater a) = elim (compare-cases x.i item.i) [
      | inl (c, l) ↦
          rw (search_back, e, c)
            (put ((l, s.0), (a, s.1)) (behind here) (λ j v n. Saved-cons (λ q. behind q))
              (λ n h. (h.0, (omega (arith, l, h.0), h.1))))
      | inr (inl (c, l)) ↦ elim (Bool-cases (will_wake item.w x.w)) [
        | inl b ↦
            rw (search_back, e, c, b)
              (put (subst (λ k. Above k xs) l s.0, s.1) here
                (λ j v n q. behind (Saved-tail (λ d. n (d ∙ l)) q))
                (λ n h. (omega (arith, l, h.0), h.1)))
        | inr b ↦ rw (search_back, e, c, b) (clash x.w (subst (λ i. Saved i x.w (x ∷ xs)) l here) b)
      ]
      | inr (inr (c, l)) ↦ rw (search_back, e, c) (greater (l, a))
    ]

    search_back-Finds :
        (xs : List (WakerItem W))
        → Sorted xs
        → Finds will_wake item xs (search_back will_wake item xs)
    unfolding search_back
    search_back-Finds [] s = greater tt
    search_back-Finds (x ∷ xs) s = step x xs _ s refl (search_back-Finds xs s.1)

    -- Adding at a position that is not behind the shard, by the task that has waited at this index
    -- if one has.
    pub add_to_shard-Saved :
        (current : ℕ) (s : WaitingShard W)
        → s.woken_at ≤ current
        → Sorted s.wakers
        → ((v : W) → Saved item.i v s.wakers → will_wake item.w v ≡ true)
        → (ys : List (WakerItem W)) × (add_to_shard will_wake current item.i item.w s
            ≡ added (record s { wakers = ys }))
          × Sorted ys
          × Saved item.i item.w ys
          × ((j : ℕ) (v : W) → j ≢ item.i → Saved j v s.wakers → Saved j v ys)
    unfolding add_to_shard
    add_to_shard-Saved current s h o same = found _ refl (search_back-Finds s.wakers o)
      where
        found :
            (r : Search W)
            → search_back will_wake item s.wakers ≡ r
            → Finds will_wake item s.wakers r
            → (ys : List (WakerItem W)) × (add_to_shard will_wake current item.i item.w s
                ≡ added (record s { wakers = ys }))
              × Sorted ys
              × Saved item.i item.w ys
              × ((j : ℕ) (v : W) → j ≢ item.i → Saved j v s.wakers → Saved j v ys)
        found r e (greater a) = (
          item ∷ s.wakers,
          rw (add_to_shard, ge→ltb _ _ h, e) refl,
          (a, o),
          here,
          (λ j v n q. behind q),
        )
        found r e (put {ys} t m k a) = (ys, rw (add_to_shard, ge→ltb _ _ h, e) refl, t, m, k)
        found r e (clash v m n) = absurd (true_ne (sym (same v m) ∙ n))

  -- Waking an index finds its waker, and keeps those of greater indices.
  find_waker-Saved :
      (i : ℕ) (w : W) (xs : List (WakerItem W))
      → Sorted xs
      → Saved i w xs
      → (rest : List (WakerItem W)) × (find_waker i xs ≡ some (w, rest))
  unfolding find_waker
  find_waker-Saved i w [] s q = elim q [ ]
  find_waker-Saved i w (x ∷ xs) s here = (xs, ground arith)
  find_waker-Saved i w (x ∷ xs) s (behind q) =
      let (rest, e) = find_waker-Saved i w xs s.1 q in
      (
        rest,
        elim (compare-cases x.i i) [
          | inl (c, l) ↦ rw (find_waker, c) e
          | inr (inl (c, l)) ↦ absurd (omega (arith, Saved-lt s.0 q))
          | inr (inr (c, l)) ↦ absurd (omega (arith, Saved-lt s.0 q))
        ],
      )

  -- What is left of the items when the waker of an index is taken out.
  find_waker-rest :
      (i : ℕ) (w : W) (xs rest : List (WakerItem W))
      → Sorted xs
      → find_waker i xs ≡ some (w, rest)
      → Sorted rest × ((j : ℕ) (v : W) → i < j → Saved j v xs → Saved j v rest)
  unfolding find_waker
  find_waker-rest i w [] rest s e = cc
  find_waker-rest i w (x ∷ xs) rest s e = elim (compare-cases x.i i) [
    | inl (c, l) ↦
        let (t, k) = find_waker-rest i w xs rest s.1 (rw (find_waker, c) at e) in
        (t, λ j v h q. k j v h (Saved-tail (λ d. absurd (omega (arith, d))) q))
    | inr (inl (c, l)) ↦
        subst (λ r. Sorted r × ((j : ℕ) (v : W) → i < j → Saved j v (x ∷ xs) → Saved j v r))
          (same_rest (rw (find_waker, c) at e))
          (s.1, λ j v h q. Saved-tail (λ d. absurd (omega (arith, d))) q)
    | inr (inr (c, l)) ↦ absurd (none_ne (rw (find_waker, c) at e))
  ]
    where
      same_rest :
          ◌≡◌ {A = Option (W × List (WakerItem W))} (some (x.w, xs)) (some (w, rest)) → xs ≡ rest
      same_rest d = cc

      none_ne : ◌≡◌ {A = Option (W × List (WakerItem W))} none (some (w, rest)) → ⊥
      none_ne d = cc

  -- Waking wakes the task of the index, and the position of the shard only moves ahead.
  pub wake_shard-wakes :
      (i : ℕ) (w : W) (s : WaitingShard W)
      → Sorted s.wakers
      → Saved i w s.wakers
      → (wake_shard i s).1 ≡ w ∷ []
  unfolding wake_shard
  wake_shard-wakes i w s o q =
      let (rest, e) = find_waker-Saved i w s.wakers o q in rw (wake_shard, e) refl

  pub wake_shard-keeps :
      (i : ℕ) (s : WaitingShard W)
      → Sorted s.wakers
      → ((wake_shard i s).0.woken_at ≡ max s.woken_at i)
        × Sorted (wake_shard i s).0.wakers
        × ((j : ℕ) (v : W) → i < j → Saved j v s.wakers → Saved j v (wake_shard i s).0.wakers)
  unfolding wake_shard
  wake_shard-keeps i s o = elim (Option-cases (find_waker i s.wakers)) [
    | inl e ↦ rw (wake_shard, e) (refl, o, λ j v h q. q)
    | inr ((w, rest), e) ↦
        let (t, k) = find_waker-rest i w s.wakers rest o e in rw (wake_shard, e) (refl, t, k)
  ]
