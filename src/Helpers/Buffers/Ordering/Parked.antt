-- ===== src/Helpers/Buffers/Ordering/Parked.antt =====
-- src/helpers/buffers/ordering_sender.rs: tasks that wait for their turn, over all shards.
use raw_ipa.Prelude.{
  ℕ, ◌≤◌, ◌<◌, ◌≡◌, ◌≢◌, refl, sym, ap, ◌∙◌, subst, Bool, true, [], ◌∷◌, length, get_or, set,
  length-set, get_or-set_self, get_or-set_ne, get_or-replicate, arith, ℕ_discrete,
}
use raw_ipa.Helpers.Buffers.Ordering.Waiting.{
  WaitingShard, Waiting, fresh_shard, no_waiting, shard, added, add, wake_shard, wake_at,
}
use raw_ipa.Helpers.Buffers.Ordering.Sorted.{
  Sorted, Saved, add_to_shard-Saved, wake_shard-wakes, wake_shard-keeps,
}

shard-lt : (i : ℕ) → shard i < 8
unfolding shard
shard-lt i = omega arith

module _ {W : Type 0} where
  -- The shard of a number.
  abbrev pub at : Waiting W → ℕ → WaitingShard W
  at shards n = get_or shards n fresh_shard

  -- Eight shards, each in order and not ahead of the position of the sender.
  pub record Tidy (next : ℕ) (shards : Waiting W) : Type 0 where
    pub eight : length shards ≡ 8
    pub sorted : (n : ℕ) → Sorted (at shards n).wakers
    pub behind : (n : ℕ) → (at shards n).woken_at ≤ next

  -- A task waits for its turn to write at an index.
  abbrev pub Parked : Waiting W → ℕ → W → Type 0
  Parked shards i w = Saved i w (at shards (shard i)).wakers

  pub no_waiting-Tidy : Tidy 0 (no_waiting {W = W})
  unfolding no_waiting
  no_waiting-Tidy = record {
    eight = refl;
    sorted = λ n. subst (λ u. Sorted u.wakers) (sym (get_or-replicate 8 n fresh_shard)) tt;
    behind =
        λ n. subst (λ u. u.woken_at ≤ 0) (sym (get_or-replicate 8 n fresh_shard)) (omega arith);
  }

  -- A shard replaced by one that keeps its order.
  pub replaced :
      (next m : ℕ) (shards : Waiting W) (i : ℕ) (s : WaitingShard W)
      → Tidy next shards
      → next ≤ m
      → Sorted s.wakers
      → s.woken_at ≤ m
      → Tidy m (set shards (shard i) s)
  replaced next m shards i s t l o h = record {
    eight = length-set shards (shard i) s ∙ t.eight;
    sorted = λ n. elim (ℕ_discrete (shard i) n) [
      | yes e ↦
          subst (λ k. Sorted (at (set shards (shard i) s) k).wakers) e
            (subst (λ u. Sorted u.wakers) (sym here) o)
      | no e ↦
          subst (λ u. Sorted u.wakers) (sym (get_or-set_ne shards (shard i) n s fresh_shard e))
            (t.sorted n)
    ];
    behind = λ n. elim (ℕ_discrete (shard i) n) [
      | yes e ↦
          subst (λ k. (at (set shards (shard i) s) k).woken_at ≤ m) e
            (subst (λ u. u.woken_at ≤ m) (sym here) h)
      | no e ↦
          subst (λ u. u.woken_at ≤ m) (sym (get_or-set_ne shards (shard i) n s fresh_shard e))
            (omega (arith, t.behind n))
    ];
  }
    where
      here : at (set shards (shard i) s) (shard i) ≡ s
      here = get_or-set_self shards (shard i) s fresh_shard (omega (arith, shard-lt i, t.eight))

  -- A task stays parked where its shard is another one, or keeps its waker.
  still-Parked :
      (shards : Waiting W) (i j : ℕ) (v : W) (s : WaitingShard W)
      → length shards ≡ 8
      → (Saved j v (at shards (shard i)).wakers → Saved j v s.wakers)
      → Parked shards j v
      → Parked (set shards (shard i) s) j v
  still-Parked shards i j v s e k p = elim (ℕ_discrete (shard i) (shard j)) [
    | yes d ↦
        subst (λ u. Saved j v u.wakers)
          (sym (get_or-set_self shards (shard i) s fresh_shard (omega (arith, shard-lt i, e)))
            ∙ ap (at (set shards (shard i) s)) d)
          (k (subst (λ n. Saved j v (at shards n).wakers) (sym d) p))
    | no d ↦
        subst (λ u. Saved j v u.wakers)
          (sym (get_or-set_ne shards (shard i) (shard j) s fresh_shard d)) p
  ]

  -- A task that polls at the position of the sender is parked at its index, if no other task has
  -- waited at it, and all others stay parked at theirs: it is never rejected.
  pub add-Parked :
      (will_wake : W → W → Bool) (next i : ℕ) (w : W) (shards : Waiting W)
      → Tidy next shards
      → ((v : W) → Parked shards i v → will_wake w v ≡ true)
      → (after : Waiting W) × (add will_wake next i w shards ≡ added after)
        × Tidy next after
        × Parked after i w
        × ((j : ℕ) (v : W) → j ≢ i → Parked shards j v → Parked after j v)
  unfolding add
  add-Parked will_wake next i w shards t same =
      let (ys, e, o, q, k) =
        add_to_shard-Saved will_wake (record { i = i; w = w }) next (at shards (shard i))
          (t.behind (shard i)) (t.sorted (shard i)) same in
      let s = record (at shards (shard i)) { wakers = ys } in
      (
        set shards (shard i) s,
        rw (add, e) refl,
        replaced next next shards i s t (omega arith) o (t.behind (shard i)),
        subst (λ u. Saved i w u.wakers)
            (sym
              (get_or-set_self shards (shard i) s fresh_shard (omega (arith, shard-lt i, t.eight))))
            q,
        λ j v n p. still-Parked shards i j v s t.eight (k j v n) p,
      )

  -- Waking an index that the sender has reached wakes the task that is parked at it, and all that
  -- wait for later ones stay parked.
  pub wake_at-Parked :
      (next i : ℕ) (shards : Waiting W)
      → Tidy next shards
      → i ≤ next
      → Tidy next (wake_at i shards).0
        × ((w : W) → Parked shards i w → (wake_at i shards).1 ≡ w ∷ [])
        × ((j : ℕ) (v : W) → i < j → Parked shards j v → Parked (wake_at i shards).0 j v)
  unfolding wake_at
  wake_at-Parked next i shards t h =
      let s = at shards (shard i) in
      let (a, o, k) = wake_shard-keeps i s (t.sorted (shard i)) in
      (
        replaced next next shards i (wake_shard i s).0 t (omega arith) o
            (omega (arith, a, t.behind (shard i))),
        (λ w p. wake_shard-wakes i w s (t.sorted (shard i)) p),
        λ j v l p. still-Parked shards i j v (wake_shard i s).0 t.eight (k j v l) p,
      )
