-- ===== src/Helpers/Buffers/Receiver/Wakers.antt =====
-- src/helpers/buffers/unordered_receiver.rs: the slots in which wakers are kept.
use raw_ipa.Prelude.{
  get_or-set_self, get_or-set_ne, ℕ, suc, ◌+◌, ◌-◌, ◌/◌, ◌%◌, ◌==◌, if◌then◌else◌, ◌≤◌, ◌<◌, ◌≡◌,
  ◌≢◌, refl, sym, ap, ◌∙◌, subst, true, Bool, List, [], ◌∷◌, ◌++◌, some, none, length, get_or, set,
  length-set, ltb, lt→ltb, ge→ltb, ltb→lt, ltb→ge, Bool-cases, arith, ◌⊎◌, inl, inr, ℕ_discrete,
}
use native.Mathlib.Nat.{mod-lt, mod-eq_of_lt, mod-add-mod, add-mod_right}
use raw_ipa.Helpers.Buffers.Receiver.{OperatingState, add_waker, wake_next, woken}

-- Records that are less than a full round apart have slots of their own.
step_apart : (a d c : ℕ) → 0 < d → d < c → a % c ≢ (a + d) % c
step_apart a d c p q e = elim (Bool-cases (ltb (a % c + d) c)) [
  | inl k ↦ let h = ltb→lt _ _ k in moved h (mod-eq_of_lt h)
  | inr k ↦
      let h = ltb→ge _ _ k in
      wrapped h
        (ap (λ v. v % c) (over h) ∙ add-mod_right (a % c + d - c) c ∙ mod-eq_of_lt (below h))
]
  where
    shifted : (a % c + d) % c ≡ (a + d) % c
    shifted = mod-add-mod a c d

    moved : a % c + d < c → (a % c + d) % c ≡ a % c + d → ⊥
    moved h k = omega (arith, shifted, e)

    over : c ≤ a % c + d → a % c + d ≡ a % c + d - c + c
    over h = omega arith

    below : c ≤ a % c + d → a % c + d - c < c
    below h = omega (arith, mod-lt a {m = c} (omega arith))

    wrapped : c ≤ a % c + d → (a % c + d) % c ≡ a % c + d - c → ⊥
    wrapped h k = omega (arith, shifted, e)

apart : (i j c : ℕ) → i < j → j < i + c → i % c ≢ j % c
apart i j c p q e =
    step_apart i (j - i) c (omega arith) (omega arith) (e ∙ ap (λ v. v % c) (difference i j p))
  where
    difference : (i j : ℕ) → i < j → j ≡ i + (j - i)
    difference i j p = omega arith

-- So have all records of one round.
distinct : (n i j c : ℕ) → i ≢ j → n < i → i ≤ n + c → n < j → j ≤ n + c → i % c ≢ j % c
distinct n i j c d a b p q e = elim (Bool-cases (ltb i j)) [
  | inl k ↦ let h = ltb→lt _ _ k in apart i j c h (omega arith) e
  | inr k ↦ let h = above (ltb→ge _ _ k) in apart j i c h (omega arith) (sym e)
]
  where
    above : j ≤ i → j < i
    above h = omega (arith, d)

module _ {W : Type 0} where
  -- The waker `w` waits for the record `i`, at most a full round ahead of the read cursor.
  pub record Registered (s : OperatingState W) (i : ℕ) (w : W) : Type 0 where
    pub ahead : s.next < i
    pub within : i ≤ s.next + length s.wakers
    pub slot : get_or s.wakers (i % length s.wakers) none ≡ some w

  -- A task waits for a record at most a full round ahead. When the record before it is delivered,
  -- the task is woken first of all. Until then each delivery leaves it registered.
  pub wake_next-Registered :
      (s : OperatingState W) (i : ℕ) (w : W)
      → Registered s i w
      → ((i ≡ suc s.next) × ((rest : List W) × ((wake_next s).1 ≡ w ∷ rest)))
        ⊎ ((suc s.next < i) × Registered (wake_next s).0 i w)
  unfolding wake_next
  wake_next-Registered s i w h = elim (ℕ_discrete i (suc s.next)) [
    | yes e ↦ inl (
      e,
      (
        overflow,
        ap (λ o. woken o ++ overflow)
            (subst (λ j. get_or s.wakers (j % length s.wakers) none ≡ some w) e h.slot),
      ),
    )
    | no n ↦ inr (
      later n,
      record {
        ahead = later n;
        within =
            subst (λ l. i ≤ suc s.next + l) (sym (length-set s.wakers index none))
              (omega (arith, h.within));
        slot =
            ap (λ l. get_or (set s.wakers index none) (i % l) none) (length-set s.wakers index none)
            ∙ get_or-set_ne s.wakers index (i % length s.wakers) none none
                (apart (suc s.next) i (length s.wakers) (later n) (omega (arith, h.within)))
            ∙ h.slot;
      },
    )
  ]
    where
      index : ℕ
      index = suc s.next % length s.wakers

      overflow : List W
      overflow = if (suc s.next % (length s.wakers / 2)) == 0 then s.overflow_wakers else []

      later : i ≢ suc s.next → suc s.next < i
      later n = omega (arith, h.ahead)

  -- A task that polls for a record at most a full round ahead is registered, if no task waits in its
  -- slot or one that the same waker wakes. Whatever tasks are registered for other records stay so,
  -- and nothing changes but the slots.
  pub add_waker-Registered :
      (will_wake : W → W → Bool) (i : ℕ) (w : W) (s : OperatingState W)
      → s.next < i
      → i ≤ s.next + length s.wakers
      → (get_or s.wakers (i % length s.wakers) none ≡ none)
        ⊎ ((old : W) × (get_or s.wakers (i % length s.wakers) none ≡ some old)
            × (will_wake w old ≡ true))
      → (s' : OperatingState W) × (add_waker will_wake i w s ≡ some s')
        × Registered s' i w
        × ((j : ℕ) (v : W) → i ≢ j → Registered s j v → Registered s' j v)
        × (s' ≡ record s { wakers = s'.wakers })
  unfolding add_waker
  add_waker-Registered will_wake i w s h k free = (stored, added free, here, there, refl)
    where
      index : ℕ
      index = i % length s.wakers

      stored : OperatingState W
      stored = record s { wakers = set s.wakers index (some w) }

      added :
          (get_or s.wakers index none ≡ none)
            ⊎ ((old : W) × (get_or s.wakers index none ≡ some old) × (will_wake w old ≡ true))
          → add_waker will_wake i w s ≡ some stored
      added (inl e) = rw (lt→ltb _ _ h, ge→ltb _ _ k, e) refl
      added (inr (old, e, m)) = rw (lt→ltb _ _ h, ge→ltb _ _ k, e, m) refl

      here : Registered stored i w
      here = record {
        ahead = h;
        within = subst (λ l. i ≤ s.next + l) (sym (length-set s.wakers index (some w))) k;
        slot =
            ap (λ l. get_or stored.wakers (i % l) none) (length-set s.wakers index (some w))
            ∙ get_or-set_self s.wakers index (some w) none (mod-lt i (omega arith));
      }

      there : (j : ℕ) (v : W) → i ≢ j → Registered s j v → Registered stored j v
      there j v n r = record {
        ahead = r.ahead;
        within = subst (λ l. j ≤ s.next + l) (sym (length-set s.wakers index (some w))) r.within;
        slot =
            ap (λ l. get_or stored.wakers (j % l) none) (length-set s.wakers index (some w))
            ∙ get_or-set_ne s.wakers index (j % length s.wakers) (some w) none
                (distinct s.next i j (length s.wakers) n h k r.ahead r.within)
            ∙ r.slot;
      }
