-- ===== src/Helpers/Stream/Records/Collect.antt =====
-- src/helpers/transport/stream/input.rs: polling a `RecordsStream` until it ends.
use raw_ipa.Prelude.{
  ℕ, zero, suc, ◌+◌, ◌≤◌, ◌<◌, ◌≡◌, refl, sym, ap, ◌∙◌, List, [], ◌∷◌, ◌++◌, inl, inr, some, none,
  length, concat, ltb, append_assoc, append-nil, length-append, concat-append, arith, Bool-cases,
  ltb→lt, ltb→ge,
}
use raw_ipa.Helpers.Stream.Deque.{BufDeque, Read, write_zero, arrived, failed, extend}
use raw_ipa.Helpers.Stream.Deque.Laws.{contents, Consistent}
use raw_ipa.Helpers.Stream.Records.{Stream, Polled, at_end, attempt, poll_next, collect}
use raw_ipa.Helpers.Stream.Records.Laws.{
  bytes, ahead, verdict, Records, rest, Records-append, moved, Attempts, few, some_of,
  attempt-Attempts, Polls, got_items, waits, breaks, ends, widen, read_ahead,
}

verdict-suc : (n m : ℕ) → n ≡ m → 0 < n → verdict [] m ≡ some (write_zero n)
verdict-suc n zero e h = absurd (omega arith)
verdict-suc n (suc m) e h = ap (λ k. some (write_zero k)) (sym e)

verdict-zero : (n : ℕ) → n ≤ 0 → verdict [] n ≡ none
verdict-zero zero h = refl
verdict-zero (suc n) h = absurd (omega arith)

module _ {T : Type 0} (sz : ℕ) (deserialize : List ℕ → T) where
  at_end-Polls :
      (d : BufDeque)
      → Consistent d
      → length (contents d) < sz
      → Polls sz deserialize d [] (at_end (extend none d))
  unfolding extend
  at_end-Polls d c h = elim (Bool-cases (ltb 0 d.buffered_size)) [
    | inl t ↦
        rw (extend, t)
          (breaks (omega (arith, length-append (contents d) []))
            (verdict-suc _ _ (omega (arith, c, length-append (contents d) [])) (ltb→lt _ _ t)))
    | inr t ↦
        rw (extend, t)
          (ends (omega (arith, length-append (contents d) []))
            (verdict-zero _ (omega (arith, c, length-append (contents d) [], ltb→ge _ _ t))))
  ]

  contents_push : (d : BufDeque) (b : List ℕ) → concat (d.buffered ++ (b ∷ [])) ≡ contents d ++ b
  contents_push d b = concat-append d.buffered (b ∷ []) ∙ ap (λ t. contents d ++ t) (append-nil b)

  same :
      (d : BufDeque) (b : List ℕ) (xs : Stream)
      → contents d ++ (b ++ bytes xs) ≡ concat (d.buffered ++ (b ∷ [])) ++ bytes xs
  same d b xs =
      sym (append_assoc (contents d) b (bytes xs))
      ∙ ap (λ t. t ++ bytes xs) (sym (contents_push d b))

  pushed :
      (d : BufDeque) (b : List ℕ)
      → Consistent d
      → d.buffered_size + length b ≡ length (concat (d.buffered ++ (b ∷ [])))
  pushed d b c = omega (arith, c, ap length (contents_push d b), length-append (contents d) b)

  -- The same poll, of what comes after the first answer of the stream.
  abbrev Later : Stream → Type 0
  Later [] = Unit
  Later (x ∷ xs) =
      (t : BufDeque) → Consistent t → Polls sz deserialize t xs (poll_next sz deserialize t xs)

  one_round :
      (d : BufDeque) (xs : Stream) (r : Read (List T))
      → Consistent d
      → attempt sz deserialize d ≡ r
      → Attempts sz deserialize d r
      → Later xs
      → Polls sz deserialize d xs (poll_next sz deserialize d xs)
  unfolding poll_next extend
  one_round d [] r c e (few l) ih = rw (poll_next, e) (at_end-Polls d c l)
  one_round d (none ∷ xs) r c e (few l) ih =
      rw (poll_next, e) (waits refl c (λ n. refl) (omega arith))
  one_round d (some failed ∷ xs) r c e (few l) ih =
      rw (poll_next, e) (breaks (omega (arith, length-append (contents d) [])) refl)
  one_round d (some (arrived b) ∷ xs) r c e (few l) ih =
      rw (poll_next, e)
        (widen sz deserialize d _ (some (arrived b) ∷ xs) xs _ (same d b xs) (λ n. refl)
          (omega arith) (ih _ (pushed d b c)))
  one_round d [] r c e (some_of h k a s) ih =
      rw (poll_next, e) (read_ahead sz deserialize d [] h k a s)
  one_round d (none ∷ xs) r c e (some_of h k a s) ih =
      rw (poll_next, e) (read_ahead sz deserialize d (none ∷ xs) h k a s)
  one_round d (some x ∷ xs) r c e (some_of h k a s) ih =
      rw (poll_next, e) (read_ahead sz deserialize d (some x ∷ xs) h k a s)

  -- For records of at least one byte and a buffer that is consistent, a poll never panics. It yields
  -- at least one record, those of the next bytes, or is pending and loses nothing, or ends, with
  -- fewer bytes than a record left, in the error that the stream and the rest call for.
  pub poll_next-Polls :
      (d : BufDeque) (xs : Stream)
      → 1 ≤ sz
      → Consistent d
      → Polls sz deserialize d xs (poll_next sz deserialize d xs)
  poll_next-Polls d [] h c = one_round d [] _ c refl (attempt-Attempts sz deserialize d c h) tt
  poll_next-Polls d (x ∷ xs) h c =
      one_round d (x ∷ xs) _ c refl (attempt-Attempts sz deserialize d c h)
        (λ t k. poll_next-Polls t xs h k)

  -- Fuel for all polls until the stream ends.
  abbrev pub enough : BufDeque → Stream → ℕ
  enough d xs = suc (length (ahead d xs) + length xs)

  abbrev pub Collected : ℕ → BufDeque → Stream → Type 0
  Collected fuel d xs =
      (ms : List T) × (left : List ℕ) × Records sz deserialize (ahead d xs) ms left
      × (collect sz deserialize fuel d xs ≡ some (ms, verdict xs (length left)))

  one_poll :
      (fuel : ℕ) (d : BufDeque) (xs : Stream) (p : Polled T)
      → enough d xs ≤ suc fuel
      → poll_next sz deserialize d xs ≡ p
      → ((t : BufDeque) (ys : Stream) → Consistent t → enough t ys ≤ fuel → Collected fuel t ys)
      → Polls sz deserialize d xs p
      → Collected (suc fuel) d xs
  unfolding collect
  one_poll fuel d xs p k e ih (got_items {block} {ms} {d'} {xs'} h r a c v l) =
      let (ns, left, q, f) =
        ih d' xs' c (omega (arith, ap length a, length-append block (ahead d' xs'))) in
      (
        ms ++ ns,
        left,
        moved sz deserialize (sym a) (Records-append sz deserialize r refl q),
        rw (collect, e, f) (ap (λ o. some (ms ++ ns, o)) (sym (v _))),
      )
  one_poll fuel d xs p k e ih (waits {d'} {xs'} a c v l) =
      let (ns, left, q, f) = ih d' xs' c (omega (arith, ap length a)) in
      (
        ns,
        left,
        moved sz deserialize (sym a) q,
        rw (collect, e, f) (ap (λ o. some (ns, o)) (sym (v _))),
      )
  one_poll fuel d xs p k e ih (breaks h v) =
      ([], ahead d xs, rest h, rw (collect, e) (ap (λ o. some ([], o)) (sym v)))
  one_poll fuel d xs p k e ih (ends h v) =
      ([], ahead d xs, rest h, rw (collect, e) (ap (λ o. some ([], o)) (sym v)))

  -- For records of at least one byte and a buffer that is consistent, polling until the stream ends
  -- does end. It yields the records of all bytes that are buffered or come before a failure, in
  -- order. It ends in the error of the stream, where that fails, and else in an error that tells how
  -- many bytes are left, where these are less than a record.
  pub collect-Records :
      (fuel : ℕ) (d : BufDeque) (xs : Stream)
      → 1 ≤ sz
      → Consistent d
      → enough d xs ≤ fuel
      → Collected fuel d xs
  collect-Records zero d xs h c k = elim k [ ]
  collect-Records (suc fuel) d xs h c k =
      one_poll fuel d xs _ k refl (λ t ys ct l. collect-Records fuel t ys h ct l)
        (poll_next-Polls d xs h c)
