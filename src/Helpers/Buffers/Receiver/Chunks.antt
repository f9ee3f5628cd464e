-- ===== src/Helpers/Buffers/Receiver/Chunks.antt =====
-- src/helpers/buffers/unordered_receiver.rs: streams of the same bytes in different chunks.
use raw_ipa.Prelude.{
  ℕ, ◌+◌, ◌≤◌, ◌<◌, ◌≡◌, refl, sym, ap, ap₂, ◌∙◌, List, ◌∷◌, ◌++◌, some, length, take, drop,
  length-append, take-length, drop-length, arith,
}
use raw_ipa.Helpers.Buffers.Spare.{unread}
use raw_ipa.Helpers.Buffers.Receiver.{OperatingState, Stream, receive_all}
use raw_ipa.Helpers.Buffers.Receiver.Laws.{bytes, ahead, Messages, end, one_more, enough, received}

module _ {M : Type 0} (sz : ℕ) (deserialize : List ℕ → M) where
  too_short : (a b c : ℕ) → a < sz → b ≡ sz → ¬ (a ≡ b + c)
  too_short a b c k l m = omega arith

  -- Bytes are the bytes of one sequence of messages only.
  pub Messages-unique :
      {bs cs : List ℕ} {ms ns : List M}
      → Messages sz deserialize bs ms
      → Messages sz deserialize cs ns
      → bs ≡ cs
      → ms ≡ ns
  Messages-unique (end k) (end l) e = refl
  Messages-unique (end k) (one_more {block} {rest} l h) e =
      absurd (too_short _ _ _ k l (ap length e ∙ length-append block rest))
  Messages-unique (one_more {block} {rest} l h) (end k) e =
      absurd (too_short _ _ _ k l (ap length (sym e) ∙ length-append block rest))
  Messages-unique (one_more {block} {rest} l h) (one_more {block = block'} {rest = rest'} k i) e =
      ap₂ (λ b ms. deserialize b ∷ ms)
        (sym (take-length block rest) ∙ ap₂ take (l ∙ sym k) e ∙ take-length block' rest')
        (Messages-unique h i
          (sym (drop-length block rest) ∙ ap₂ drop (l ∙ sym k) e ∙ drop-length block' rest'))

  module _ {W : Type 0} (s : OperatingState W) (h : 1 ≤ sz) where
    -- For messages of at least one byte, receiving until the end of the stream ends, and yields the
    -- messages of all bytes that were unread or come. Two streams of the same bytes yield the same
    -- messages, wherever the chunks are cut and whenever a stream is pending.
    pub receive_all-chunks :
        (xs ys : Stream)
        → bytes xs ≡ bytes ys
        → (ms : List M) × (receive_all sz deserialize (enough sz deserialize s xs) s xs ≡ some ms)
          × (receive_all sz deserialize (enough sz deserialize s ys) s ys ≡ some ms)
          × Messages sz deserialize (ahead s xs) ms
    receive_all-chunks xs ys e =
        let (ms, p, a) =
          received sz deserialize (enough sz deserialize s xs) s xs h (omega arith) in
        let (ns, q, b) =
          received sz deserialize (enough sz deserialize s ys) s ys h (omega arith) in
        (ms, p, q ∙ ap some (Messages-unique b a (ap (λ t. unread s.spare ++ t) (sym e))), a)
