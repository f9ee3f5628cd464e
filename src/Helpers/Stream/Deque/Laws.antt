-- ===== src/Helpers/Stream/Deque/Laws.antt =====
-- src/helpers/transport/stream/input.rs: a `BufDeque` against the queue of its bytes.
use raw_ipa.Prelude.{
  ℕ, zero, suc, ◌+◌, ◌-◌, ◌≤◌, ◌<◌, ◌≡◌, refl, sym, ap, ◌∙◌, false, List, [], ◌∷◌, ◌++◌, ◌⊎◌, inl,
  inr, some, length, take, drop, concat, ltb, leb, ◌==◌, append_assoc, length-append, length-take,
  take-append-drop, arith, Bool-cases, ltb→lt, ltb→ge, leb→le,
}
use raw_ipa.Helpers.Stream.Deque.{
  BufDeque, Read, too_few, chunk, gather, rounds, put_back, from_front, read_bytes,
}

-- The bytes of a buffer, from the front.
abbrev pub contents : BufDeque → List ℕ
contents d = concat d.buffered

-- The size that a buffer keeps is that of its bytes.
abbrev pub Consistent : BufDeque → Type 0
Consistent d = d.buffered_size ≡ length (contents d)

-- Reading `len` bytes of a queue: none, where it is too short or `len` is zero, and else the first.
pub data Reads (len : ℕ) (d : BufDeque) : Read (List ℕ) → Type 0 where
  short : (len ≡ 0) ⊎ (length (contents d) < len) → Reads len d too_few
  got :
      {block : List ℕ} {d' : BufDeque}
      → 1 ≤ len
      → length block ≡ len
      → contents d ≡ block ++ contents d'
      → Consistent d'
      → Reads len d (chunk block d')

-- How the loop of `read_bytes` ends: with `len` bytes, which were the first.
abbrev pub Gathered : ℕ → ℕ → List ℕ → List (List ℕ) → Type 0
Gathered fuel len out bufs =
    (block : List ℕ) × (rest : List (List ℕ)) × (gather fuel len out bufs ≡ some (block, rest))
    × (length block ≡ len)
    × (out ++ concat bufs ≡ block ++ concat rest)

gather_done :
    (fuel len : ℕ) (out : List ℕ) (bufs : List (List ℕ))
    → length out ≡ len
    → gather (suc fuel) len out bufs ≡ some (out, bufs)
unfolding gather
gather_done fuel len out bufs h = ground arith

length-filled :
    (len : ℕ) (out b : List ℕ)
    → length out ≤ len
    → len - length out < length b
    → length (out ++ take (len - length out) b) ≡ len
length-filled len out b h l =
    omega (arith, length-append out (take (len - length out) b), length-take (len - length out) b)

split-append : (n : ℕ) (out b c : List ℕ) → out ++ (b ++ c) ≡ (out ++ take n b) ++ (drop n b ++ c)
split-append n out b c =
    ap (λ t. out ++ (t ++ c)) (sym (take-append-drop n b))
    ∙ ap (λ t. out ++ t) (append_assoc (take n b) (drop n b) c)
    ∙ sym (append_assoc out (take n b) (drop n b ++ c))

-- The loop of `read_bytes` ends within a round for every chunk and two more, and never looks for a
-- chunk that is not there, if the chunks hold the bytes that remain. It yields exactly `len` bytes,
-- the first there are, and leaves the others in order.
pub gather-Gathered :
    (fuel len : ℕ) (out : List ℕ) (bufs : List (List ℕ))
    → rounds bufs ≤ fuel
    → length out ≤ len
    → len ≤ length out + length (concat bufs)
    → Gathered fuel len out bufs
unfolding gather
gather-Gathered zero len out bufs k l m = elim k [ ]
gather-Gathered (suc fuel) len out bufs k l m = elim (Bool-cases ((len - length out) == 0)) [
  | inl e ↦ (out, bufs, gather_done fuel len out bufs (ground arith), ground arith, refl)
  | inr e ↦ more fuel bufs k m e (λ b bs. gather-Gathered fuel len (out ++ b) bs)
]
  where
    more :
        (fuel : ℕ) (bufs : List (List ℕ))
        → rounds bufs ≤ suc fuel
        → len ≤ length out + length (concat bufs)
        → ((len - length out) == 0) ≡ false
        → ((b : List ℕ) (bs : List (List ℕ))
            → rounds bs ≤ fuel
            → length (out ++ b) ≤ len
            → len ≤ length (out ++ b) + length (concat bs)
            → Gathered fuel len (out ++ b) bs)
        → Gathered (suc fuel) len out bufs
    more fuel [] k m e ih = absurd (ground arith)
    more zero (b ∷ bs) k m e ih = absurd (omega arith)
    more (suc fuel) (b ∷ bs) k m e ih = elim (Bool-cases (ltb (len - length out) (length b))) [
      | inl t ↦
          let filled = length-filled len out b l (ltb→lt _ _ t) in
          (
            out ++ take (len - length out) b,
            drop (len - length out) b ∷ bs,
            rw (gather, e, t) (gather_done fuel len _ _ filled),
            filled,
            split-append (len - length out) out b (concat bs),
          )
      | inr t ↦
          let (block, rest, p, q, r) =
            ih b bs (omega arith) (omega (arith, ltb→ge _ _ t, length-append out b))
              (omega (arith, length-append out b, length-append b (concat bs))) in
          (block, rest, rw (gather, e, t) p, q, sym (append_assoc out b (concat bs)) ∙ r)
    ]

put_back-concat : (b : List ℕ) (bs : List (List ℕ)) → concat (put_back b bs) ≡ b ++ concat bs
put_back-concat [] bs = refl
put_back-concat (x ∷ xs) bs = refl

from_front-Reads :
    (len : ℕ) (d : BufDeque) (bufs : List (List ℕ))
    → Consistent d
    → d.buffered ≡ bufs
    → 1 ≤ len
    → len ≤ length (concat bufs)
    → Reads len d (from_front d len bufs)
from_front-Reads len d [] c e h l = absurd (omega arith)
from_front-Reads len d (b ∷ bs) c e h l = elim (Bool-cases (leb len (length b))) [
  | inl t ↦
      let whole =
        ap concat e
        ∙ split-append len [] b (concat bs)
        ∙ ap (λ u. take len b ++ u) (sym (put_back-concat (drop len b) bs)) in
      let size : length (take len b) ≡ len = omega (arith, length-take len b, leb→le _ _ t) in
      rw t (
        got h size whole (
          omega (
            arith,
            c,
            size,
            ap length whole,
            length-append (take len b) (concat (put_back (drop len b) bs)),
          )))
  | inr t ↦
      let (block, rest, p, q, r) =
        gather-Gathered (rounds (b ∷ bs)) len [] (b ∷ bs) (omega arith) (omega arith)
          (omega (arith, l)) in
      rw (t, p)
        (got h q (ap concat e ∙ r)
          (omega (arith, c, q, ap length (ap concat e ∙ r), length-append block (concat rest))))
]

suc_ne : (n : ℕ) → (suc n == 0) ≡ false
suc_ne n = ground arith

-- For a buffer whose size is that of its bytes, reading is the operation of a queue of bytes: it
-- yields the first `len` of them and leaves the others with their size, or nothing where there are
-- fewer or `len` is zero. It never panics.
pub read_bytes-Reads : (len : ℕ) (d : BufDeque) → Consistent d → Reads len d (read_bytes len d)
unfolding read_bytes
read_bytes-Reads zero d c = short (inl refl)
read_bytes-Reads (suc len) d c = elim (Bool-cases (ltb d.buffered_size (suc len))) [
  | inl t ↦ rw (read_bytes, suc_ne len, t) (short (inr (omega (arith, c, ltb→lt _ _ t))))
  | inr t ↦
      rw (read_bytes, suc_ne len, t)
        (from_front-Reads (suc len) d d.buffered c refl (omega arith)
          (omega (arith, c, ltb→ge _ _ t)))
]
