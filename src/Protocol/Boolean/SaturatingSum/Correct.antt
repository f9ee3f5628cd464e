-- ===== src/Protocol/Boolean/SaturatingSum/Correct.antt =====
-- src/protocol/boolean/saturating_sum.rs: the number that the bits of a sum make up.
use raw_ipa.Prelude.{
  ℕ, suc, ◌+◌, ◌*◌, ◌^◌, ◌≤◌, ◌≡◌, refl, sym, ap, ◌∙◌, Bool, true, false, ◌||◌, List, [], ◌∷◌,
  length, leb, le→leb, arith,
}
use native.Mathlib.Nat.{pow-succ', mul_assoc}
use raw_ipa.Algebra.{Field, IsRing, 𝟘, 𝟙, ◌⊕◌}
use raw_ipa.SecretSharing.Sharing.{Sharing, Shares, IsReplicated, zero_sharing}
use raw_ipa.Protocol.Exchange.{Outcome, done}
use raw_ipa.Protocol.Boolean.Xor.{bit}
use raw_ipa.Protocol.Boolean.Or.{or-Computes}
use raw_ipa.Protocol.Boolean.SaturatingSum.{SaturatingSum, add_bits, add_value, head_or_zero, tail}
use raw_ipa.Protocol.Boolean.SaturatingSum.Bits.{
  number, from_bits, parity, carry, full_adder, AllBits, none, more, length-AllBits, zero-Shares,
  one_bit_adder_lem,
}

abbrev first_bit : List Bool → Bool
first_bit [] = false
first_bit (b ∷ bs) = b

abbrev rest_bits : List Bool → List Bool
rest_bits [] = []
rest_bits (b ∷ bs) = bs

length-rest_bits : (m : ℕ) (ns : List Bool) → length ns ≤ suc m → length (rest_bits ns) ≤ m
length-rest_bits m [] h = omega arith
length-rest_bits m (n ∷ ns) h = omega arith

from_bits-rest :
    (ns : List Bool) → from_bits ns ≡ number (first_bit ns) + 2 * from_bits (rest_bits ns)
from_bits-rest [] = refl
from_bits-rest (n ∷ ns) = refl

no_bits : (ns : List Bool) → length ns ≤ 0 → from_bits ns ≡ 0
no_bits [] h = refl
no_bits (n ∷ ns) h = elim h [ ]

-- One more bit below a sum.
weigh :
    (s c b y d z w a v co : ℕ)
    → s + 2 * c ≡ b + y + d
    → z + w * co ≡ a + v + c
    → s + 2 * z + 2 * w * co ≡ y + 2 * a + (b + 2 * v) + d
weigh s c b y d z w a v co h k = omega (arith, mul_assoc 2 w co)

module _ {ℓ} {A : Type ℓ} ⦃f : Field A⦄ where
  -- What the helpers hold after `add`: the bits of a number, and the flag.
  abbrev pub ComputesSaturating : Outcome (SaturatingSum A) → ℕ → ℕ → Bool → Type ℓ
  ComputesSaturating o len total was_saturated =
      (t : SaturatingSum A) × (bs : List Bool) × (overflow : Bool) × (o ≡ done t)
      × AllBits t.sum bs
      × Shares t.is_saturated (bit (overflow || was_saturated))
      × (length bs ≡ len)
      × (from_bits bs + 2 ^ len * number overflow ≡ total)

module _ {ℓ} {A : Type ℓ} ⦃f : Field A⦄ (r : IsRing A) (two_zero : ◌≡◌ {A = A} (𝟙 ⊕ 𝟙) 𝟘)
    (dec : Discrete A) (debug : Bool) (prss : ℕ → Sharing A)
    (hp : (i : ℕ) → IsReplicated (prss i)) where
  head-Shares :
      (vs : List (Sharing A)) (ns : List Bool)
      → AllBits vs ns
      → Shares (head_or_zero vs) (bit (first_bit ns))
  head-Shares vs ns none = zero-Shares r
  head-Shares vs ns (more h hs) = h

  tail-AllBits :
      (vs : List (Sharing A)) (ns : List Bool) → AllBits vs ns → AllBits (tail vs) (rest_bits ns)
  tail-AllBits vs ns none = none
  tail-AllBits vs ns (more h hs) = hs

  -- What the loop computes: bits of a number, and a carry.
  abbrev ComputesSum : Outcome (List (Sharing A) × Sharing A) → ℕ → ℕ → Type ℓ
  ComputesSum o len total =
      (zs : List (Sharing A)) × (c : Sharing A) × (bs : List Bool) × (co : Bool) × (o
        ≡ done (zs, c))
      × AllBits zs bs
      × Shares c (bit co)
      × (length bs ≡ len)
      × (from_bits bs + 2 ^ len * number co ≡ total)

  add_bits_lem :
      (i : ℕ) (sum value : List (Sharing A)) (ys ns : List Bool) (c : Sharing A) (d : Bool)
      → AllBits sum ys
      → AllBits value ns
      → Shares c (bit d)
      → length ns ≤ length ys
      → ComputesSum
          (add_bits dec debug prss i sum value c)
          (length ys)
          (from_bits ys + from_bits ns + number d)
  unfolding add_bits
  add_bits_lem i sum value ys ns c d none hn hc l =
      ([], c, [], d, refl, none, hc, refl, omega (arith, no_bits ns l))
  add_bits_lem i sum value ys ns c d (more {s = y} {b} {ss} {bs} hy hys) hn hc l =
      let (x, c', e, hx, hc') =
        one_bit_adder_lem r two_zero dec debug (prss i) (hp i) (head_or_zero value) y c
          (first_bit ns) b d (head-Shares value ns hn) hy hc in
      let (zs, c'', bs', co, e', hz, hc'', lz, sum_lem) =
        add_bits_lem (suc i) ss (tail value) bs (rest_bits ns) c' (carry (first_bit ns) b d) hys
          (tail-AllBits value ns hn) hc' (length-rest_bits (length bs) ns l) in
      (
        x ∷ zs,
        c'',
        parity (first_bit ns) b d ∷ bs',
        co,
        rw (e, e') refl,
        more hx hz,
        hc'',
        ap suc lz,
        ap (λ w. number (parity (first_bit ns) b d) + 2 * from_bits bs' + w * number co)
              (pow-succ' 2 (length bs))
            ∙ weigh _ _ (number (first_bit ns)) (number b) (number d) (from_bits bs')
                (2 ^ length bs) (from_bits bs) (from_bits (rest_bits ns)) (number co)
                (full_adder (first_bit ns) b d) sum_lem
            ∙ ap (λ v. number b + 2 * from_bits bs + v + number d) (sym (from_bits-rest ns)),
      )

  -- Over a field in which 1 + 1 is 0, with correlated randomness and a number that has no more bits
  -- than the sum, all helpers return. The new sum has as many bits as before and is the sum of the
  -- two numbers, less 2 to that power if it does not fit. The flag is set exactly if it does not
  -- fit or the flag was set before.
  pub add_value-Computes :
      (s : SaturatingSum A) (value : List (Sharing A)) (ys ns : List Bool) (was_saturated : Bool)
      → AllBits s.sum ys
      → AllBits value ns
      → Shares s.is_saturated (bit was_saturated)
      → length ns ≤ length ys
      → ComputesSaturating
          (add_value dec debug prss s value)
          (length ys)
          (from_bits ys + from_bits ns)
          was_saturated
  unfolding add_value
  add_value-Computes s value ys ns was hs hv hf l =
      let (zs, c, bs, co, e, hz, hc, lz, total) =
        add_bits_lem 0 s.sum value ys ns zero_sharing false hs hv (zero-Shares r) l in
      let (flag, e', hflag) =
        or-Computes r dec debug (prss (length s.sum)) c s.is_saturated co was (hp (length s.sum)) hc
          hf in
      (
        record { sum = zs; is_saturated = flag },
        bs,
        co,
        rw (fits, e, e') refl,
        hz,
        hflag,
        lz,
        omega (arith, total),
      )
    where
      fits : leb (length value) (length s.sum) ≡ true
      fits = le→leb _ _ (omega (arith, length-AllBits hs, length-AllBits hv))
