-- ===== src/Ff/PrimeField/Ring.antt =====
-- src/ff/prime_field.rs: the field that the macro defines, whose elements are the numbers below the
-- prime.
use raw_ipa.Prelude.{
  ℕ, ◌+◌, ◌-◌, ◌*◌, ◌/◌, ◌%◌, ◌<◌, ◌≡◌, sym, ap, ap₂, subst, ◌∙◌, ◌≡⟨◌⟩◌, ◌∎, arith, ℕ_discrete,
}
use mathlib.Core.HLevel.{is_prop→PathP}
use native.Mathlib.Bridge.{le_prop}
use native.Mathlib.Nat.{
  mod-lt, mod-eq_of_lt, mod-add-mod, add-mod-mod, mod-add-div, add_assoc, add_comm, mul_assoc,
  mul_comm, add-mul, mul-add, mul-one, mod_self, add-mul-mod_self_left,
}
use raw_ipa.Algebra.{Field, IsRing}
use raw_ipa.Ff.PrimeField.{
  Params, fp31, fp32_bit_prime, IsSound, truncate_from, add_raw, neg_raw, sub_raw, mul_raw,
}
use raw_ipa.Ff.PrimeField.Modular.{
  prime_pos, truncate_from_lem, add_raw_lem, neg_raw_lem, sub_raw_lem, mul_raw_lem,
}

pub mod-mul-mod : (a b m : ℕ) → a % m * b % m ≡ a * b % m
mod-mul-mod a b m = sym (
    a * b % m
    ≡⟨ ap (λ v. v * b % m) (sym (mod-add-div a m)) ⟩ (a % m + m * (a / m)) * b % m
    ≡⟨ ap (λ v. v % m) (add-mul _ _ _ ∙ ap (λ v. a % m * b + v) (mul_assoc m (a / m) b)) ⟩
      (a % m * b + m * (a / m * b)) % m
    ≡⟨ add-mul-mod_self_left (a % m * b) m (a / m * b) ⟩ a % m * b % m ∎)

pub mul-mod-mod : (a b m : ℕ) → a * (b % m) % m ≡ a * b % m
mul-mod-mod a b m =
    ap (λ v. v % m) (mul_comm a (b % m)) ∙ mod-mul-mod b a m ∙ ap (λ v. v % m) (mul_comm b a)

-- An element, `struct $field($store)`: the constructors keep the number below the prime.
pub record Element (p : Params) : Type 0 where
  pub raw : ℕ
  pub below : raw < p.prime

pub eq_of_raw : {p : Params} {x y : Element p} → x.raw ≡ y.raw → x ≡ y
eq_of_raw {p} {x} {y} e = λ i. record {
  raw = e i;
  below = is_prop→PathP (λ j. e j < p.prime) (λ j. le_prop) x.below y.below i;
}

pub Element-discrete : (p : Params) → Discrete (Element p)
Element-discrete p x y = elim (ℕ_discrete x.raw y.raw) [
  | yes e ↦ yes (eq_of_raw e)
  | no n ↦ no (λ e. n (ap (λ z. z.raw) e))
]

module _ (p : Params) (s : IsSound p) where
  open p use {prime}

  pub reduced : {u : ℕ} (v : ℕ) → u ≡ v % prime → u < prime
  reduced {u} v e = subst (λ w. w < prime) (sym e) (mod-lt v (prime_pos p s))

  abbrev pub from_u128 : ℕ → Element p
  from_u128 v = record { raw = truncate_from p v; below = reduced _ (truncate_from_lem p s v) }

  abbrev pub element_field : Field (Element p)
  element_field = record {
    zero_value = record { raw = 0; below = prime_pos p s };
    one_value = record { raw = 1; below = s.at_least_two };
    add = λ x y. record {
      raw = add_raw p x.raw y.raw;
      below = reduced _ (add_raw_lem p s x.raw y.raw x.below y.below);
    };
    sub = λ x y. record {
      raw = sub_raw p x.raw y.raw;
      below = reduced _ (sub_raw_lem p s x.raw y.raw x.below y.below);
    };
    neg = λ x. record { raw = neg_raw p x.raw; below = reduced _ (neg_raw_lem p s x.raw x.below) };
    mul = λ x y. record {
      raw = mul_raw p x.raw y.raw;
      below = reduced _ (mul_raw_lem p s x.raw y.raw x.below y.below);
    };
  }

  raw-add : (x y : Element p) → (element_field.add x y).raw ≡ (x.raw + y.raw) % prime
  raw-add x y = add_raw_lem p s x.raw y.raw x.below y.below

  raw-mul : (x y : Element p) → (element_field.mul x y).raw ≡ x.raw * y.raw % prime
  raw-mul x y = mul_raw_lem p s x.raw y.raw x.below y.below

  raw-neg : (x : Element p) → (element_field.neg x).raw ≡ (prime - x.raw) % prime
  raw-neg x = neg_raw_lem p s x.raw x.below

  raw-sub : (x y : Element p) → (element_field.sub x y).raw ≡ (prime + x.raw - y.raw) % prime
  raw-sub x y = sub_raw_lem p s x.raw y.raw x.below y.below

  add_assoc_raw :
      (x y z : Element p)
      → (element_field.add (element_field.add x y) z).raw
        ≡ (element_field.add x (element_field.add y z)).raw
  add_assoc_raw x y z =
      raw-add (element_field.add x y) z
      ∙ ap (λ v. (v + z.raw) % prime) (raw-add x y)
      ∙ mod-add-mod _ _ _
      ∙ ap (λ v. v % prime) (add_assoc x.raw y.raw z.raw)
      ∙ sym (
          raw-add x (element_field.add y z)
          ∙ ap (λ v. (x.raw + v) % prime) (raw-add y z)
          ∙ add-mod-mod _ _ _)

  add_neg_raw : (x : Element p) → (element_field.add x (element_field.neg x)).raw ≡ 0
  add_neg_raw x =
      raw-add x (element_field.neg x)
      ∙ ap (λ v. (x.raw + v) % prime) (raw-neg x)
      ∙ add-mod-mod _ _ _
      ∙ ap (λ v. v % prime) (cancel x.raw prime x.below)
      ∙ mod_self prime
    where
      cancel : (a b : ℕ) → a < b → a + (b - a) ≡ b
      cancel a b h = omega arith

  sub_def_raw :
      (x y : Element p)
      → (element_field.sub x y).raw ≡ (element_field.add x (element_field.neg y)).raw
  sub_def_raw x y =
      raw-sub x y
      ∙ ap (λ v. v % prime) (regroup x.raw y.raw prime y.below)
      ∙ sym (
          raw-add x (element_field.neg y)
          ∙ ap (λ v. (x.raw + v) % prime) (raw-neg y)
          ∙ add-mod-mod _ _ _)
    where
      regroup : (a b m : ℕ) → b < m → m + a - b ≡ a + (m - b)
      regroup a b m h = omega arith

  mul_assoc_raw :
      (x y z : Element p)
      → (element_field.mul (element_field.mul x y) z).raw
        ≡ (element_field.mul x (element_field.mul y z)).raw
  mul_assoc_raw x y z =
      raw-mul (element_field.mul x y) z
      ∙ ap (λ v. v * z.raw % prime) (raw-mul x y)
      ∙ mod-mul-mod _ _ _
      ∙ ap (λ v. v % prime) (mul_assoc x.raw y.raw z.raw)
      ∙ sym (
          raw-mul x (element_field.mul y z)
          ∙ ap (λ v. x.raw * v % prime) (raw-mul y z)
          ∙ mul-mod-mod _ _ _)

  mul_add_raw :
      (x y z : Element p)
      → (element_field.mul x (element_field.add y z)).raw
        ≡ (element_field.add (element_field.mul x y) (element_field.mul x z)).raw
  mul_add_raw x y z =
      raw-mul x (element_field.add y z)
      ∙ ap (λ v. x.raw * v % prime) (raw-add y z)
      ∙ mul-mod-mod _ _ _
      ∙ ap (λ v. v % prime) (mul-add x.raw y.raw z.raw)
      ∙ sym (
          raw-add (element_field.mul x y) (element_field.mul x z)
          ∙ ap₂ (λ v w. (v + w) % prime) (raw-mul x y) (raw-mul x z)
          ∙ mod-add-mod _ _ _
          ∙ add-mod-mod _ _ _)

  -- Over any parameters that the macro accepts, the elements with its operators are a commutative
  -- ring.
  pub element_field-IsRing : IsRing (Element p) ⦃f = element_field⦄
  element_field-IsRing = record {
    add_assoc = λ x y z. eq_of_raw (add_assoc_raw x y z);
    add_comm = λ x y.
        eq_of_raw (raw-add x y ∙ ap (λ v. v % prime) (add_comm x.raw y.raw) ∙ sym (raw-add y x));
    add_zero = λ x. eq_of_raw (
        raw-add x element_field.zero_value
        ∙ ap (λ v. v % prime) (unit x.raw)
        ∙ mod-eq_of_lt x.below);
    add_neg = λ x. eq_of_raw (add_neg_raw x);
    sub_def = λ x y. eq_of_raw (sub_def_raw x y);
    mul_assoc = λ x y z. eq_of_raw (mul_assoc_raw x y z);
    mul_comm = λ x y.
        eq_of_raw (raw-mul x y ∙ ap (λ v. v % prime) (mul_comm x.raw y.raw) ∙ sym (raw-mul y x));
    mul_one = λ x. eq_of_raw (
        raw-mul x element_field.one_value
        ∙ ap (λ v. v % prime) (mul-one x.raw)
        ∙ mod-eq_of_lt x.below);
    mul_add = λ x y z. eq_of_raw (mul_add_raw x y z);
  }
    where
      unit : (a : ℕ) → a + 0 ≡ a
      unit a = omega arith

-- The two fields of the module.
pub fp31-IsSound : IsSound fp31
fp31-IsSound = record {
  at_least_two = omega arith;
  fits_store = omega arith;
  fits_u32 = omega arith;
}

pub fp32_bit_prime-IsSound : IsSound fp32_bit_prime
fp32_bit_prime-IsSound = record {
  at_least_two = omega arith;
  fits_store = omega arith;
  fits_u32 = omega arith;
}

abbrev pub Fp31 : Type 0
Fp31 = Element fp31

instance pub Fp31_field : Field Fp31
Fp31_field = element_field fp31 fp31-IsSound

pub Fp31-IsRing : IsRing Fp31
unfolding Fp31_field
Fp31-IsRing = element_field-IsRing fp31 fp31-IsSound

pub raw-Fp31 : (a b : Fp31) → (Fp31_field.add a b).raw ≡ (a.raw + b.raw) % 31
unfolding Fp31_field
raw-Fp31 a b = raw-add fp31 fp31-IsSound a b
