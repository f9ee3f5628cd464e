-- ===== src/Protocol/Prss/Sharing.antt =====
-- src/protocol/prss and src/helpers/prss_protocol.rs: the sharings that three endpoints draw.
use raw_ipa.Prelude.{
  ℕ, ◌≡◌, ◌≢◌, refl, sym, ap, ap₂, ◌∙◌, subst, Bool, true, false, [], ◌∷◌, ◌⊎◌, inl, inr, Option,
  none, some,
}
use mathlib.Core.Logic.{if_neg}
use raw_ipa.Algebra.{Field, IsRing, ◌⊕◌, ◌⊖◌, 𝟘}
use raw_ipa.Algebra.Solver.{Expr_field, var, solve, values, normalise}
use raw_ipa.Helpers.Role.{Three, Role, h1, h2, h3, at, map_three}
use raw_ipa.SecretSharing.Sharing.{IsReplicated}
use raw_ipa.Protocol.Exchange.{done}
use raw_ipa.Protocol.Prss.{
  Crypto, generate, IndexedSharedRandomness, EndpointItem, indexed_item, sequential_item, Endpoint,
  EndpointSetup, lookup, new_indexed, generate_values, key_exchange, setup, negotiate_all,
  generate_fields, generate_replicated, zero_field,
}
use raw_ipa.Protocol.Prss.Agreement.{Keyed, Free, drawn, generate_values-drawn}
use raw_ipa.Protocol.Prss.History.{
  History, begins, and_then, find, Effect, drew, made, perform-Effect, none_ne,
}
use raw_ipa.Protocol.Prss.Reuse.{item_of}

-- Both sides of a Diffie-Hellman exchange reach the same secret.
pub record IsSymmetric (c : Crypto) : Type 0 where
  pub agree :
      (a b : c.Secret) → c.diffie_hellman a (c.public_key b) ≡ c.diffie_hellman b (c.public_key a)

-- Neighbours use different keys.
pub record Distinct (c : Crypto) (ss : Three (EndpointSetup c)) : Type 0 where
  pub first_second : c.public_key ss.first.right ≢ c.public_key ss.second.left
  pub second_third : c.public_key ss.second.right ≢ c.public_key ss.third.left
  pub third_first : c.public_key ss.third.right ≢ c.public_key ss.first.left

module _ (c : Crypto) (same_gate : Discrete c.Gate) (debug : Bool) where
  -- The keys of a randomness are those of a gate.
  abbrev OfGate : Endpoint c → c.Gate → IndexedSharedRandomness c → Type 0
  OfGate e gate r = (r.left ≡ c.expand e.left gate) × (r.right ≡ c.expand e.right gate)

  all-OfGate :
      (e : Endpoint c)
      → ((gate : c.Gate) (r : IndexedSharedRandomness c)
          → find c same_gate debug gate e ≡ some (indexed_item r)
          → OfGate e gate r)
      → Keyed c same_gate e
  all-OfGate e k = record {
    left_key = λ gate r f. (k gate r f).0;
    right_key = λ gate r f. (k gate r f).1;
  }

  not_sequential :
      {r : IndexedSharedRandomness c}
      → ◌≡◌ {A = Option (EndpointItem c)} (some sequential_item) (some (indexed_item r))
      → ⊥
  not_sequential e = cc

  same_secrets :
      (e e' : Endpoint c) (gate : c.Gate) (r : IndexedSharedRandomness c)
      → (e'.left ≡ e.left) × (e'.right ≡ e.right)
      → OfGate e gate r
      → OfGate e' gate r
  same_secrets e e' gate r s o =
      (o.0 ∙ ap (λ t. c.expand t gate) (sym s.0), o.1 ∙ ap (λ t. c.expand t gate) (sym s.1))

  unchanged :
      (e e' : Endpoint c) (gate : c.Gate) (r : IndexedSharedRandomness c)
      → Keyed c same_gate e
      → (e'.left ≡ e.left) × (e'.right ≡ e.right)
      → find c same_gate debug gate e' ≡ find c same_gate debug gate e
      → find c same_gate debug gate e' ≡ some (indexed_item r)
      → OfGate e' gate r
  unchanged e e' gate r q s k f =
      same_secrets e e' gate r s (q.left_key gate r (sym k ∙ f), q.right_key gate r (sym k ∙ f))

  -- A request keeps the secrets of an endpoint, and that its randomness is derived from them.
  Effect-Keyed :
      (e e' : Endpoint c)
      → Effect c same_gate debug e e'
      → Keyed c same_gate e
      → Keyed c same_gate e' × (e'.left ≡ e.left) × (e'.right ≡ e.right)
  Effect-Keyed e e' (made g n h k s) q = (
    all-OfGate e' (λ gate x f. elim (same_gate g gate) [
      | yes d ↦ absurd (not_sequential (sym h ∙ ap (λ y. find c same_gate debug y e') d ∙ f))
      | no d ↦ unchanged e e' gate x q s (k gate d) f
    ]),
    s.0,
    s.1,
  )
  Effect-Keyed e e' (drew g i r used o n h k s) q = (
    all-OfGate e' (λ gate x f. elim (same_gate g gate) [
      | yes d ↦
          subst (OfGate e' gate)
            (item_of c same_gate (sym h ∙ ap (λ y. find c same_gate debug y e') d ∙ f))
            (subst (λ y. OfGate e' y (record r { used = used })) d
              (same_secrets e e' g (record r { used = used }) s (own o)))
      | no d ↦ unchanged e e' gate x q s (k gate d) f
    ]),
    s.0,
    s.1,
  )
    where
      own :
          ((find c same_gate debug g e ≡ some (indexed_item r))
            ⊎ ((find c same_gate debug g e ≡ none) × (r ≡ new_indexed c same_gate g e)))
          → OfGate e g r
      own (inl p) = (q.left_key g r p, q.right_key g r p)
      own (inr p) = (ap (λ y. y.left) p.1, ap (λ y. y.right) p.1)

  pub History-Keyed :
      {e e' : Endpoint c}
      → History c same_gate debug e e'
      → Keyed c same_gate e
      → Keyed c same_gate e' × (e'.left ≡ e.left) × (e'.right ≡ e.right)
  History-Keyed begins q = (q, refl, refl)
  History-Keyed (and_then {e' = e1} {e'' = e2} h r p) q =
      let (q1, a1, b1) = History-Keyed h q in
      let (q2, a2, b2) = Effect-Keyed e1 e2 (perform-Effect c same_gate debug r e1 e2 p) q1 in
      (q2, a2 ∙ a1, b2 ∙ b1)

-- The endpoints of neighbours have the same secret between them, and were asked nothing yet.
pub record Paired (c : Crypto) (es : Three (Endpoint c)) : Type 0 where
  pub first_second : es.first.right ≡ es.second.left
  pub second_third : es.second.right ≡ es.third.left
  pub third_first : es.third.right ≡ es.first.left
  pub unasked : (r : Role) → (at es r).items ≡ []

module _ (c : Crypto) (same_key : Discrete c.Public) (debug : Bool) where
  key_exchange_lem :
      (sk : c.Secret) (pk : c.Public)
      → pk ≢ c.public_key sk
      → key_exchange c same_key debug sk pk ≡ done (c.diffie_hellman sk pk)
  unfolding key_exchange
  key_exchange_lem sk pk n = by_build debug
    where
      by_build : (b : Bool) → key_exchange c same_key b sk pk ≡ done (c.diffie_hellman sk pk)
      by_build true = if_neg (same_key pk (c.public_key sk)) n _ _
      by_build false = refl

  -- Where neighbours use different keys, the exchange of keys ends, and leaves endpoints of which
  -- neighbours have the same secret.
  pub negotiate_all-Paired :
      (ss : Three (EndpointSetup c))
      → IsSymmetric c
      → Distinct c ss
      → (es : Three (Endpoint c)) × (negotiate_all c same_key debug ss ≡ done es) × Paired c es
  unfolding negotiate_all setup
  negotiate_all-Paired ss y d = (
    record {
      first = ends ss.first (c.public_key ss.third.right) (c.public_key ss.second.left);
      second = ends ss.second (c.public_key ss.first.right) (c.public_key ss.third.left);
      third = ends ss.third (c.public_key ss.second.right) (c.public_key ss.first.left);
    },
    rw
        (
          negotiate_all,
          key_exchange_lem ss.first.left (c.public_key ss.third.right) d.third_first,
          key_exchange_lem ss.first.right (c.public_key ss.second.left)
              (λ e. d.first_second (sym e)),
          key_exchange_lem ss.second.left (c.public_key ss.first.right) d.first_second,
          key_exchange_lem ss.second.right (c.public_key ss.third.left)
              (λ e. d.second_third (sym e)),
          key_exchange_lem ss.third.left (c.public_key ss.second.right) d.second_third,
          key_exchange_lem ss.third.right (c.public_key ss.first.left) (λ e. d.third_first (sym e)),
        )
        refl,
    record {
      first_second = y.agree ss.first.right ss.second.left;
      second_third = y.agree ss.second.right ss.third.left;
      third_first = y.agree ss.third.right ss.first.left;
      unasked = elim [ h1 ↦ refl | h2 ↦ refl | h3 ↦ refl ];
    },
  )
    where
      ends : EndpointSetup c → c.Public → c.Public → Endpoint c
      ends s l r = record {
        left = c.diffie_hellman s.left l;
        right = c.diffie_hellman s.right r;
        items = [];
      }

module _ {ℓ} (c : Crypto) (same_gate : Discrete c.Gate) (debug : Bool) {A : Type ℓ} ⦃f : Field A⦄
    (ring : IsRing A) (truncate_from : ℕ → A) where
  -- What three endpoints draw for one index of one gate: a replicated sharing, and three values
  -- that add up to zero.
  pub record Draws (gate : c.Gate) (index : ℕ) (ts : Three (Endpoint c)) : Type ℓ where
    pub drew_values :
        (r : Role)
        → (e' : Endpoint c) × (generate_values c same_gate debug gate index (at ts r)
            ≡ some (drawn c same_gate debug (at ts r) gate index, e'))
    pub replicated : IsReplicated (
        map_three
          (λ e. generate_replicated truncate_from (drawn c same_gate debug e gate index))
          ts)
    pub sum_zero :
        zero_field truncate_from (drawn c same_gate debug ts.first gate index)
          ⊕ zero_field truncate_from (drawn c same_gate debug ts.second gate index)
          ⊕ zero_field truncate_from (drawn c same_gate debug ts.third gate index)
        ≡ 𝟘

  fresh-Keyed : (e : Endpoint c) → e.items ≡ [] → Keyed c same_gate e
  fresh-Keyed e n = record {
    left_key = λ gate r h. absurd (none_ne (sym (ap (lookup c same_gate gate) n) ∙ h));
    right_key = λ gate r h. absurd (none_ne (sym (ap (lookup c same_gate gate) n) ∙ h));
  }

  cancel : (x y z : A) → (x ⊖ y) ⊕ (y ⊖ z) ⊕ (z ⊖ x) ≡ 𝟘
  unfolding normalise
  cancel x y z =
      solve ring (values (x ∷ y ∷ z ∷ [])) ((var 0 ⊖ var 1) ⊕ (var 1 ⊖ var 2) ⊕ (var 2 ⊖ var 0)) 𝟘
        refl

  -- After an exchange of keys, and whatever was asked of the three endpoints since without a panic,
  -- drawing the values of an index that is free at a gate of each does not panic. The values are a
  -- replicated sharing of a random value, and their differences a sharing of zero.
  pub generate_values-Draws :
      (gate : c.Gate) (index : ℕ) (es ts : Three (Endpoint c))
      → Paired c es
      → ((r : Role) → History c same_gate debug (at es r) (at ts r))
      → ((r : Role) → Free c same_gate debug gate index (at ts r))
      → Draws gate index ts
  unfolding generate_replicated zero_field generate_fields
  generate_values-Draws gate index es ts p hist free = record {
    drew_values =
        λ r. generate_values-drawn c same_gate debug gate index (at ts r) (keyed r).0 (free r);
    replicated = record {
      first_second = ap value one_two;
      second_third = ap value two_three;
      third_first = ap value three_one;
    };
    sum_zero =
        ap₂
          (λ a b.
            (value ts.first.left ⊖ a)
            ⊕ (value ts.second.left ⊖ b)
            ⊕ (value ts.third.left ⊖ value ts.third.right))
          (ap value one_two) (ap value two_three)
        ∙ ap
            (λ a.
              (value ts.first.left ⊖ value ts.second.left)
              ⊕ (value ts.second.left ⊖ value ts.third.left)
              ⊕ (value ts.third.left ⊖ a))
            (ap value three_one)
        ∙ cancel (value ts.first.left) (value ts.second.left) (value ts.third.left);
  }
    where
      value : c.Shared → A
      value secret = truncate_from (generate c (c.expand secret gate) index)

      keyed :
          (r : Role)
          → Keyed c same_gate (at ts r)
            × ((at ts r).left ≡ (at es r).left)
            × ((at ts r).right ≡ (at es r).right)
      keyed r = History-Keyed c same_gate debug (hist r) (fresh-Keyed (at es r) (p.unasked r))

      one_two : ts.first.right ≡ ts.second.left
      one_two = (keyed h1).2 ∙ p.first_second ∙ sym (keyed h2).1

      two_three : ts.second.right ≡ ts.third.left
      two_three = (keyed h2).2 ∙ p.second_third ∙ sym (keyed h3).1

      three_one : ts.third.right ≡ ts.first.left
      three_one = (keyed h3).2 ∙ p.third_first ∙ sym (keyed h1).1
