-- ===== src/Protocol/Prss/History.antt =====
-- src/protocol/prss/mod.rs: what requests leave in an endpoint.
use raw_ipa.Prelude.{
  ℕ, ◌≡◌, ◌≢◌, refl, sym, ap, ◌∙◌, subst, Bool, List, [], ◌⊎◌, inl, inr, Option, none, some,
  Option-cases,
}
use raw_ipa.Protocol.Prss.{
  Crypto, generate, IndexedSharedRandomness, EndpointItem, indexed_item, sequential_item, Endpoint,
  insert_used, lookup, put, new_indexed, indexed, sequential, generate_values,
}
use raw_ipa.Protocol.Prss.Agreement.{Request, values, generators, lookup-put_self, lookup-put_ne}

pub same_result : {A : Type 0} {x y : A} → some x ≡ some y → x ≡ y
same_result e = cc

pub none_ne : {A : Type 0} {x : A} → ◌≡◌ {A = Option A} none (some x) → ⊥
none_ne e = cc

module _ (c : Crypto) (same_gate : Discrete c.Gate) (debug : Bool) where
  abbrev endpoint_of : {A : Type 0} → Option (A × Endpoint c) → Option (Endpoint c)
  endpoint_of none = none
  endpoint_of (some (v, e)) = some e

  -- The endpoint after a request, or `none` where it panics.
  abbrev pub perform : Request c → Endpoint c → Option (Endpoint c)
  perform (values gate index) e = endpoint_of (generate_values c same_gate debug gate index e)
  perform (generators gate) e = endpoint_of (sequential c same_gate gate e)

  -- Requests, one after the other, none of which panics.
  pub data History (e : Endpoint c) : Endpoint c → Type 0 where
    begins : History e e
    and_then :
        {e' e'' : Endpoint c}
        → History e e'
        → (q : Request c) → perform q e' ≡ some e''
        → History e e''

  abbrev pub find : c.Gate → Endpoint c → Option (EndpointItem c)
  find gate e = lookup c same_gate gate e.items

  -- What a request changes: the item of one gate.
  pub data Effect (e e' : Endpoint c) : Type 0 where
    drew :
        (gate : c.Gate) (index : ℕ) (r : IndexedSharedRandomness c) (used : List ℕ)
        → (find gate e ≡ some (indexed_item r))
          ⊎ ((find gate e ≡ none) × (r ≡ new_indexed c same_gate gate e))
        → insert_used debug index r.used ≡ some used
        → find gate e' ≡ some (indexed_item (record r { used = used }))
        → ((g : c.Gate) → gate ≢ g → find g e' ≡ find g e)
        → (e'.left ≡ e.left) × (e'.right ≡ e.right)
        → Effect e e'
    made :
        (gate : c.Gate)
        → find gate e ≡ none
        → find gate e' ≡ some sequential_item
        → ((g : c.Gate) → gate ≢ g → find g e' ≡ find g e)
        → (e'.left ≡ e.left) × (e'.right ≡ e.right)
        → Effect e e'

  put_twice :
      (gate : c.Gate) (a b : EndpointItem c) (e : Endpoint c) (g : c.Gate)
      → gate ≢ g
      → lookup c same_gate g (put c same_gate gate b (put c same_gate gate a e.items)) ≡ find g e
  put_twice gate a b e g n =
      lookup-put_ne c same_gate gate g b (put c same_gate gate a e.items) n
      ∙ lookup-put_ne c same_gate gate g a e.items n

  pub perform-Effect : (q : Request c) (e e' : Endpoint c) → perform q e ≡ some e' → Effect e e'
  unfolding generate_values indexed sequential
  perform-Effect (values gate index) e e' h = by_item (find gate e) refl
    where
      fresh : IndexedSharedRandomness c
      fresh = new_indexed c same_gate gate e

      fails :
          generate_values c same_gate debug gate index e ≡ none
          → generate_values c same_gate debug gate index e ≡ none
      fails p = p

      draws :
          (r : IndexedSharedRandomness c) (used : List ℕ) (items : List (c.Gate × EndpointItem c))
          → generate_values c same_gate debug gate index e
            ≡ some (
              (generate c r.left index, generate c r.right index),
              record e {
                items = put c same_gate gate (indexed_item (record r { used = used })) items;
              },
            )
          → generate_values c same_gate debug gate index e
            ≡ some (
              (generate c r.left index, generate c r.right index),
              record e {
                items = put c same_gate gate (indexed_item (record r { used = used })) items;
              },
            )
      draws r used items p = p

      by_item : (o : Option (EndpointItem c)) → find gate e ≡ o → Effect e e'
      by_item none n = elim (Option-cases (insert_used debug index [])) [
        | inl i ↦
            absurd (
              none_ne (sym (ap endpoint_of (fails (rw (generate_values, indexed, n, i) refl))) ∙ h))
        | inr (used, i) ↦
            subst (Effect e)
              (same_result (
                sym (
                  ap endpoint_of (
                    draws fresh used (put c same_gate gate (indexed_item fresh) e.items)
                      (rw (generate_values, indexed, n, i) refl)))
                ∙ h))
              (drew gate index fresh used (inr (n, refl)) i
                (lookup-put_self c same_gate gate _
                  (put c same_gate gate (indexed_item fresh) e.items))
                (put_twice gate (indexed_item fresh) _ e) (refl, refl))
      ]
      by_item (some sequential_item) n =
          absurd
            (none_ne (sym (ap endpoint_of (fails (rw (generate_values, indexed, n) refl))) ∙ h))
      by_item (some (indexed_item r)) n = elim (Option-cases (insert_used debug index r.used)) [
        | inl i ↦
            absurd (
              none_ne (sym (ap endpoint_of (fails (rw (generate_values, indexed, n, i) refl))) ∙ h))
        | inr (used, i) ↦
            subst (Effect e)
              (same_result (
                sym
                  (ap endpoint_of (draws r used e.items (rw (generate_values, indexed, n, i) refl)))
                ∙ h))
              (drew gate index r used (inl n) i (lookup-put_self c same_gate gate _ e.items)
                (λ g m. lookup-put_ne c same_gate gate g _ e.items m) (refl, refl))
      ]
  perform-Effect (generators gate) e e' h = elim (Option-cases (find gate e)) [
    | inl n ↦
        subst (Effect e) (same_result (sym (ap endpoint_of (makes (rw (sequential, n) refl))) ∙ h))
          (made gate n (lookup-put_self c same_gate gate sequential_item e.items)
            (λ g m. lookup-put_ne c same_gate gate g sequential_item e.items m) (refl, refl))
    | inr (item, n) ↦ absurd (none_ne (sym (ap endpoint_of (stops (rw (sequential, n) refl))) ∙ h))
  ]
    where
      makes :
          sequential c same_gate gate e
            ≡ some (
              (
                record { generator = c.expand e.left gate; counter = 0 },
                record { generator = c.expand e.right gate; counter = 0 },
              ),
              record e { items = put c same_gate gate sequential_item e.items },
            )
          → sequential c same_gate gate e
            ≡ some (
              (
                record { generator = c.expand e.left gate; counter = 0 },
                record { generator = c.expand e.right gate; counter = 0 },
              ),
              record e { items = put c same_gate gate sequential_item e.items },
            )
      makes p = p

      stops : sequential c same_gate gate e ≡ none → sequential c same_gate gate e ≡ none
      stops p = p
