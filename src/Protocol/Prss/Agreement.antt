-- ===== src/Protocol/Prss/Agreement.antt =====
-- src/protocol/prss: the items of an endpoint, whatever was asked of it before.
use raw_ipa.Prelude.{
  ℕ, ◌≡◌, ◌≢◌, refl, sym, ap, ap₂, ◌∙◌, subst, Bool, List, [], ◌∷◌, inl, inr, Option, none, some,
  Bool-cases, ltb,
}
use mathlib.Core.Logic.{ite, if_pos, if_neg}
use raw_ipa.Protocol.Prss.{
  Crypto, usize_max, generate, IndexedSharedRandomness, EndpointItem, indexed_item, sequential_item,
  Endpoint, insert_used, lookup, put, new_indexed, indexed, generate_values,
}

-- What is asked of an endpoint: values of an index at a gate, or the generators of a gate.
pub data Request (c : Crypto) : Type 0 where
  values : c.Gate → ℕ → Request c
  generators : c.Gate → Request c

module _ (c : Crypto) (same_gate : Discrete c.Gate) where
  pub lookup-put_self :
      (gate : c.Gate) (item : EndpointItem c) (items : List (c.Gate × EndpointItem c))
      → lookup c same_gate gate (put c same_gate gate item items) ≡ some item
  lookup-put_self gate item [] = if_pos (same_gate gate gate) refl _ _
  lookup-put_self gate item ((g, old) ∷ items) = elim (same_gate g gate) [
    | yes e ↦
        ap (lookup c same_gate gate) (if_pos (same_gate g gate) e _ _)
        ∙ if_pos (same_gate gate gate) refl _ _
    | no n ↦
        ap (lookup c same_gate gate) (if_neg (same_gate g gate) n _ _)
        ∙ if_neg (same_gate g gate) n _ _
        ∙ lookup-put_self gate item items
  ]

  pub lookup-put_ne :
      (gate other : c.Gate) (item : EndpointItem c) (items : List (c.Gate × EndpointItem c))
      → gate ≢ other
      → lookup c same_gate other (put c same_gate gate item items) ≡ lookup c same_gate other items
  lookup-put_ne gate other item [] n = if_neg (same_gate gate other) n _ _
  lookup-put_ne gate other item ((g, old) ∷ items) n = elim (same_gate g gate) [
    | yes e ↦
        ap (lookup c same_gate other) (if_pos (same_gate g gate) e _ _)
        ∙ if_neg (same_gate gate other) n _ _
        ∙ sym (if_neg (same_gate g other) (λ d. n (sym e ∙ d)) _ _)
    | no m ↦
        ap (lookup c same_gate other) (if_neg (same_gate g gate) m _ _)
        ∙ ap (ite (same_gate g other) (some old)) (lookup-put_ne gate other item items n)
  ]

  -- The randomness of every gate was derived from the shared secrets, by the name of the gate.
  pub record Keyed (e : Endpoint c) : Type 0 where
    pub left_key :
        (gate : c.Gate) (r : IndexedSharedRandomness c)
        → lookup c same_gate gate e.items ≡ some (indexed_item r)
        → r.left ≡ c.expand e.left gate
    pub right_key :
        (gate : c.Gate) (r : IndexedSharedRandomness c)
        → lookup c same_gate gate e.items ≡ some (indexed_item r)
        → r.right ≡ c.expand e.right gate

  -- An item whose keys are those of its gate.
  abbrev IsOwn : Endpoint c → c.Gate → EndpointItem c → Type 0
  IsOwn e gate (indexed_item r) =
      (r.left ≡ c.expand e.left gate) × (r.right ≡ c.expand e.right gate)
  IsOwn e gate sequential_item = Unit

  pub put-Keyed :
      (e : Endpoint c) (gate : c.Gate) (item : EndpointItem c)
      → Keyed e
      → IsOwn e gate item
      → Keyed (record e { items = put c same_gate gate item e.items })
  put-Keyed e gate item k o = record {
    left_key = λ g r h. elim (same_gate gate g) [
      | yes d ↦ (own g r d h).0
      | no n ↦ k.left_key g r (sym (lookup-put_ne gate g item e.items n) ∙ h)
    ];
    right_key = λ g r h. elim (same_gate gate g) [
      | yes d ↦ (own g r d h).1
      | no n ↦ k.right_key g r (sym (lookup-put_ne gate g item e.items n) ∙ h)
    ];
  }
    where
      of_item : c.Gate → Option (EndpointItem c) → Type 0
      of_item g none = Unit
      of_item g (some i) = IsOwn e g i

      own :
          (g : c.Gate) (r : IndexedSharedRandomness c)
          → gate ≡ g
          → lookup c same_gate g (put c same_gate gate item e.items) ≡ some (indexed_item r)
          → IsOwn e g (indexed_item r)
      own g r d h =
          subst (of_item g)
            (sym (
                ap (λ x. lookup c same_gate x (put c same_gate gate item e.items)) (sym d)
                ∙ lookup-put_self gate item e.items)
              ∙ h)
            (subst (λ x. IsOwn e x item) d o)

  module _ (debug : Bool) where
    -- The index of a gate is free: nothing was asked of the gate, or only other indices.
    pub data Free (gate : c.Gate) (index : ℕ) (e : Endpoint c) : Type 0 where
      new_gate : lookup c same_gate gate e.items ≡ none → Free gate index e
      new_index :
          (r : IndexedSharedRandomness c) (used : List ℕ)
          → lookup c same_gate gate e.items ≡ some (indexed_item r)
          → insert_used debug index r.used ≡ some used
          → Free gate index e

    -- The two values of an index, by the secrets that are shared with the neighbours.
    abbrev pub drawn : Endpoint c → c.Gate → ℕ → ℕ × ℕ
    drawn e gate index =
        (generate c (c.expand e.left gate) index, generate c (c.expand e.right gate) index)

    insert-first : (index : ℕ) → (used : List ℕ) × (insert_used debug index [] ≡ some used)
    unfolding insert_used
    insert-first index = elim (Bool-cases debug) [
      | inl d ↦ elim (Bool-cases (ltb usize_max index)) [
        | inl t ↦ ([], rw (insert_used, d, t) refl)
        | inr t ↦ (index ∷ [], rw (insert_used, d, t) refl)
      ]
      | inr d ↦ ([], rw (insert_used, d) refl)
    ]

    -- The endpoint with another item.
    abbrev pub with_item : c.Gate → EndpointItem c → Endpoint c → Endpoint c
    with_item gate item e = record e { items = put c same_gate gate item e.items }

    abbrev pub using : List ℕ → IndexedSharedRandomness c → IndexedSharedRandomness c
    using used r = record r { used = used }

    pub generate_values-drawn :
        (gate : c.Gate) (index : ℕ) (e : Endpoint c)
        → Keyed e
        → Free gate index e
        → (e' : Endpoint c) × (generate_values c same_gate debug gate index e
            ≡ some (drawn e gate index, e'))
    unfolding generate_values indexed
    generate_values-drawn gate index e k (new_gate n) =
        let (used, i) = insert-first index in
        let fresh = new_indexed c same_gate gate e in
        (
          with_item gate (indexed_item (using used fresh)) (with_item gate (indexed_item fresh) e),
          rw (generate_values, indexed, n, i) refl,
        )
    generate_values-drawn gate index e k (new_index r used l i) =
        let e' = with_item gate (indexed_item (using used r)) e in
        (
          e',
          rw (generate_values, indexed, l, i)
              (ap₂ (λ a b. some ((generate c a index, generate c b index), e'))
                (k.left_key gate r l) (k.right_key gate r l)),
        )
