-- ===== src/Protocol/Prss/Reuse.antt =====
-- src/protocol/prss/mod.rs: no index of a gate is used twice, and no gate in two ways.
use raw_ipa.Prelude.{
  ℕ, ◌≤◌, ◌≡◌, refl, sym, ap, ◌∙◌, subst, Bool, true, false, List, [], ◌∷◌, ◌⊎◌, inl, inr, Option,
  none, some, Option-cases, Bool-cases, ltb, ge→ltb, arith, ◌==◌,
}
use raw_ipa.Protocol.Prss.{
  Crypto, generate, IndexedSharedRandomness, EndpointItem, indexed_item, sequential_item, Endpoint,
  usize_max, contains, insert_used, put, new_indexed, indexed, sequential, generate_values,
}
use raw_ipa.Protocol.Prss.Agreement.{lookup-put_self}
use raw_ipa.Protocol.Prss.History.{
  History, begins, and_then, find, Effect, drew, made, perform-Effect, none_ne, same_result,
}

contains-cons : (i j : ℕ) (used : List ℕ) → contains j used ≡ true → contains j (i ∷ used) ≡ true
contains-cons i j used h = elim (Bool-cases (i == j)) [ inl e ↦ rw e refl | inr e ↦ rw e h ]

contains_self : (i : ℕ) (used : List ℕ) → contains i (i ∷ used) ≡ true
contains_self i used = rw (same i) refl
  where
    same : (n : ℕ) → (n == n) ≡ true
    same n = ground arith

-- An index stays in the set.
insert_used-keeps :
    (debug : Bool) (i j : ℕ) (used used' : List ℕ)
    → insert_used debug i used ≡ some used'
    → contains j used ≡ true
    → contains j used' ≡ true
unfolding insert_used
insert_used-keeps false i j used used' e h = subst (λ u. contains j u ≡ true) (same_result e) h
insert_used-keeps true i j used used' e h = elim (Bool-cases (ltb usize_max i)) [
  | inl t ↦ subst (λ u. contains j u ≡ true) (same_result (rw (insert_used, t) at e)) h
  | inr t ↦ elim (Bool-cases (contains i used)) [
    | inl k ↦ absurd (none_ne (rw (insert_used, t, k) at e))
    | inr k ↦
        subst (λ u. contains j u ≡ true) (same_result (rw (insert_used, t, k) at e))
          (contains-cons i j used h)
  ]
]

-- An index that fits a `usize` is in the set after it was inserted, and cannot be inserted again.
insert_used-once :
    (i : ℕ) (used used' : List ℕ)
    → i ≤ usize_max
    → insert_used true i used ≡ some used'
    → contains i used' ≡ true
unfolding insert_used
insert_used-once i used used' l e = elim (Bool-cases (contains i used)) [
  | inl k ↦ absurd (none_ne (rw (insert_used, ge→ltb usize_max i l, k) at e))
  | inr k ↦
      subst (λ u. contains i u ≡ true)
        (same_result (rw (insert_used, ge→ltb usize_max i l, k) at e)) (contains_self i used)
]

insert_used-twice :
    (i : ℕ) (used : List ℕ)
    → i ≤ usize_max
    → contains i used ≡ true
    → insert_used true i used ≡ none
unfolding insert_used
insert_used-twice i used l k = rw (insert_used, ge→ltb usize_max i l, k) refl

module _ (c : Crypto) (same_gate : Discrete c.Gate) where
  -- An index of a gate is in use.
  abbrev Used : c.Gate → ℕ → Endpoint c → Type 0
  Used gate index e =
      (r : IndexedSharedRandomness c) × (find c same_gate true gate e ≡ some (indexed_item r))
      × (contains index r.used ≡ true)

  pub item_of :
      {r s : IndexedSharedRandomness c}
      → ◌≡◌ {A = Option (EndpointItem c)} (some (indexed_item r)) (some (indexed_item s))
      → r ≡ s
  item_of e = cc

  Effect-Used :
      (gate : c.Gate) (index : ℕ) (e e' : Endpoint c)
      → Effect c same_gate true e e'
      → Used gate index e
      → Used gate index e'
  Effect-Used gate index e e' (drew g i r used o n h k s) (q, f, m) = elim (same_gate g gate) [
    | yes d ↦ (
      record r { used = used },
      subst (λ x. find c same_gate true x e' ≡ some (indexed_item (record r { used = used }))) d h,
      insert_used-keeps true i index r.used used n (before o d),
    )
    | no d ↦ (q, k gate d ∙ f, m)
  ]
    where
      before :
          ((find c same_gate true g e ≡ some (indexed_item r))
            ⊎ ((find c same_gate true g e ≡ none) × (r ≡ new_indexed c same_gate g e)))
          → g ≡ gate
          → contains index r.used ≡ true
      before (inl p) d =
          subst (λ x. contains index x.used ≡ true)
            (item_of (sym f ∙ ap (λ x. find c same_gate true x e) (sym d) ∙ p)) m
      before (inr p) d = absurd (none_ne (sym p.0 ∙ ap (λ x. find c same_gate true x e) d ∙ f))
  Effect-Used gate index e e' (made g n h k s) (q, f, m) = elim (same_gate g gate) [
    | yes d ↦ absurd (none_ne (sym n ∙ ap (λ x. find c same_gate true x e) d ∙ f))
    | no d ↦ (q, k gate d ∙ f, m)
  ]

  History-Used :
      (gate : c.Gate) (index : ℕ) {e e' : Endpoint c}
      → History c same_gate true e e'
      → Used gate index e
      → Used gate index e'
  History-Used gate index begins u = u
  History-Used gate index (and_then {e' = e1} {e'' = e2} h q p) u =
      Effect-Used gate index e1 e2 (perform-Effect c same_gate true q e1 e2 p)
        (History-Used gate index h u)

  -- Values that were drawn leave their index in use.
  drawn-Used :
      (gate : c.Gate) (index : ℕ) (e e' : Endpoint c) (v : ℕ × ℕ)
      → index ≤ usize_max
      → generate_values c same_gate true gate index e ≡ some (v, e')
      → Used gate index e'
  unfolding generate_values indexed
  drawn-Used gate index e e' v l h = by_item (find c same_gate true gate e) refl
    where
      fresh : IndexedSharedRandomness c
      fresh = new_indexed c same_gate gate e

      with_used : IndexedSharedRandomness c → List ℕ → List (c.Gate × EndpointItem c) → Endpoint c
      with_used r used items = record e {
        items = put c same_gate gate (indexed_item (record r { used = used })) items;
      }

      holds :
          (r : IndexedSharedRandomness c) (used : List ℕ) (items : List (c.Gate × EndpointItem c))
          → insert_used true index r.used ≡ some used
          → generate_values c same_gate true gate index e
            ≡ some ((generate c r.left index, generate c r.right index), with_used r used items)
          → Used gate index e'
      holds r used items i p = subst (Used gate index) (ap (λ x. x.1) (same_result (sym p ∙ h))) (
        record r { used = used },
        lookup-put_self c same_gate gate _ items,
        insert_used-once index r.used used l i,
      )

      fails : generate_values c same_gate true gate index e ≡ none → ⊥
      fails p = none_ne (sym p ∙ h)

      by_item :
          (o : Option (EndpointItem c)) → find c same_gate true gate e ≡ o → Used gate index e'
      by_item none n = elim (Option-cases (insert_used true index [])) [
        | inl i ↦ absurd (fails (rw (generate_values, indexed, n, i) refl))
        | inr (used, i) ↦
            holds fresh used (put c same_gate gate (indexed_item fresh) e.items) i
              (rw (generate_values, indexed, n, i) refl)
      ]
      by_item (some sequential_item) n = absurd (fails (rw (generate_values, indexed, n) refl))
      by_item (some (indexed_item r)) n = elim (Option-cases (insert_used true index r.used)) [
        | inl i ↦ absurd (fails (rw (generate_values, indexed, n, i) refl))
        | inr (used, i) ↦ holds r used e.items i (rw (generate_values, indexed, n, i) refl)
      ]

  Used-refuses :
      (gate : c.Gate) (index : ℕ) (e : Endpoint c)
      → index ≤ usize_max
      → Used gate index e
      → (generate_values c same_gate true gate index e ≡ none)
        × (sequential c same_gate gate e ≡ none)
  unfolding generate_values indexed sequential
  Used-refuses gate index e l (r, f, m) = (
    rw (generate_values, indexed, f, insert_used-twice index r.used l m) refl,
    rw (sequential, f) refl,
  )

  -- With debug assertions, after values of an index that fits a `usize` were drawn at a gate, and any
  -- further requests that do not panic, drawing values of that index there panics, and so does
  -- taking the generators of the gate.
  pub generate_values-once :
      (gate : c.Gate) (index : ℕ) (e e' e'' : Endpoint c) (v : ℕ × ℕ)
      → index ≤ usize_max
      → generate_values c same_gate true gate index e ≡ some (v, e')
      → History c same_gate true e' e''
      → (generate_values c same_gate true gate index e'' ≡ none)
        × (sequential c same_gate gate e'' ≡ none)
  generate_values-once gate index e e' e'' v l h t =
      Used-refuses gate index e'' l (History-Used gate index t (drawn-Used gate index e e' v l h))
