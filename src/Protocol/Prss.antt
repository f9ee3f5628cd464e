-- ===== src/Protocol/Prss.antt =====
-- src/protocol/prss and src/helpers/prss_protocol.rs: randomness that neighbours share.
pub mod Agreement
pub mod History
pub mod Reuse
pub mod Sharing
use Prim.Native.Nat.{bit_xor}
use raw_ipa.Prelude.{
  ℕ, ◌+◌, ◌-◌, ◌%◌, ◌^◌, Bool, true, false, ◌&&◌, List, [], ◌∷◌, Option, some, none, ltb, ◌==◌,
  if◌then◌else◌,
}
use mathlib.Core.Logic.{ite}
use raw_ipa.Algebra.{Field, ◌⊕◌, ◌⊖◌}
use raw_ipa.Helpers.Role.{Three, Role, Direction, at, peer, tabulate}
use raw_ipa.SecretSharing.Replicated.{AdditiveShare, new}
use raw_ipa.Protocol.Exchange.{
  Outcome, panic, done, Exchange, only, receive, exchange, together, ◌>>=◌,
}

-- What the code takes from the crates x25519_dalek, hkdf, sha2 and aes, and the names of steps: keys,
-- the secret that two of them share, the keys derived from it by name, and the block cipher, whose
-- blocks are numbers of 128 bits.
pub record Crypto : Type 1 where
  pub Secret : Type 0
  pub Public : Type 0
  pub Shared : Type 0
  pub Key : Type 0
  pub Gate : Type 0
  pub public_key : Secret → Public
  pub diffie_hellman : Secret → Public → Shared
  pub expand : Shared → Gate → Key
  pub encrypt : Key → ℕ → ℕ

-- `usize::MAX`
abbrev pub usize_max : ℕ
usize_max = 2 ^ 64 - 1

-- `HashSet::insert`, which fails on an element that is there.
abbrev pub contains : ℕ → List ℕ → Bool
contains i [] = false
contains i (x ∷ xs) = if x == i then true else contains i xs

module _ (c : Crypto) where
  -- `Generator::generate`, of the key that the cipher was made with.
  unfoldable pub generate : c.Key → ℕ → ℕ
  generate key index = bit_xor (c.encrypt key index) index

  -- `IndexedSharedRandomness`, with the indices of its `UsedSet`.
  pub record IndexedSharedRandomness : Type 0 where
    pub left : c.Key
    pub right : c.Key
    pub used : List ℕ

  -- `SequentialSharedRandomness`
  pub record SequentialSharedRandomness : Type 0 where
    pub generator : c.Key
    pub counter : ℕ

  -- `EndpointItem`
  pub data EndpointItem : Type 0 where
    indexed_item : IndexedSharedRandomness → EndpointItem
    sequential_item : EndpointItem

  -- `EndpointInner`; a `GeneratorFactory` is the shared secret.
  pub record Endpoint : Type 0 where
    pub left : c.Shared
    pub right : c.Shared
    pub items : List (c.Gate × EndpointItem)

  -- `EndpointSetup`; a `KeyExchange` is its secret.
  pub record EndpointSetup : Type 0 where
    pub left : c.Secret
    pub right : c.Secret

-- `UsedSet::insert`, in a build with debug assertions; `none` is the failed assertion.
unfoldable pub insert_used : Bool → ℕ → List ℕ → Option (List ℕ)
insert_used debug index used =
    if debug
    then (if ltb usize_max index
        then some used
        else (if contains index used then none else some (index ∷ used)))
    else some used

module _ (c : Crypto) (same_gate : Discrete c.Gate) where
  -- The map of items.
  abbrev pub lookup : c.Gate → List (c.Gate × EndpointItem c) → Option (EndpointItem c)
  lookup gate [] = none
  lookup gate ((g, item) ∷ items) = ite (same_gate g gate) (some item) (lookup gate items)

  abbrev pub put :
      c.Gate → EndpointItem c → List (c.Gate × EndpointItem c) → List (c.Gate × EndpointItem c)
  put gate item [] = (gate, item) ∷ []
  put gate item ((g, old) ∷ items) =
      ite (same_gate g gate) ((gate, item) ∷ items) ((g, old) ∷ put gate item items)

  abbrev pub new_indexed : c.Gate → Endpoint c → IndexedSharedRandomness c
  new_indexed gate e = record {
    left = c.expand e.left gate;
    right = c.expand e.right gate;
    used = [];
  }

  -- `EndpointInner::indexed`; `none` is a panic.
  unfoldable pub indexed : c.Gate → Endpoint c → Option (IndexedSharedRandomness c × Endpoint c)
  indexed gate e = elim (lookup gate e.items) [
    | some (indexed_item r) ↦ some (r, e)
    | some sequential_item ↦ none
    | none ↦ some (
      new_indexed gate e,
      record e { items = put gate (indexed_item (new_indexed gate e)) e.items },
    )
  ]

  -- `EndpointInner::sequential`
  unfoldable pub sequential :
      c.Gate
      → Endpoint c
      → Option ((SequentialSharedRandomness c × SequentialSharedRandomness c) × Endpoint c)
  sequential gate e = elim (lookup gate e.items) [
    | some _ ↦ none
    | none ↦ some (
      (
        record { generator = c.expand e.left gate; counter = 0 },
        record { generator = c.expand e.right gate; counter = 0 },
      ),
      record e { items = put gate sequential_item e.items },
    )
  ]

  -- `generate_values` on the randomness of a gate, which the endpoint and its users share.
  unfoldable pub generate_values : Bool → c.Gate → ℕ → Endpoint c → Option ((ℕ × ℕ) × Endpoint c)
  generate_values debug gate index e = elim (indexed gate e) [
    | none ↦ none
    | some (r, e') ↦ elim (insert_used debug index r.used) [
      | none ↦ none
      | some used ↦ some (
        (generate c r.left index, generate c r.right index),
        record e' { items = put gate (indexed_item (record r { used = used })) e'.items },
      )
    ]
  ]

-- `KeyExchange::key_exchange`
unfoldable pub key_exchange :
    (c : Crypto) → Discrete c.Public → Bool → c.Secret → c.Public → Outcome c.Shared
key_exchange c same_key debug sk pk =
    if debug then ite (same_key pk (c.public_key sk)) panic (done shared) else done shared
  where
    shared : c.Shared
    shared = c.diffie_hellman sk pk

module _ (c : Crypto) (same_key : Discrete c.Public) (debug : Bool) where
  -- `EndpointSetup::setup`
  unfoldable pub setup : EndpointSetup c → c.Public → c.Public → Outcome (Endpoint c)
  setup s left_pk right_pk = do
    fl ← key_exchange c same_key debug s.left left_pk
    fr ← key_exchange c same_key debug s.right right_pk
    done (record { left = fl; right = fr; items = [] })

  -- The keys that go to the left and to the right.
  abbrev pub public_keys_to : Role → EndpointSetup c → Role → Option c.Public
  public_keys_to role s to = or_right (only (peer role Direction.left) (c.public_key s.left) to)
    where
      or_right : Option c.Public → Option c.Public
      or_right (some k) = some k
      or_right none = only (peer role Direction.right) (c.public_key s.right) to

  -- `negotiate`, after `Endpoint::prepare`.
  unfoldable pub negotiate : Role → EndpointSetup c → Exchange c.Public (Endpoint c)
  negotiate role s = record {
    sent = public_keys_to role s;
    resume = λ inbox. do
      left_pk ← receive (inbox (peer role Direction.left))
      right_pk ← receive (inbox (peer role Direction.right))
      setup s left_pk right_pk;
  }

  unfoldable pub negotiate_all : Three (EndpointSetup c) → Outcome (Three (Endpoint c))
  unfolding negotiate
  negotiate_all ss = together (exchange (tabulate (λ r. done (negotiate r (at ss r)))))

-- The shares of zero and of random values, from the two values of an index.
unfoldable pub zero_u128 : ℕ × ℕ → ℕ
zero_u128 v = (v.0 + 2 ^ 128 - v.1) % 2 ^ 128

unfoldable pub random_u128 : ℕ × ℕ → ℕ
random_u128 v = (v.0 + v.1) % 2 ^ 128

unfoldable pub zero_xor : ℕ × ℕ → ℕ
zero_xor v = bit_xor v.0 v.1

module _ {ℓ} {A : Type ℓ} ⦃f : Field A⦄ (truncate_from : ℕ → A) where
  -- `generate_fields`
  unfoldable pub generate_fields : ℕ × ℕ → A × A
  generate_fields v = (truncate_from v.0, truncate_from v.1)

  -- `generate_replicated`
  unfoldable pub generate_replicated : ℕ × ℕ → AdditiveShare A
  generate_replicated v = let (l, r) = generate_fields v in new l r

  -- `zero` and `random`
  unfoldable pub zero_field : ℕ × ℕ → A
  zero_field v = let (l, r) = generate_fields v in l ⊖ r

  unfoldable pub random_field : ℕ × ℕ → A
  random_field v = let (l, r) = generate_fields v in l ⊕ r
