-- ===== src/Storage/Btree/Node/Leaf.antt =====
-- What `btree_insert` and `btree_delete` of src/storage/btree.c do to a leaf, seen as a map.
use mathlib.Core.Bool.{false≢true}
use mathlib.Core.Logic.{◌↔◌}
use native.Mathlib.Decide.{dec_lt, ℕ_discrete}
use amidb.Base.{
  ℕ, ◌+◌, ◌-◌, ◌^◌, ◌≤◌, ◌<◌, ◌≡◌, ◌≢◌, refl, sym, ap, ◌∙◌, true, false, none, some, arith,
  if◌then◌else◌, ◌==◌, ==_iff, length, set, length-set, get_or, get_or-set_self, get_or-set_ne,
  Bool-cases, inl, inr,
}
use amidb.Storage.Btree.Node.{
  Node, bias, key_at, find_key_in_node, found_at, leaf_lookup, insert_entry, leaf_insert,
}
use amidb.Storage.Btree.Node.Arrays.{
  length-shift_up, inserted_before, inserted_here, inserted_behind,
}
use amidb.Storage.Btree.Node.Insertion.{inserted-IsSorted}
use amidb.Storage.Btree.Node.Search.{
  IsSorted, SplitsAt, find_key_in_node-SplitsAt, at, absent, find_key_in_node_at, leaf_lookup_at,
  leaf_lookup_absent, leaf_lookup-Looked,
}

-- The keys in use are sorted 32-bit patterns, at most 64.
pub record IsValid (node : Node) : Type 0 where
  pub keys_sized : length node.keys ≡ 64
  pub values_sized : length node.values ≡ 64
  pub bounded : node.num_keys ≤ 64
  pub fits : (j : ℕ) → j < node.num_keys → key_at node j < 2 ^ 32
  pub sorted : IsSorted node.keys node.num_keys

pub bias-injective : (a b : ℕ) → a < 2 ^ 32 → b < 2 ^ 32 → bias a ≡ bias b → a ≡ b
bias-injective a b ha hb e = omega arith

-- A new key at the index that the search gives.
module _ (node : Node) (key value : ℕ) (valid : IsValid node) (fit : key < 2 ^ 32)
    (room : node.num_keys < 64) where
  module _ (r : ℕ) (splits : SplitsAt node.keys node.num_keys key r)
      (fresh : (j : ℕ) → j < node.num_keys → key_at node j ≢ key) where
    abbrev with_key : Node
    with_key = insert_entry node r key value

    keys_before : (j : ℕ) → j < r → key_at with_key j ≡ key_at node j
    unfolding insert_entry
    keys_before =
        inserted_before node.keys node.num_keys r key splits.inside
          (omega (arith, valid.keys_sized))

    keys_here : key_at with_key r ≡ key
    unfolding insert_entry
    keys_here =
        inserted_here node.keys node.num_keys r key splits.inside (omega (arith, valid.keys_sized))

    keys_behind : (j : ℕ) → r < j → j ≤ node.num_keys → key_at with_key j ≡ key_at node (j - 1)
    unfolding insert_entry
    keys_behind =
        inserted_behind node.keys node.num_keys r key splits.inside
          (omega (arith, valid.keys_sized))

    with_key-IsSorted : IsSorted with_key.keys (node.num_keys + 1)
    unfolding insert_entry
    with_key-IsSorted =
        inserted-IsSorted node.keys node.num_keys key r valid.sorted
          (omega (arith, valid.keys_sized)) splits
          (λ j lt e. fresh j lt (bias-injective (key_at node j) key (valid.fits j lt) fit e))

    with_key-IsValid : IsValid with_key
    unfolding insert_entry
    with_key-IsValid = record {
      keys_sized =
          length-set _ r key
          ∙ length-shift_up (node.num_keys - r) node.num_keys node.keys
          ∙ valid.keys_sized;
      values_sized =
          length-set _ r value
          ∙ length-shift_up (node.num_keys - r) node.num_keys node.values
          ∙ valid.values_sized;
      bounded = omega arith;
      fits = λ j lt. elim (dec_lt j r) [
        | yes before ↦ rw (keys_before j before) (valid.fits j (omega (arith, splits.inside)))
        | no not_before ↦ elim (ℕ_discrete j r) [
          | yes here ↦ rw (here, keys_here) fit
          | no behind ↦
              rw (keys_behind j (omega arith) (omega arith)) (valid.fits (j - 1) (omega arith))
        ]
      ];
      sorted = with_key-IsSorted;
    }

    -- The entry at an old index, at its new one.
    moved_lookup :
        (i k : ℕ)
        → i < node.num_keys
        → key_at node i ≡ k
        → leaf_lookup with_key k ≡ some (get_or node.values i 0)
    unfolding insert_entry
    moved_lookup i k lt e = elim (dec_lt i r) [
      | yes before ↦
          leaf_lookup_at with_key k with_key-IsSorted i (omega arith) (keys_before i before ∙ e)
          ∙ ap some (
              inserted_before node.values node.num_keys r value splits.inside
                (omega (arith, valid.values_sized)) i before)
      | no behind ↦
          leaf_lookup_at with_key k with_key-IsSorted (i + 1) (omega arith)
            (keys_behind (i + 1) (omega arith) (omega arith) ∙ ap (key_at node) (omega arith) ∙ e)
          ∙ ap some (
              inserted_behind node.values node.num_keys r value splits.inside
                (omega (arith, valid.values_sized)) (i + 1) (omega arith) (omega arith)
              ∙ ap (λ j. get_or node.values j 0) (omega arith))
    ]

    with_key_absent :
        (k : ℕ)
        → k ≢ key
        → ((j : ℕ) → j < node.num_keys → key_at node j ≢ k)
        → (j : ℕ) → j < node.num_keys + 1
        → key_at with_key j ≢ k
    with_key_absent k ne missing j lt e = elim (dec_lt j r) [
      | yes before ↦ missing j (omega (arith, splits.inside)) (sym (keys_before j before) ∙ e)
      | no not_before ↦ elim (ℕ_discrete j r) [
        | yes here ↦ ne (sym e ∙ ap (key_at with_key) here ∙ keys_here)
        | no behind ↦
            missing (j - 1) (omega arith) (sym (keys_behind j (omega arith) (omega arith)) ∙ e)
      ]
    ]

    value_here : get_or with_key.values r 0 ≡ value
    unfolding insert_entry
    value_here =
        inserted_here node.values node.num_keys r value splits.inside
          (omega (arith, valid.values_sized))

    with_key-lookup :
        (k : ℕ) → leaf_lookup with_key k ≡ (if k == key then some value else leaf_lookup node k)
    unfolding insert_entry
    with_key-lookup k = elim (Bool-cases (k == key)) [
      | inl new ↦
          let same = (==_iff k key).0 new in
          rw (new, same)
            (leaf_lookup_at with_key key with_key-IsSorted r (omega (arith, splits.inside))
                keys_here
              ∙ ap some value_here)
      | inr old ↦ rw old (elim (leaf_lookup-Looked node k valid.sorted) [
        | at i lt e found ↦ moved_lookup i k lt e ∙ sym found
        | absent missing lost ↦
            leaf_lookup_absent with_key k with_key-IsSorted
              (with_key_absent k (λ e. false≢true (sym old ∙ (==_iff k key).1 e)) missing)
            ∙ sym lost
      ])
    ]

-- The value at the index of a key that is there.
module _ (node : Node) (key value : ℕ) (valid : IsValid node) where
  module _ (r : ℕ) (lt : r < node.num_keys) (here : key_at node r ≡ key) where
    abbrev with_value : Node
    with_value = record node { values = set node.values r value }

    with_value-lookup :
        (k : ℕ) → leaf_lookup with_value k ≡ (if k == key then some value else leaf_lookup node k)
    with_value-lookup k = elim (Bool-cases (k == key)) [
      | inl same ↦
          rw (same, (==_iff k key).0 same)
            (leaf_lookup_at with_value key valid.sorted r lt here
              ∙ ap some (
                  get_or-set_self node.values r value 0
                    (omega (arith, valid.values_sized, valid.bounded))))
      | inr other ↦ rw other (elim (leaf_lookup-Looked node k valid.sorted) [
        | at i in_use e found ↦
            let ne : r ≢ i = λ q.
              false≢true (sym other ∙ (==_iff k key).1 (sym e ∙ ap (key_at node) (sym q) ∙ here)) in
            leaf_lookup_at with_value k valid.sorted i in_use e
            ∙ ap some (get_or-set_ne node.values r i value 0 ne)
            ∙ sym found
        | absent missing lost ↦ leaf_lookup_absent with_value k valid.sorted missing ∙ sym lost
      ])
    ]

    with_value-IsValid : IsValid with_value
    with_value-IsValid = record {
      keys_sized = valid.keys_sized;
      values_sized = length-set node.values r value ∙ valid.values_sized;
      bounded = valid.bounded;
      fits = valid.fits;
      sorted = valid.sorted;
    }

-- What a search that misses says of the keys.
pub missed_fresh :
    (node : Node) (key : ℕ)
    → IsSorted node.keys node.num_keys
    → found_at node (find_key_in_node node key) key ≡ false
    → (j : ℕ) → j < node.num_keys
    → key_at node j ≢ key
missed_fresh node key sorted missed j lt e =
    ground (arith, find_key_in_node_at node key sorted j lt e)

-- What a search that hits says.
pub found_inside : (node : Node) (r key : ℕ) → found_at node r key ≡ true → r < node.num_keys
found_inside node r key found = ground arith

pub found_here : (node : Node) (r key : ℕ) → found_at node r key ≡ true → key_at node r ≡ key
found_here node r key found = ground arith

-- On a valid leaf with fewer than 64 keys and a key of 32 bits, `btree_insert` makes a valid leaf,
-- seen as a map the old one with the key's value set: the key has the value, and every other key
-- what it had. The leaf has one key more exactly if the key was not there.
pub leaf_insert-lookup :
    (node : Node) (key value : ℕ)
    → IsValid node
    → key < 2 ^ 32
    → node.num_keys < 64
    → IsValid (leaf_insert node key value).0
      × ((k : ℕ)
          → leaf_lookup (leaf_insert node key value).0 k
            ≡ (if k == key then some value else leaf_lookup node k))
      × ((leaf_insert node key value).1 ≡ true ↔ leaf_lookup node key ≡ none)
      × ((leaf_insert node key value).0.num_keys
          ≡ node.num_keys + (if (leaf_insert node key value).1 then 1 else 0))
unfolding leaf_insert insert_entry
leaf_insert-lookup node key value valid fit room =
    let r = find_key_in_node node key in
    elim (Bool-cases (found_at node r key)) [
      | inl found ↦
          let lt = found_inside node r key found in
          let here = found_here node r key found in
          let there : leaf_lookup node key ≡ some (get_or node.values r 0) =
            leaf_lookup_at node key valid.sorted r lt here in
          rw found (
            with_value-IsValid node key value valid r lt here,
            with_value-lookup node key value valid r lt here,
            (λ e. absurd (false≢true e), λ e. grind arith),
            omega arith,
          )
      | inr missed ↦
          let splits = (find_key_in_node-SplitsAt node key valid.sorted).0 in
          let fresh = missed_fresh node key valid.sorted missed in
          rw missed (
            with_key-IsValid node key value valid fit room r splits fresh,
            with_key-lookup node key value valid fit room r splits fresh,
            (λ e. leaf_lookup_absent node key valid.sorted fresh, λ e. refl),
            refl,
          )
    ]
