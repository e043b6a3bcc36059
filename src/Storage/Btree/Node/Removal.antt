-- ===== src/Storage/Btree/Node/Removal.antt =====
-- What `btree_delete` of src/storage/btree.c does to a leaf, seen as a map.
use mathlib.Core.Bool.{false≢true}
use native.Mathlib.Decide.{dec_lt}
use amidb.Base.{
  ℕ, ◌+◌, ◌-◌, ◌<◌, ◌≡◌, ◌≢◌, sym, ap, ◌∙◌, Option, none, some, arith, if◌then◌else◌, ltb, ◌==◌,
  ==_iff, get_or, Bool-cases, inl, inr,
}
use amidb.Storage.Btree.Node.{
  Node, bias, key_at, find_key_in_node, found_at, leaf_lookup, remove_entry, leaf_delete,
}
use amidb.Storage.Btree.Node.Arrays.{length-shift_down, removed_before, removed_behind}
use amidb.Storage.Btree.Node.Search.{
  IsSorted, at, absent, leaf_lookup_at, leaf_lookup_absent, leaf_lookup-Looked,
}
use amidb.Storage.Btree.Node.Leaf.{IsValid, missed_fresh, found_inside, found_here}

module _ (node : Node) (valid : IsValid node) where
  keys_distinct :
      (i j : ℕ) → i < node.num_keys → j < node.num_keys → key_at node i ≡ key_at node j → i ≡ j
  keys_distinct i j hi hj e = elim (dec_lt i j) [
    | yes less ↦ let up = valid.sorted i j less hj in let eq = ap bias e in absurd (omega arith)
    | no ge ↦ elim (dec_lt j i) [
      | yes more ↦ let up = valid.sorted j i more hi in let eq = ap bias e in absurd (omega arith)
      | no le ↦ omega arith
    ]
  ]

-- The node without the entry at an index in use.
module _ (node : Node) (valid : IsValid node) (r : ℕ) (lt : r < node.num_keys) where
  abbrev without : Node
  without = remove_entry node r

  -- The old index of the entry at an index of the new node.
  abbrev old_index : ℕ → ℕ
  old_index j = if ltb j r then j else j + 1

  key_at-without : (j : ℕ) → j < node.num_keys - 1 → key_at without j ≡ key_at node (old_index j)
  unfolding remove_entry
  key_at-without j h = elim (Bool-cases (ltb j r)) [
    | inl before ↦ rw before (
        removed_before node.keys node.num_keys r lt (omega (arith, valid.keys_sized, valid.bounded))
          j (ground arith))
    | inr behind ↦ rw behind (
        removed_behind node.keys node.num_keys r lt (omega (arith, valid.keys_sized, valid.bounded))
          j (ground arith) h)
  ]

  value_at-without :
      (j : ℕ)
      → j < node.num_keys - 1
      → get_or without.values j 0 ≡ get_or node.values (old_index j) 0
  unfolding remove_entry
  value_at-without j h = elim (Bool-cases (ltb j r)) [
    | inl before ↦ rw before (
        removed_before node.values node.num_keys r lt
          (omega (arith, valid.values_sized, valid.bounded)) j (ground arith))
    | inr behind ↦ rw behind (
        removed_behind node.values node.num_keys r lt
          (omega (arith, valid.values_sized, valid.bounded)) j (ground arith) h)
  ]

  without-IsSorted : IsSorted without.keys (node.num_keys - 1)
  without-IsSorted i j less inside =
      rw (key_at-without i (omega arith), key_at-without j inside)
        (valid.sorted (old_index i) (old_index j) (ground arith) (ground arith))

  without-IsValid : IsValid without
  unfolding remove_entry
  without-IsValid = record {
    keys_sized = length-shift_down (node.num_keys - 1 - r) r node.keys ∙ valid.keys_sized;
    values_sized = length-shift_down (node.num_keys - 1 - r) r node.values ∙ valid.values_sized;
    bounded = omega (arith, valid.bounded);
    fits = λ j h. rw (key_at-without j h) (valid.fits (old_index j) (ground arith));
    sorted = without-IsSorted;
  }

  -- The entry at an old index, at its new one.
  moved_lookup :
      (i k : ℕ)
      → i < node.num_keys
      → i ≢ r
      → key_at node i ≡ k
      → leaf_lookup without k ≡ some (get_or node.values i 0)
  unfolding remove_entry
  moved_lookup i k inside ne e =
      let j = if ltb i r then i else i - 1 in
      let same : old_index j ≡ i = ground arith in
      let h : j < node.num_keys - 1 = ground arith in
      leaf_lookup_at without k without-IsSorted j h (key_at-without j h ∙ ap (key_at node) same ∙ e)
      ∙ ap some (value_at-without j h ∙ ap (λ m. get_or node.values m 0) same)

  without-lookup :
      (k : ℕ) → leaf_lookup without k ≡ (if k == key_at node r then none else leaf_lookup node k)
  unfolding remove_entry
  without-lookup k = elim (Bool-cases (k == key_at node r)) [
    | inl same ↦
        let e = (==_iff k (key_at node r)).0 same in
        rw same (
          leaf_lookup_absent without k without-IsSorted (λ j h q.
            let back : old_index j ≡ r =
              keys_distinct node valid (old_index j) r (ground arith) lt
                (sym (key_at-without j h) ∙ q ∙ e) in
            ground arith))
    | inr other ↦ rw other (elim (leaf_lookup-Looked node k valid.sorted) [
      | at i inside e found ↦
          moved_lookup i k inside
            (λ q.
              false≢true (sym other ∙ (==_iff k (key_at node r)).1 (sym e ∙ ap (key_at node) q)))
            e
          ∙ sym found
      | absent missing lost ↦
          leaf_lookup_absent without k without-IsSorted
            (λ j h q. missing (old_index j) (ground arith) (sym (key_at-without j h) ∙ q))
          ∙ sym lost
    ])
  ]

-- How `btree_delete` can leave a leaf.
pub data Deleted (node : Node) (key : ℕ) : Option Node → Type 0 where
  deleted :
      (left : Node)
      → leaf_lookup node key ≢ none
      → IsValid left
      → ((k : ℕ) → leaf_lookup left k ≡ (if k == key then none else leaf_lookup node k))
      → left.num_keys + 1 ≡ node.num_keys
      → Deleted node key (some left)
  no_key : leaf_lookup node key ≡ none → Deleted node key none

-- On a valid leaf `btree_delete` either finds the key and makes a valid leaf with one key less, in
-- which the key is gone and every other key has the value it had, or the leaf does not have the key
-- and nothing is deleted.
pub leaf_delete-Deleted :
    (node : Node) (key : ℕ) → IsValid node → Deleted node key (leaf_delete node key)
unfolding leaf_delete remove_entry
leaf_delete-Deleted node key valid =
    let r = find_key_in_node node key in
    elim (Bool-cases (found_at node r key)) [
      | inl found ↦
          let lt = found_inside node r key found in
          let here = found_here node r key found in
          let there : leaf_lookup node key ≡ some (get_or node.values r 0) =
            leaf_lookup_at node key valid.sorted r lt here in
          rw found (
            deleted (remove_entry node r) (λ e. grind arith) (without-IsValid node valid r lt)
              (λ k.
                without-lookup node valid r lt k
                ∙ ap (λ m. if k == m then none else leaf_lookup node k) here)
              (omega arith))
      | inr missed ↦ rw missed (
          no_key
            (leaf_lookup_absent node key valid.sorted (missed_fresh node key valid.sorted missed)))
    ]
