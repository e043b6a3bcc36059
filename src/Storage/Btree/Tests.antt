-- ===== src/Storage/Btree/Tests.antt =====
-- Nodes of the B+ tree at concrete inputs.
use mathlib.Core.Logic.{◌↔◌}
use amidb.Base.{
  ℕ, zero, suc, ◌+◌, ◌^◌, ◌<◌, ◌≡◌, ◌≢◌, refl, ap, true, ◌&&◌, not, none, some, List, [], ◌∷◌,
  arith, if◌then◌else◌, ◌==◌, length, take, replicate, length-replicate, get_or, All-replicate,
}
use amidb.Storage.Btree.Node.{
  search_keys, Node, empty_node, bias, key_at, key_less, find_key_in_node, leaf_lookup, leaf_insert,
  leaf_delete, serialize_node, deserialize_node, child_index,
}
use amidb.Storage.Btree.Node.Codec.{IsWord, IsStorable, as_stored, deserialize_node-serialize_node}
use amidb.Storage.Btree.Node.Search.{IsSorted, SplitsAt, find_key_in_node-SplitsAt}
use amidb.Storage.Btree.Node.Leaf.{IsValid, leaf_insert-lookup}
use amidb.Storage.Btree.Node.Removal.{Deleted, leaf_delete-Deleted}
use amidb.Storage.Btree.Moves.{split_leaf, split_internal, insert_child}
use amidb.Storage.Btree.Moves.Splits.{split_leaf-lookup}
use amidb.Storage.Btree.Moves.Children.{child_of, IsBranch, split_internal-child_of}
use amidb.Storage.Btree.Moves.Parents.{insert_child-child_of}

-- The keys 10 and 20, with the values 1 and 2.
abbrev two_keys : Node
two_keys = record {
  node_type = 2;
  num_keys = 2;
  parent = 0;
  next_leaf = 0;
  keys = 10 ∷ 20 ∷ replicate 62 0;
  children = replicate 65 0;
  values = 1 ∷ 2 ∷ replicate 62 0;
}

two_keys-IsSorted : IsSorted two_keys.keys 2
two_keys-IsSorted i j lt inside =
    let first : i ≡ 0 = omega arith in
    let second : j ≡ 1 = omega arith in rw (first, second) (omega arith)

two_keys_fit : (j : ℕ) → j < 2 → key_at two_keys j < 2 ^ 32
two_keys_fit zero lt = omega arith
two_keys_fit (suc zero) lt = omega arith
two_keys_fit (suc (suc j)) lt = absurd (omega arith)

two_keys-IsValid : IsValid two_keys
two_keys-IsValid = record {
  keys_sized = omega (arith, length-replicate {A = ℕ} 62 0);
  values_sized = omega (arith, length-replicate {A = ℕ} 62 0);
  bounded = omega arith;
  fits = two_keys_fit;
  sorted = two_keys-IsSorted;
}

find_key_in_node-SplitsAt_example :
    SplitsAt two_keys.keys 2 15 (find_key_in_node two_keys 15)
    × ((r : ℕ) → SplitsAt two_keys.keys 2 15 r → find_key_in_node two_keys 15 ≡ r)
    × ((fuel : ℕ)
        → 2 < fuel
        → search_keys fuel two_keys.keys 15 0 2 ≡ some (find_key_in_node two_keys 15))
find_key_in_node-SplitsAt_example = find_key_in_node-SplitsAt two_keys 15 two_keys-IsSorted

leaf_insert-lookup_example :
    IsValid (leaf_insert two_keys 15 3).0
    × ((k : ℕ)
        → leaf_lookup (leaf_insert two_keys 15 3).0 k
          ≡ (if k == 15 then some 3 else leaf_lookup two_keys k))
    × ((leaf_insert two_keys 15 3).1 ≡ true ↔ leaf_lookup two_keys 15 ≡ none)
    × ((leaf_insert two_keys 15 3).0.num_keys
        ≡ 2 + (if (leaf_insert two_keys 15 3).1 then 1 else 0))
leaf_insert-lookup_example =
    leaf_insert-lookup two_keys 15 3 two_keys-IsValid (omega arith) (omega arith)

leaf_delete-Deleted_example : Deleted two_keys 10 (leaf_delete two_keys 10)
leaf_delete-Deleted_example = leaf_delete-Deleted two_keys 10 two_keys-IsValid

two_keys-IsStorable : IsStorable two_keys
two_keys-IsStorable = record {
  type_fits = omega arith;
  num_keys_fits = omega arith;
  parent_fits = omega arith;
  next_leaf_fits = omega arith;
  keys_sized = omega (arith, length-replicate {A = ℕ} 62 0);
  children_sized = length-replicate {A = ℕ} 65 0;
  values_sized = omega (arith, length-replicate {A = ℕ} 62 0);
  keys_fit = (omega arith, (omega arith, All-replicate IsWord 62 0 (omega arith)));
  children_fit = All-replicate IsWord 65 0 (omega arith);
  values_fit = (omega arith, (omega arith, All-replicate IsWord 62 0 (omega arith)));
}

deserialize_node-serialize_node_example :
    (deserialize_node (serialize_node two_keys (replicate 4096 7)) ≡ as_stored two_keys)
    × (take 12 (serialize_node two_keys (replicate 4096 7)) ≡ take 12 (replicate 4096 7))
    × (length (serialize_node two_keys (replicate 4096 7)) ≡ 4096)
deserialize_node-serialize_node_example =
    deserialize_node-serialize_node two_keys (replicate 4096 7) two_keys-IsStorable
      (length-replicate {A = ℕ} 4096 7)

-- The numbers from one on.
abbrev ascending : ℕ → ℕ → List ℕ
ascending zero k = []
ascending (suc n) k = k ∷ ascending n (k + 1)

length-ascending : (n k : ℕ) → length (ascending n k) ≡ n
length-ascending zero k = refl
length-ascending (suc n) k = ap suc (length-ascending n (k + 1))

get_or-ascending : (n k j : ℕ) → j < n → get_or (ascending n k) j 0 ≡ k + j
get_or-ascending zero k j lt = absurd (omega arith)
get_or-ascending (suc n) k zero lt = omega arith
get_or-ascending (suc n) k (suc j) lt = omega (arith, get_or-ascending n (k + 1) j (omega arith))

-- A node with 64 keys.
abbrev full_node : ℕ → Node
full_node node_type = record (empty_node node_type) {
  num_keys = 64;
  keys = ascending 64 0;
  children = ascending 65 100;
  values = ascending 64 200;
}

full-IsSorted : IsSorted (ascending 64 0) 64
full-IsSorted i j lt inside =
    rw (get_or-ascending 64 0 i (omega arith), get_or-ascending 64 0 j inside) (omega arith)

full-IsValid : IsValid (full_node 2)
full-IsValid = record {
  keys_sized = length-ascending 64 0;
  values_sized = length-ascending 64 200;
  bounded = omega arith;
  fits = λ j lt. rw (get_or-ascending 64 0 j lt) (omega arith);
  sorted = full-IsSorted;
}

abbrev halves : Node × Node
halves = split_leaf (full_node 2) (empty_node 2) 9

split_leaf-lookup_example :
    IsValid halves.0
    × IsValid halves.1
    × (halves.0.num_keys ≡ 32)
    × (halves.1.num_keys + 32 ≡ 64)
    × ((k : ℕ)
        → leaf_lookup (full_node 2) k ≡ (
            if key_less k (key_at halves.1 0)
            then leaf_lookup halves.0 k
            else leaf_lookup halves.1 k))
    × (halves.0.next_leaf ≡ 9)
    × (halves.1.next_leaf ≡ (full_node 2).next_leaf)
unfolding empty_node
split_leaf-lookup_example =
    split_leaf-lookup (full_node 2) (empty_node 2) 9 full-IsValid (omega arith)
      (length-replicate {A = ℕ} 64 0) (length-replicate {A = ℕ} 64 0)

full-IsBranch : IsBranch (full_node 1)
full-IsBranch = record {
  keys_sized = length-ascending 64 0;
  children_sized = length-ascending 65 100;
  bounded = omega arith;
  sorted = full-IsSorted;
}

abbrev parts : Node × Node
parts = split_internal (full_node 1) (empty_node 1)

split_internal-child_of_example :
    IsBranch parts.0
    × IsBranch parts.1
    × (parts.0.num_keys ≡ 32)
    × (parts.1.num_keys + 33 ≡ 64)
    × ((k : ℕ)
        → child_of (full_node 1) k ≡ (
            if key_less k (key_at (full_node 1) 32)
            then child_of parts.0 k
            else child_of parts.1 k))
unfolding empty_node
split_internal-child_of_example =
    split_internal-child_of (full_node 1) (empty_node 1) full-IsBranch (omega arith)
      (length-replicate {A = ℕ} 64 0) (length-replicate {A = ℕ} 65 0)

-- The node with two keys and three children.
abbrev three_children : Node
three_children = record two_keys { node_type = 1; children = 5 ∷ 6 ∷ 7 ∷ replicate 62 0 }

three_children-IsBranch : IsBranch three_children
three_children-IsBranch = record {
  keys_sized = omega (arith, length-replicate {A = ℕ} 62 0);
  children_sized = omega (arith, length-replicate {A = ℕ} 62 0);
  bounded = omega arith;
  sorted = two_keys-IsSorted;
}

fresh_key : (j : ℕ) → j < 2 → bias (key_at three_children j) ≢ bias 15
fresh_key zero lt e = omega arith
fresh_key (suc zero) lt e = omega arith
fresh_key (suc (suc j)) lt e = omega arith

insert_child-child_of_example :
    IsBranch (insert_child three_children (find_key_in_node three_children 15) 15 8)
    × ((k : ℕ)
        → child_of (insert_child three_children (find_key_in_node three_children 15) 15 8) k ≡ (
            if child_index three_children k == find_key_in_node three_children 15
              && not (key_less k 15)
            then 8
            else child_of three_children k))
insert_child-child_of_example =
    insert_child-child_of three_children three_children-IsBranch 15 8
      (find_key_in_node three_children 15) (omega arith)
      (find_key_in_node-SplitsAt three_children 15 two_keys-IsSorted).0 fresh_key
