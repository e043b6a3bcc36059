-- ===== src/Storage/Btree/Tree/Tests.antt =====
-- A tree of three cached pages.
use mathlib.Core.Logic.{◌↔◌}
use native.Mathlib.Decide.{ℕ_discrete}
use amidb.Base.{
  ℕ, ◌^◌, ◌<◌, ◌≡◌, refl, true, false, none, some, List, [], ◌∷◌, arith, if◌then◌else◌, ◌==◌,
  length, replicate, length-replicate, All, All-replicate,
}
use amidb.Os.File.Disk.{disk}
use amidb.Storage.PageIo.{pager_io}
use amidb.Storage.Pager.Defs.{init_file_header}
use amidb.Storage.Cache.Defs.{Entry, Cache, clean, blank, find_entry}
use amidb.Storage.Btree.Node.{Node, serialize_node}
use amidb.Storage.Btree.Node.Codec.{IsWord, IsStorable, deserialize_node-serialize_node}
use amidb.Storage.Btree.Node.Search.{IsSorted}
use amidb.Storage.Btree.Tree.Ops.{Tree}
use amidb.Storage.Btree.Tree.Search.{btree_search}
use amidb.Storage.Btree.Tree.Resident.{Holds, SameTree}
use amidb.Storage.Btree.Tree.Model.{PageTree, leaf, inner, IsWithin, IsOrdered, Has, IsStored}
use amidb.Storage.Btree.Tree.Lookup.{btree_search-Has}
use amidb.Txn.Wal.Defs.{wal_create}
use amidb.Txn.Manager.Defs.{txn_create}

-- A node with one key.
abbrev one_key : ℕ → ℕ → ℕ → List ℕ → Node
one_key node_type key value children = record {
  node_type = node_type;
  num_keys = 1;
  parent = 0;
  next_leaf = 0;
  keys = key ∷ replicate 63 0;
  children = children;
  values = value ∷ replicate 63 0;
}

abbrev low_leaf : Node
low_leaf = one_key 2 10 100 (replicate 65 0)

abbrev high_leaf : Node
high_leaf = one_key 2 20 200 (replicate 65 0)

abbrev root : Node
root = one_key 1 20 0 (42 ∷ 43 ∷ replicate 63 0)

abbrev page_bytes : Node → List ℕ
page_bytes node = serialize_node node (replicate 4096 0)

abbrev cached : ℕ → Node → Entry
cached page node = record blank { page_num = page; state = clean; bytes = page_bytes node }

abbrev three_pages : Cache (pager_io disk true)
three_pages = record {
  pager = record {
    file = record { content = []; at = 0 };
    header = init_file_header;
    bitmap = replicate 512 0;
    read_only = false;
  };
  capacity = 3;
  count = 3;
  entries = cached 41 root ∷ cached 42 low_leaf ∷ cached 43 high_leaf ∷ [];
  lru_head = none;
  lru_tail = none;
}

abbrev small_tree : Tree disk true
small_tree = record {
  txn = txn_create disk true wal_create three_pages;
  joined = false;
  root_page = 41;
  num_entries = 2;
}

one_key-IsStorable :
    (node_type key value : ℕ) (children : List ℕ)
    → node_type < 256
    → IsWord key
    → IsWord value
    → length children ≡ 65
    → All IsWord children
    → IsStorable (one_key node_type key value children)
one_key-IsStorable node_type key value children type_fits key_fits value_fits sized fit = record {
  type_fits = type_fits;
  num_keys_fits = omega arith;
  parent_fits = omega arith;
  next_leaf_fits = omega arith;
  keys_sized = omega (arith, length-replicate {A = ℕ} 63 0);
  children_sized = sized;
  values_sized = omega (arith, length-replicate {A = ℕ} 63 0);
  keys_fit = (key_fits, All-replicate IsWord 63 0 (omega arith));
  children_fit = fit;
  values_fit = (value_fits, All-replicate IsWord 63 0 (omega arith));
}

leaf-IsStorable :
    (key value : ℕ) → IsWord key → IsWord value → IsStorable (one_key 2 key value (replicate 65 0))
leaf-IsStorable key value key_fits value_fits =
    one_key-IsStorable 2 key value (replicate 65 0) (omega arith) key_fits value_fits
      (length-replicate {A = ℕ} 65 0) (All-replicate IsWord 65 0 (omega arith))

low_leaf-Holds : Holds small_tree 42 low_leaf
unfolding find_entry txn_create blank
low_leaf-Holds = record {
  entry = 1;
  found = refl;
  read =
      (deserialize_node-serialize_node low_leaf (replicate 4096 0)
        (leaf-IsStorable 10 100 (omega arith) (omega arith)) (length-replicate {A = ℕ} 4096 0)).0;
}

high_leaf-Holds : Holds small_tree 43 high_leaf
unfolding find_entry txn_create blank
high_leaf-Holds = record {
  entry = 2;
  found = refl;
  read =
      (deserialize_node-serialize_node high_leaf (replicate 4096 0)
        (leaf-IsStorable 20 200 (omega arith) (omega arith)) (length-replicate {A = ℕ} 4096 0)).0;
}

root-Holds : Holds small_tree 41 root
unfolding find_entry txn_create blank
root-Holds = record {
  entry = 0;
  found = refl;
  read =
      (deserialize_node-serialize_node root (replicate 4096 0)
        (one_key-IsStorable 1 20 0 (42 ∷ 43 ∷ replicate 63 0) (omega arith) (omega arith)
          (omega arith) (omega (arith, length-replicate {A = ℕ} 63 0))
          (omega arith, (omega arith, All-replicate IsWord 63 0 (omega arith))))
        (length-replicate {A = ℕ} 4096 0)).0;
}

abbrev leaves : ℕ → PageTree
leaves i = if i == 0 then leaf 42 low_leaf else leaf 43 high_leaf

abbrev small : PageTree
small = inner 41 root leaves

small-IsWithin : IsWithin 2 small
small-IsWithin i le = elim (ℕ_discrete i 0) [
  | yes first ↦ rw first tt
  | no later ↦ let second : i ≡ 1 = omega arith in rw second tt
]

one-IsSorted : (keys : List ℕ) → IsSorted keys 1
one-IsSorted keys i j lt inside = absurd (omega arith)

small-IsOrdered : IsOrdered 0 (2 ^ 32) small
small-IsOrdered = (
  one-IsSorted root.keys,
  λ j lt. let first : j ≡ 0 = omega arith in rw first (omega arith, omega arith),
  λ i le. elim (ℕ_discrete i 0) [
    | yes first ↦ rw first (
      one-IsSorted low_leaf.keys,
      λ j lt. let zeroth : j ≡ 0 = omega arith in rw zeroth (omega arith, omega arith),
    )
    | no later ↦
        let second : i ≡ 1 = omega arith in
        rw second (
          one-IsSorted high_leaf.keys,
          λ j lt. let zeroth : j ≡ 0 = omega arith in rw zeroth (omega arith, omega arith),
        )
  ],
)

small-IsStored : IsStored small_tree small
small-IsStored = (
  root-Holds,
  λ e. omega arith,
  λ i le. elim (ℕ_discrete i 0) [
    | yes first ↦ rw first (refl, λ e. omega arith, (low_leaf-Holds, refl))
    | no later ↦
        let second : i ≡ 1 = omega arith in
        rw second (refl, λ e. omega arith, (high_leaf-Holds, refl))
  ],
)

btree_search-Has_example :
    ((value : ℕ) → (btree_search 2 20 small_tree).1 ≡ some value ↔ Has small 20 value)
    × SameTree small_tree (btree_search 2 20 small_tree).0
btree_search-Has_example =
    btree_search-Has small_tree small 2 20 refl small-IsWithin small-IsOrdered small-IsStored
