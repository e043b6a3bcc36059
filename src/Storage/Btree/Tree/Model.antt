-- ===== src/Storage/Btree/Tree/Model.antt =====
-- Search trees, as what the pages of src/storage/btree.c stand for.
use native.Mathlib.Decide.{ℕ_discrete}
use amidb.Base.{
  ℕ, zero, suc, ◌-◌, ◌<◌, ◌≤◌, ◌≡◌, ◌≢◌, Bool, arith, if◌then◌else◌, ltb, ◌==◌, Bool-cases, inl,
  inr, get_or,
}
use amidb.Os.File.{Dos}
use amidb.Storage.Btree.Node.{Node, node_leaf, bias, key_at, child_at, child_index}
use amidb.Storage.Btree.Node.Search.{IsSorted}
use amidb.Storage.Btree.Node.Routes.{RoutesTo, RoutesTo-unique, child_index-RoutesTo}
use amidb.Storage.Btree.Tree.Ops.{Tree}
use amidb.Storage.Btree.Tree.Resident.{Holds}

-- A page with its node, and the trees at the indices of its children.
pub data PageTree : Type 0 where
  leaf : ℕ → Node → PageTree
  inner : ℕ → Node → (ℕ → PageTree) → PageTree

abbrev pub page_of : PageTree → ℕ
page_of (leaf page node) = page
page_of (inner page node kids) = page

-- The tree has at most so many levels.
abbrev pub IsWithin : ℕ → PageTree → Type 0
IsWithin zero tree = ⊥
IsWithin (suc levels) (leaf page node) = Unit {0}
IsWithin (suc levels) (inner page node kids) =
    (i : ℕ) → i ≤ node.num_keys → IsWithin levels (kids i)

-- The bounds of a child: the keys beside it, or the node's own bounds.
abbrev pub low_bound : Node → ℕ → ℕ → ℕ
low_bound node low i = if i == 0 then low else bias (key_at node (i - 1))

abbrev pub high_bound : Node → ℕ → ℕ → ℕ
high_bound node high i = if ltb i node.num_keys then bias (key_at node i) else high

-- Keys are at least `low` and less than `high`.
abbrev pub IsBounded : ℕ → ℕ → Node → Type 0
IsBounded low high node =
    (j : ℕ) → j < node.num_keys → (low ≤ bias (key_at node j)) × (bias (key_at node j) < high)

abbrev pub IsOrdered : ℕ → ℕ → PageTree → Type 0
IsOrdered low high (leaf page node) = IsSorted node.keys node.num_keys × IsBounded low high node
IsOrdered low high (inner page node kids) =
    IsSorted node.keys node.num_keys
    × IsBounded low high node
    × ((i : ℕ)
        → i ≤ node.num_keys
        → IsOrdered (low_bound node low i) (high_bound node high i) (kids i))

-- The key and the value stand at the same index of a leaf, among those that count.
abbrev pub IsEntry : Node → ℕ → ℕ → Type 0
IsEntry node key value =
    (i : ℕ) × (i < node.num_keys) × (key_at node i ≡ key) × (get_or node.values i 0 ≡ value)

-- The entries of a tree are those of its leaves.
abbrev pub Has : PageTree → ℕ → ℕ → Type 0
Has (leaf page node) key value = IsEntry node key value
Has (inner page node kids) key value = (i : ℕ) × (i ≤ node.num_keys) × Has (kids i) key value

module _ {dos : Dos} {granted : Bool} where
  -- The pages of the tree are as the tree says.
  abbrev pub IsStored : Tree dos granted → PageTree → Type 0
  IsStored t (leaf page node) = Holds t page node × (node.node_type ≡ node_leaf)
  IsStored t (inner page node kids) =
      Holds t page node
      × (node.node_type ≢ node_leaf)
      × ((i : ℕ)
          → i ≤ node.num_keys
          → (child_at node i ≡ page_of (kids i)) × (page_of (kids i) ≢ 0) × IsStored t (kids i))

abbrev pub IsInside : ℕ → ℕ → ℕ → Type 0
IsInside low high key = (low ≤ bias key) × (bias key < high)

-- A key between the bounds of a child is routed there, and conversely.
module _ (node : Node) (low high key i : ℕ) (sorted : IsSorted node.keys node.num_keys)
    (bounded : IsBounded low high node) where
  RoutesTo-IsInside :
      i ≤ node.num_keys
      → IsInside (low_bound node low i) (high_bound node high i) key
      → RoutesTo node key i
  RoutesTo-IsInside le (lo, hi) = record {
    inside = le;
    below = λ j lt. elim (ℕ_discrete j (i - 1)) [
      | yes last ↦ rw last (ground arith)
      | no before ↦ let up = sorted j (i - 1) (omega arith) (omega arith) in ground arith
    ];
    above = λ j from lt. elim (ℕ_discrete j i) [
      | yes first ↦ rw first (ground arith)
      | no behind ↦ let up = sorted i j (omega arith) lt in ground arith
    ];
  }

  pub IsInside-RoutesTo :
      IsInside low high key
      → RoutesTo node key i
      → IsInside (low_bound node low i) (high_bound node high i) key
  IsInside-RoutesTo (lo, hi) routes = (
    elim (Bool-cases (i == 0)) [
      | inl first ↦ rw first lo
      | inr later ↦ rw later (routes.below (i - 1) (ground arith))
    ],
    elim (Bool-cases (ltb i node.num_keys)) [
      | inl before ↦ rw before (routes.above i (omega arith) (ground arith))
      | inr last ↦ rw last hi
    ],
  )

  IsInside-wider :
      i ≤ node.num_keys
      → IsInside (low_bound node low i) (high_bound node high i) key
      → IsInside low high key
  IsInside-wider le (lo, hi) = (
    elim (Bool-cases (i == 0)) [
      | inl first ↦ ground arith
      | inr later ↦ let b = (bounded (i - 1) (ground arith)).0 in ground arith
    ],
    elim (Bool-cases (ltb i node.num_keys)) [
      | inl before ↦ let b = (bounded i (ground arith)).1 in ground arith
      | inr last ↦ ground arith
    ],
  )

-- The keys of a tree are inside its bounds.
pub Has-IsInside :
    (tree : PageTree) (low high key value : ℕ)
    → IsOrdered low high tree
    → Has tree key value
    → IsInside low high key
Has-IsInside (leaf page node) low high key value (sorted, bounded) (i, lt, e, found) =
    rw (← e) (bounded i lt)
Has-IsInside (inner page node kids) low high key value (sorted, bounded, ordered) (i, le, has) =
    IsInside-wider node low high key i sorted bounded le (
      Has-IsInside (kids i) (low_bound node low i) (high_bound node high i) key value (ordered i le)
        has)

-- An entry is in the child that its key is routed to.
pub Has-child_index :
    (page : ℕ) (node : Node) (kids : ℕ → PageTree) (low high key value : ℕ)
    → IsOrdered low high (inner page node kids)
    → Has (inner page node kids) key value
    → Has (kids (child_index node key)) key value
Has-child_index page node kids low high key value (sorted, bounded, ordered) (i, le, has) =
    let inside =
      Has-IsInside (kids i) (low_bound node low i) (high_bound node high i) key value (ordered i le)
        has in
    let same =
      RoutesTo-unique node key i (child_index node key)
        (RoutesTo-IsInside node low high key i sorted bounded le inside)
        (child_index-RoutesTo node key sorted) in
    rw (← same) has
