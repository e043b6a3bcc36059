-- ===== src/Storage/Btree/Tree/Lookup.antt =====
-- `find_leaf_page` and `btree_search` of src/storage/btree.c on a tree whose pages are cached.
use mathlib.Core.Logic.{◌↔◌}
use mathlib.Core.Path.{subst}
use amidb.Base.{
  ℕ, zero, suc, ◌^◌, ◌≡◌, refl, sym, ap, ◌∙◌, Bool, false, Option, none, some, arith, ◌==◌, ==_iff,
}
use amidb.Os.File.{Dos}
use amidb.Storage.Btree.Node.{Node, node_leaf, child_index, leaf_lookup}
use amidb.Storage.Btree.Node.Search.{IsSorted, at, absent, leaf_lookup_at, leaf_lookup-Looked}
use amidb.Storage.Btree.Node.Routes.{child_index-RoutesTo}
use amidb.Storage.Btree.Tree.Ops.{Tree, read_node}
use amidb.Storage.Btree.Tree.Search.{find_leaf, find_leaf_page, found_value, btree_search}
use amidb.Storage.Btree.Tree.Resident.{
  Holds, SameTree, SameTree-trans, Holds-SameTree, ReadNode, read_node-ReadNode,
}
use amidb.Storage.Btree.Tree.Model.{
  PageTree, leaf, inner, page_of, IsWithin, low_bound, high_bound, IsOrdered, IsEntry, Has,
  IsStored, IsInside, IsInside-RoutesTo, Has-child_index,
}

-- The look-up in a leaf with sorted keys finds its entries, and nothing else.
IsEntry-leaf_lookup :
    (node : Node) (key value : ℕ)
    → IsSorted node.keys node.num_keys
    → IsEntry node key value
    → leaf_lookup node key ≡ some value
IsEntry-leaf_lookup node key value sorted (i, lt, e, found) =
    leaf_lookup_at node key sorted i lt e ∙ ap some found

leaf_lookup-IsEntry :
    (node : Node) (key value : ℕ)
    → IsSorted node.keys node.num_keys
    → leaf_lookup node key ≡ some value
    → IsEntry node key value
leaf_lookup-IsEntry node key value sorted given = elim (leaf_lookup-Looked node key sorted) [
  | at i lt e found ↦ (i, lt, e, grind arith)
  | absent missing lost ↦ absurd (grind arith)
]

module _ {dos : Dos} {granted : Bool} where
  pub IsStored-SameTree :
      (a b : Tree dos granted) (tree : PageTree) → SameTree a b → IsStored a tree → IsStored b tree
  IsStored-SameTree a b (leaf page node) same (h, type) =
      (Holds-SameTree a b page node same h, type)
  IsStored-SameTree a b (inner page node kids) same (h, type, stored) = (
    Holds-SameTree a b page node same h,
    type,
    λ i le.
        let (child, valid, kid) = stored i le in
        (child, valid, IsStored-SameTree a b (kids i) same kid),
  )

  -- The leaf that a search ends at has the entries of the tree for the key.
  pub record Found (t : Tree dos granted) (tree : PageTree) (key : ℕ)
      (r : Tree dos granted × Option ℕ) : Type 0 where
    pub page : ℕ
    pub node : Node
    pub given : r.1 ≡ some page
    pub same : SameTree t r.0
    pub stored : Holds r.0 page node
    pub leaf_entry : (value : ℕ) → Has tree key value → leaf_lookup node key ≡ some value
    pub tree_entry : (value : ℕ) → leaf_lookup node key ≡ some value → Has tree key value

  ReadNode-eq :
      (t : Tree dos granted) (node : Node) (r : Tree dos granted × Option Node)
      → ReadNode t node r
      → r ≡ (r.0, some node)
  ReadNode-eq t node r read = ap (λ o. (r.0, o)) read.given

  find_leaf-Found :
      (tree : PageTree) (levels low high key : ℕ) (t : Tree dos granted)
      → IsWithin levels tree
      → IsOrdered low high tree
      → IsStored t tree
      → IsInside low high key
      → Found t tree key (find_leaf levels key (page_of tree) t)
  unfolding find_leaf
  find_leaf-Found (leaf page node) zero low high key t within ordered stored inside = absurd within
  find_leaf-Found (inner page node kids) zero low high key t within ordered stored inside =
      absurd within
  find_leaf-Found (leaf page node) (suc levels) low high key t within ordered (held, type) inside =
      let read = read_node-ReadNode t page node held in
      let is_leaf = (==_iff node.node_type node_leaf).1 type in
      rw (ReadNode-eq t node (read_node page t) read, is_leaf)
        record {
          page = page;
          node = node;
          given = refl;
          same = read.same;
          stored = Holds-SameTree t (read_node page t).0 page node read.same held;
          leaf_entry = λ value has. IsEntry-leaf_lookup node key value ordered.0 has;
          tree_entry = λ value e. leaf_lookup-IsEntry node key value ordered.0 e;
        }
  find_leaf-Found (inner page node kids) (suc levels) low high key t within
        (sorted, bounded, ordered) (held, type, stored) inside =
      let read = read_node-ReadNode t page node held in
      let t' = (read_node page t).0 in
      let i = child_index node key in
      let routes = child_index-RoutesTo node key sorted in
      let (child, valid, kid) = stored i routes.inside in
      let rest =
        find_leaf-Found (kids i) levels (low_bound node low i) (high_bound node high i) key t'
          (within i routes.inside) (ordered i routes.inside)
          (IsStored-SameTree t t' (kids i) read.same kid)
          (IsInside-RoutesTo node low high key i sorted bounded inside routes) in
      let not_leaf : (node.node_type == node_leaf) ≡ false = ground arith in
      let not_null : (page_of (kids i) == 0) ≡ false = ground arith in
      rw (ReadNode-eq t node (read_node page t) read, not_leaf, child, not_null)
        record {
          page = rest.page;
          node = rest.node;
          given = rest.given;
          same = SameTree-trans read.same rest.same;
          stored = rest.stored;
          leaf_entry = λ value has.
              rest.leaf_entry value
                (Has-child_index page node kids low high key value (sorted, bounded, ordered) has);
          tree_entry = λ value e. (i, routes.inside, rest.tree_entry value e);
        }

  found_value-same : (o : Option ℕ) (t : Tree dos granted) → found_value o t ≡ (t, o)
  found_value-same none t = refl
  found_value-same (some value) t = refl

  -- On a tree whose pages are all cached, ordered and of at most `levels` levels, `btree_search`
  -- returns exactly the entries of the tree's leaves: a value if and only if the tree has it for the
  -- key. The root and the pages stay the same.
  pub btree_search-Has :
      (t : Tree dos granted) (tree : PageTree) (levels key : ℕ)
      → t.root_page ≡ page_of tree
      → IsWithin levels tree
      → IsOrdered 0 (2 ^ 32) tree
      → IsStored t tree
      → ((value : ℕ) → (btree_search levels key t).1 ≡ some value ↔ Has tree key value)
        × SameTree t (btree_search levels key t).0
  unfolding btree_search find_leaf_page
  btree_search-Has t tree levels key root within ordered stored =
      let found =
        subst (λ page. Found t tree key (find_leaf levels key page t)) (sym root)
          (find_leaf-Found tree levels 0 (2 ^ 32) key t within ordered stored
            (omega arith, omega arith)) in
      let r = find_leaf levels key t.root_page t in
      let e : r ≡ (r.0, some found.page) = ap (λ o. (r.0, o)) found.given in
      let read = read_node-ReadNode r.0 found.page found.node found.stored in
      let r' = read_node found.page r.0 in
      let result = found_value-same (leaf_lookup found.node key) r'.0 in
      rw (e, ReadNode-eq r.0 found.node r' read, result)
        (
          λ value. (found.tree_entry value, found.leaf_entry value),
          SameTree-trans found.same read.same,
        )
