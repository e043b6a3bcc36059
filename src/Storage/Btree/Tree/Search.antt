-- ===== src/Storage/Btree/Tree/Search.antt =====
-- The way down to a leaf, and `btree_search` of src/storage/btree.c.
use amidb.Base.{ℕ, zero, suc, Bool, Option, none, some, if◌then◌else◌, ◌==◌}
use amidb.Base.Effect.{Op, ◌>>=◌, return, fail, gets}
use amidb.Os.File.{Dos}
use amidb.Storage.Btree.Node.{node_leaf, leaf_lookup, child_index, child_at}
use amidb.Storage.Btree.Tree.Ops.{Tree, read_node}

module _ {dos : Dos} {granted : Bool} where
  -- The loop of `find_leaf_page`, at most one round for each level of the tree.
  unfoldable pub find_leaf : ℕ → ℕ → ℕ → Op (Tree dos granted) ℕ
  find_leaf zero key page = fail
  find_leaf (suc levels) key page = do
    node ← read_node page
    let child = child_at node (child_index node key)
    let rest = find_leaf levels key child
    if node.node_type == node_leaf then return page else if child == 0 then fail else rest

  unfoldable pub find_leaf_page : ℕ → ℕ → Op (Tree dos granted) ℕ
  unfolding find_leaf
  find_leaf_page levels key = do root_page ← gets (λ t. t.root_page); find_leaf levels key root_page

  abbrev pub found_value : Option ℕ → Op (Tree dos granted) ℕ
  found_value none = fail
  found_value (some value) = return value

  unfoldable pub btree_search : ℕ → ℕ → Op (Tree dos granted) ℕ
  unfolding find_leaf_page read_node
  btree_search levels key = do
    leaf_page ← find_leaf_page levels key
    node ← read_node leaf_page
    found_value (leaf_lookup node key)
