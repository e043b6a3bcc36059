-- ===== src/Storage/Btree/Tree/Insert.antt =====
-- The creation of a tree, the splits, and `btree_insert` of src/storage/btree.c.
use amidb.Base.{
  ℕ, zero, suc, ◌+◌, ◌%◌, ◌^◌, Bool, false, Option, none, some, List, [], ◌∷◌, if◌then◌else◌, leb,
  ◌==◌, set, replicate, take,
}
use amidb.Base.Effect.{Op, ◌>>=◌, ◌>>◌, return, fail, otherwise, attempt, modifies}
use amidb.Os.File.{Dos}
use amidb.Storage.Btree.Node.{
  Node, node_internal, node_leaf, empty_node, serialize_node, key_at, find_key_in_node, leaf_insert,
}
use amidb.Storage.Btree.Moves.{split_leaf, split_internal, insert_child, setup_root}
use amidb.Storage.Btree.Tree.Ops.{
  Tree, unpin_page, get_node, read_node, put_node, allocate_page, free_page, write_page, sync_pages,
}
use amidb.Storage.Btree.Tree.Search.{find_leaf_page}
use amidb.Txn.Manager.Defs.{Txn}

-- The bytes of a page with an empty node; byte 4 is PAGE_TYPE_BTREE.
unfoldable pub empty_page : ℕ → List ℕ
empty_page node_type = set (serialize_node (empty_node node_type) (replicate 4096 0)) 4 2

module _ {dos : Dos} {granted : Bool} where
  abbrev new_tree : Txn dos granted → ℕ → Tree dos granted
  new_tree txn root_page = record {
    txn = txn;
    joined = false;
    root_page = root_page;
    num_entries = 0;
  }

  unfoldable pub create_root : Op (Tree dos granted) ℕ
  create_root = do
    root_page ← allocate_page
    write_page root_page (empty_page node_leaf)
    sync_pages
    modifies (λ t. record t { root_page = root_page })
    return root_page

  -- The tree, and its root page or NULL.
  unfoldable pub btree_create : Txn dos granted → Tree dos granted × Option ℕ
  unfolding create_root
  btree_create txn = if granted then create_root (new_tree txn 0) else (new_tree txn 0, none)

  unfoldable pub btree_open : Txn dos granted → ℕ → Option (Tree dos granted)
  btree_open txn root_page = if granted then some (new_tree txn root_page) else none

  unfoldable pub btree_set_transaction : Bool → Tree dos granted → Tree dos granted
  btree_set_transaction joined t = record t { joined = joined }

  unfoldable pub allocate_node : ℕ → Op (Tree dos granted) ℕ
  unfolding allocate_page free_page write_page
  allocate_node node_type = do
    new_page ← allocate_page
    otherwise (if granted then write_page new_page (empty_page node_type) else fail)
        (free_page new_page)
    return new_page

  unfoldable pub split_leaf_node : ℕ → Op (Tree dos granted) (ℕ × ℕ)
  unfolding allocate_node get_node
  split_leaf_node leaf_page = do
    (i, old_node) ← get_node leaf_page
    new_page ← otherwise (allocate_node node_leaf) (unpin_page leaf_page)
    (j, new_node) ← otherwise (get_node new_page) (do unpin_page leaf_page; free_page new_page)
    let halves = split_leaf old_node new_node new_page
    put_node i leaf_page halves.0
    put_node j new_page halves.1
    return (key_at halves.1 0, new_page)

  unfoldable pub set_parent : ℕ → ℕ → Op (Tree dos granted) (Unit {0})
  unfolding get_node put_node
  set_parent parent page = do
    (i, node) ← get_node page
    put_node i page (record node { parent = parent })

  -- The children of a node, whose parent it becomes; those that cannot be read are passed over.
  unfoldable pub set_parents : ℕ → List ℕ → Op (Tree dos granted) (Unit {0})
  unfolding set_parent
  set_parents parent [] = return tt
  set_parents parent (child ∷ children) = do
    set ← attempt (set_parent parent child)
    set_parents parent children

  unfoldable pub split_internal_node : ℕ → Op (Tree dos granted) (ℕ × ℕ)
  unfolding set_parents allocate_node
  split_internal_node internal_page = do
    (i, old_node) ← get_node internal_page
    new_page ← otherwise (allocate_node node_internal) (unpin_page internal_page)
    (j, new_node) ← otherwise (get_node new_page) (do unpin_page internal_page; free_page new_page)
    let halves = split_internal old_node new_node
    set_parents new_page (take (halves.1.num_keys + 1) halves.1.children)
    put_node i internal_page halves.0
    put_node j new_page halves.1
    return (key_at old_node 32, new_page)

  -- The branch of `insert_into_parent` for a root.
  unfoldable pub grow_root : ℕ → ℕ → ℕ → Op (Tree dos granted) (Unit {0})
  unfolding allocate_node set_parent
  grow_root left_page key right_page = do
    new_root_page ← allocate_node node_internal
    (i, new_root) ← otherwise (get_node new_root_page) (free_page new_root_page)
    put_node i new_root_page (setup_root new_root key left_page right_page)
    set_parent new_root_page left_page
    set_parent new_root_page right_page
    modifies (λ t. record t { root_page = new_root_page })
    sync_pages

  -- The key and the child go into a parent that has room.
  unfoldable pub add_child : ℕ → ℕ → ℕ → ℕ × Node → Op (Tree dos granted) (Unit {0})
  unfolding set_parent
  add_child parent_page key right_page (i, parent) = do
    put_node i parent_page (insert_child parent (find_key_in_node parent key) key right_page)
    set_parent parent_page right_page

  -- The recursion goes up one level in each call.
  unfoldable pub insert_into_parent : ℕ → ℕ → ℕ → ℕ → Op (Tree dos granted) (Unit {0})
  unfolding grow_root split_internal_node add_child
  insert_into_parent zero left_page key right_page = fail
  insert_into_parent (suc levels) left_page key right_page = do
    left_node ← read_node left_page
    let parent_page = left_node.parent
    let into_parent = do
      (i, parent) ← get_node parent_page
      let after_split = do
        unpin_page parent_page
        (split_key, new_page) ← split_internal_node parent_page
        insert_into_parent levels parent_page split_key new_page
        moved_node ← read_node left_page
        found ← get_node moved_node.parent
        add_child moved_node.parent key right_page found
      if leb 64 parent.num_keys
          then after_split
          else add_child parent_page key right_page (i, parent)
    if parent_page == 0 then grow_root left_page key right_page else into_parent

  -- The entry goes into a leaf that has room.
  unfoldable pub add_entry : ℕ → ℕ → ℕ → ℕ × Node → Op (Tree dos granted) (Unit {0})
  unfolding put_node
  add_entry leaf_page key value (i, node) = do
    let (changed, is_new) = leaf_insert node key value
    modifies (λ t. record t { num_entries = (t.num_entries + (if is_new then 1 else 0)) % 2 ^ 32 })
    put_node i leaf_page changed

  unfoldable pub btree_insert : ℕ → ℕ → ℕ → Op (Tree dos granted) (Unit {0})
  unfolding find_leaf_page split_leaf_node insert_into_parent add_entry
  btree_insert levels key value = do
    leaf_page ← find_leaf_page levels key
    (i, node) ← get_node leaf_page
    let after_split = do
      unpin_page leaf_page
      (split_key, new_page) ← split_leaf_node leaf_page
      insert_into_parent levels leaf_page split_key new_page
      right_leaf ← find_leaf_page levels key
      found ← get_node right_leaf
      add_entry right_leaf key value found
    if leb 64 node.num_keys then after_split else add_entry leaf_page key value (i, node)
