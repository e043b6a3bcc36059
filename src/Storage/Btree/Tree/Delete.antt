-- ===== src/Storage/Btree/Tree/Delete.antt =====
-- The loans, the merges, and `btree_delete` of src/storage/btree.c.
use amidb.Base.{
  ℕ, zero, suc, ◌+◌, ◌-◌, ◌%◌, ◌^◌, Bool, true, false, ◌&&◌, Option, none, some, List, [], ◌∷◌,
  if◌then◌else◌, ltb, leb, ◌==◌, take,
}
use amidb.Base.Effect.{Op, ◌>>=◌, ◌>>◌, return, fail, otherwise, attempt, modifies}
use amidb.Os.File.{Dos}
use amidb.Storage.Btree.Node.{Node, node_internal, node_leaf, key_at, child_at, leaf_delete}
use amidb.Storage.Btree.Moves.{
  borrow_right_leaf, borrow_right_internal, borrow_left_leaf, borrow_left_internal, merge_leaf,
  merge_internal, remove_separator,
}
use amidb.Storage.Btree.Tree.Ops.{Tree, unpin_page, get_node, read_node, put_node, free_page}
use amidb.Storage.Btree.Tree.Search.{find_leaf_page}

-- The loop that looks for a page among the children.
unfoldable pub find_child : ℕ → ℕ → List ℕ → Option ℕ
find_child page i [] = none
find_child page i (child ∷ children) =
    let rest = find_child page (i + 1) children in if child == page then some i else rest

abbrev pub is_leaf : Node → Bool
is_leaf node = node.node_type == node_leaf

-- The loan from the sibling on the right of a node, and from the one on the left.
abbrev borrow_right : Node → ℕ → Node → Node → Node × Node × Node
borrow_right parent i node sibling =
    if is_leaf node
    then borrow_right_leaf node sibling parent i
    else borrow_right_internal node sibling parent i

abbrev borrow_left : Node → ℕ → Node → Node → Node × Node × Node
borrow_left parent i node sibling =
    if is_leaf node
    then borrow_left_leaf node sibling parent i
    else borrow_left_internal node sibling parent i

module _ {dos : Dos} {granted : Bool} where
  -- One of the two halves of `borrow_from_sibling`: whether the sibling had an entry to lend.
  unfoldable pub borrow_from :
      ℕ → ℕ → ℕ → ℕ × Node → (Node → Node → Node × Node × Node) → Op (Tree dos granted) Bool
  unfolding get_node put_node
  borrow_from page_num parent_page sibling_page (p, parent) loan = do
    (s, sibling) ← otherwise (get_node sibling_page) (unpin_page parent_page)
    let move_entry = do
      (n, node) ← otherwise (get_node page_num) (do unpin_page sibling_page; unpin_page parent_page)
      let (node', sibling', parent') = loan node sibling
      put_node n page_num node'
      put_node s sibling_page sibling'
      put_node p parent_page parent'
      return true
    let keep_entry = do unpin_page sibling_page; return false
    if ltb 32 sibling.num_keys then move_entry else keep_entry

  unfoldable pub borrow_from_sibling : ℕ → ℕ → ℕ → Op (Tree dos granted) (Unit {0})
  unfolding borrow_from
  borrow_from_sibling page_num parent_page i = do
    (p, parent) ← get_node parent_page
    from_right ←
        if ltb i parent.num_keys
        then borrow_from page_num parent_page (child_at parent (i + 1)) (p, parent)
            (borrow_right parent i)
        else return false
    from_left ←
        if from_right
        then return true
        else if ltb 0 i
        then borrow_from page_num parent_page (child_at parent (i - 1)) (p, parent)
            (borrow_left parent (i - 1))
        else return false
    if from_left then return tt else (do unpin_page parent_page; fail)

  unfoldable pub merge_with_sibling : ℕ → ℕ → ℕ → ℕ → Op (Tree dos granted) (Unit {0})
  unfolding get_node put_node free_page
  merge_with_sibling left_page right_page parent_page i = do
    (l, left) ← get_node left_page
    (r, right) ← otherwise (get_node right_page) (unpin_page left_page)
    (p, parent) ← otherwise (get_node parent_page) (do unpin_page left_page; unpin_page right_page)
    put_node l left_page (
        if is_leaf left then merge_leaf left right else merge_internal left right (key_at parent i))
    unpin_page right_page
    free_page right_page
    put_node p parent_page (remove_separator parent i)

  -- The branch of `rebalance_after_delete` for a root with no key and one child.
  unfoldable pub shrink_root : ℕ → Node → Op (Tree dos granted) (Unit {0})
  unfolding get_node put_node free_page
  shrink_root page_num node = do
    let root_page = child_at node 0
    modifies (λ t. record t { root_page = root_page })
    unpin_page page_num
    (i, root) ← get_node root_page
    put_node i root_page (record root { parent = 0 })
    free_page page_num

  -- The end of a merge that failed is a success.
  abbrev after_merge : Op (Tree dos granted) (Unit {0}) → Bool → Op (Tree dos granted) (Unit {0})
  after_merge next merged = if merged then next else return tt

  -- A loan, or else a merge; `next` is the rebalancing of the parent.
  unfoldable pub fill_node :
      ℕ → ℕ → Node → Op (Tree dos granted) (Unit {0}) → Option ℕ → Op (Tree dos granted) (Unit {0})
  unfolding borrow_from_sibling merge_with_sibling
  fill_node page_num parent_page parent next none = fail
  fill_node page_num parent_page parent next (some i) = do
    borrowed ← attempt (borrow_from_sibling page_num parent_page i)
    let merge = do
      merged ← attempt (
          if ltb 0 i
          then merge_with_sibling (child_at parent (i - 1)) page_num parent_page (i - 1)
          else merge_with_sibling page_num (child_at parent (i + 1)) parent_page i)
      after_merge next merged
    if borrowed then return tt else merge

  -- The recursion goes up one level in each call.
  unfoldable pub rebalance_after_delete : ℕ → ℕ → Op (Tree dos granted) (Unit {0})
  unfolding fill_node find_child shrink_root
  rebalance_after_delete zero page_num = fail
  rebalance_after_delete (suc levels) page_num = do
    (i, node) ← get_node page_num
    let next = rebalance_after_delete levels node.parent
    let fill = do
      unpin_page page_num
      parent ← read_node node.parent
      fill_node page_num node.parent parent next
          (find_child page_num 0 (take (parent.num_keys + 1) parent.children))
    let root =
        if node.num_keys == 0 && node.node_type == node_internal
        then shrink_root page_num node
        else unpin_page page_num
    if leb 32 node.num_keys then unpin_page page_num else if node.parent == 0 then root else fill

  unfoldable pub remove_found : ℕ → ℕ → ℕ → Option Node → Op (Tree dos granted) (Unit {0})
  unfolding rebalance_after_delete
  remove_found levels i leaf_page none = do unpin_page leaf_page; fail
  remove_found levels i leaf_page (some node) = do
    modifies (λ t. record t { num_entries = (t.num_entries + (2 ^ 32 - 1)) % 2 ^ 32 })
    put_node i leaf_page node
    rebalance_after_delete levels leaf_page

  unfoldable pub btree_delete : ℕ → ℕ → Op (Tree dos granted) (Unit {0})
  unfolding find_leaf_page remove_found
  btree_delete levels key = do
    leaf_page ← find_leaf_page levels key
    (i, node) ← get_node leaf_page
    remove_found levels i leaf_page (leaf_delete node key)
