-- ===== src/Storage/Btree/Tree/Cursor.antt =====
-- The cursors and the statistics of src/storage/btree.c.
use amidb.Base.{
  ℕ, zero, suc, ◌+◌, ◌/◌, ◌%◌, ◌^◌, Bool, true, false, Option, none, some, if◌then◌else◌, ltb, ◌==◌,
  get_or,
}
use amidb.Base.Effect.{Op, ◌>>=◌, return, fail, gets, optionally}
use amidb.Os.File.{Dos}
use amidb.Storage.Btree.Node.{Node, node_leaf, key_at, child_at}
use amidb.Storage.Btree.Tree.Ops.{Tree, read_node}

-- `path` and `path_depth` are never set but to zero, and the cache is the tree's.
pub record Cursor : Type 0 where
  pub current_page : ℕ
  pub current_index : ℕ
  pub key : ℕ
  pub value : ℕ
  pub valid : Bool

abbrev pub empty_cursor : Cursor
empty_cursor = record { current_page = 0; current_index = 0; key = 0; value = 0; valid = false }

-- The cursor on an entry of a node.
abbrev pub on_entry : ℕ → ℕ → Node → Cursor
on_entry page i node = record {
  current_page = page;
  current_index = i;
  key = key_at node i;
  value = get_or node.values i 0;
  valid = true;
}

-- The cursor at the first entry of the leftmost leaf.
unfoldable pub at_leaf : ℕ → Node → Cursor
at_leaf page node =
    if ltb 0 node.num_keys
    then on_entry page 0 node
    else record empty_cursor { current_page = page }

unfoldable pub btree_cursor_valid : Cursor → Bool
btree_cursor_valid cursor = cursor.valid

unfoldable pub btree_cursor_get : Cursor → Option (ℕ × ℕ)
btree_cursor_get cursor = if cursor.valid then some (cursor.key, cursor.value) else none

abbrev pub invalidated : Cursor → Cursor
invalidated cursor = record cursor { valid = false }

-- The first entry of the next leaf; the cursor is on its page already.
unfoldable pub enter_leaf : Cursor → Option Node → Cursor × Bool
enter_leaf cursor none = (invalidated cursor, false)
enter_leaf cursor (some node) =
    if ltb 0 node.num_keys
    then (on_entry cursor.current_page 0 node, true)
    else (invalidated cursor, false)

module _ {dos : Dos} {granted : Bool} where
  unfoldable pub first_from : ℕ → ℕ → Op (Tree dos granted) Cursor
  unfolding at_leaf
  first_from zero page = fail
  first_from (suc levels) page = do
    node ← read_node page
    let child = child_at node 0
    let rest = first_from levels child
    if node.node_type == node_leaf
        then return (at_leaf page node)
        else if child == 0
        then fail
        else rest

  unfoldable pub btree_cursor_first : ℕ → Op (Tree dos granted) Cursor
  unfolding first_from
  btree_cursor_first levels = do root_page ← gets (λ t. t.root_page); first_from levels root_page

  unfoldable pub move_within : Cursor → Option Node → Op (Tree dos granted) (Cursor × Bool)
  unfolding enter_leaf
  move_within cursor none = return (cursor, false)
  move_within cursor (some node) =
      let index = (cursor.current_index + 1) % 2 ^ 32 in
      let entered = record cursor { current_page = node.next_leaf; current_index = 0 } in
      let next_leaf = (do
        next ← optionally (read_node node.next_leaf)
        return (enter_leaf entered next)) in
      if ltb index node.num_keys
      then return (on_entry cursor.current_page index node, true)
      else if node.next_leaf == 0
      then return (record cursor { current_index = index; valid = false }, false)
      else next_leaf

  -- The cursor, and whether the call returns 0.
  unfoldable pub btree_cursor_next : Cursor → Op (Tree dos granted) (Cursor × Bool)
  unfolding move_within
  btree_cursor_next cursor =
      let moved = (do node ← optionally (read_node cursor.current_page); move_within cursor node) in
      if cursor.valid then moved else return (cursor, false)

  -- The levels down to the leftmost leaf, and the page where the way ends.
  unfoldable pub count_levels : ℕ → ℕ → ℕ → Op (Tree dos granted) (ℕ × ℕ)
  count_levels zero height page = fail
  count_levels (suc levels) height page = do
    read ← optionally (read_node page)
    elim read [
      | none ↦ return (height, page)
      | some node ↦
          let child = child_at node 0 in
          let rest = count_levels levels (height + 1) child in
          if node.node_type == node_leaf
          then return (height + 1, page)
          else if child == 0
          then return (height + 1, 0)
          else rest
    ]

  -- A leaf that cannot be read ends the chain.
  abbrev go_on : ℕ → Option Node → (Node → Op (Tree dos granted) ℕ) → Op (Tree dos granted) ℕ
  go_on count none next = return count
  go_on count (some node) next = next node

  unfoldable pub count_leaves : ℕ → ℕ → ℕ → Op (Tree dos granted) ℕ
  count_leaves zero count page = fail
  count_leaves (suc leaves) count page = do
    let next = λ (node : Node). count_leaves leaves (count + 1) node.next_leaf
    let counted = do read ← optionally (read_node page); go_on (count + 1) read next
    if page == 0 then return count else counted

  -- The entries, the height and the nodes; all three are asked for.
  unfoldable pub btree_get_stats : ℕ → ℕ → Op (Tree dos granted) (ℕ × ℕ × ℕ)
  unfolding count_levels count_leaves
  btree_get_stats levels leaves = do
    root_page ← gets (λ t. t.root_page)
    num_entries ← gets (λ t. t.num_entries)
    (height, end) ← count_levels levels 0 root_page
    (again, leftmost) ← count_levels levels 0 root_page
    leaf_count ← count_leaves leaves 0 leftmost
    return (num_entries, height, (if height == 1 then leaf_count else leaf_count + leaf_count / 32))
