-- ===== src/Storage/Btree/Moves.antt =====
-- What the splits, merges and loans of src/storage/btree.c do to the arrays of their nodes.
pub mod Splits
pub mod Children
pub mod Parents
use amidb.Base.{ℕ, zero, suc, ◌+◌, ◌-◌, List, set, get_or}
use amidb.Storage.Btree.Node.{Node, key_at, child_at, shift_up, shift_down}

-- `xs[n++] = from[i++]`, by the rounds left.
unfoldable pub copy_array : ℕ → ℕ → ℕ → List ℕ → List ℕ → List ℕ
copy_array zero i n from xs = xs
copy_array (suc rounds) i n from xs =
    copy_array rounds (i + 1) (n + 1) from (set xs n (get_or from i 0))

-- The old and the new leaf after `split_leaf_node`; 32 entries stay.
unfoldable pub split_leaf : Node → Node → ℕ → Node × Node
split_leaf old_node new_node new_page = (
  record old_node { num_keys = 32; next_leaf = new_page },
  record new_node {
    num_keys = old_node.num_keys - 32;
    keys = copy_array (old_node.num_keys - 32) 32 0 old_node.keys new_node.keys;
    values = copy_array (old_node.num_keys - 32) 32 0 old_node.values new_node.values;
    next_leaf = old_node.next_leaf;
    parent = old_node.parent;
  },
)

-- The old and the new node after `split_internal_node`; the key at 32 goes up.
unfoldable pub split_internal : Node → Node → Node × Node
split_internal old_node new_node =
    let count = old_node.num_keys - 33 in
    (
      record old_node { num_keys = 32 },
      record new_node {
        num_keys = count;
        keys = copy_array count 33 0 old_node.keys new_node.keys;
        children =
            set (copy_array count 33 0 old_node.children new_node.children) count
              (child_at old_node old_node.num_keys);
        parent = old_node.parent;
      },
    )

-- The parent after `insert_into_parent`, at the place that the search gave.
unfoldable pub insert_child : Node → ℕ → ℕ → ℕ → Node
insert_child node index key right_page = record node {
  num_keys = node.num_keys + 1;
  keys = set (shift_up (node.num_keys - index) node.num_keys node.keys) index key;
  children =
      set (shift_up (node.num_keys - index) (node.num_keys + 1) node.children) (index + 1)
        right_page;
}

-- A new root over the two halves of the old one.
unfoldable pub setup_root : Node → ℕ → ℕ → ℕ → Node
setup_root node key left_page right_page = record node {
  num_keys = 1;
  keys = set node.keys 0 key;
  children = set (set node.children 0 left_page) 1 right_page;
  parent = 0;
}

-- The node, its sibling and the parent after a loan; `i` is the node's index in the parent.
unfoldable pub borrow_right_leaf : Node → Node → Node → ℕ → Node × Node × Node
borrow_right_leaf node sibling parent i =
    let keys = shift_down (sibling.num_keys - 1) 0 sibling.keys in
    (
      record node {
        num_keys = node.num_keys + 1;
        keys = set node.keys node.num_keys (key_at sibling 0);
        values = set node.values node.num_keys (get_or sibling.values 0 0);
      },
      record sibling {
        num_keys = sibling.num_keys - 1;
        keys = keys;
        values = shift_down (sibling.num_keys - 1) 0 sibling.values;
      },
      record parent { keys = set parent.keys i (get_or keys 0 0) },
    )

unfoldable pub borrow_right_internal : Node → Node → Node → ℕ → Node × Node × Node
borrow_right_internal node sibling parent i =
    let children = shift_down (sibling.num_keys - 1) 0 sibling.children in
    (
      record node {
        num_keys = node.num_keys + 1;
        keys = set node.keys node.num_keys (key_at parent i);
        children = set node.children (node.num_keys + 1) (child_at sibling 0);
      },
      record sibling {
        num_keys = sibling.num_keys - 1;
        keys = shift_down (sibling.num_keys - 1) 0 sibling.keys;
        children = set children (sibling.num_keys - 1) (get_or children sibling.num_keys 0);
      },
      record parent { keys = set parent.keys i (key_at sibling 0) },
    )

-- In a loan from the left, `i` is the sibling's index in the parent.
unfoldable pub borrow_left_leaf : Node → Node → Node → ℕ → Node × Node × Node
borrow_left_leaf node sibling parent i =
    let key = key_at sibling (sibling.num_keys - 1) in
    (
      record node {
        num_keys = node.num_keys + 1;
        keys = set (shift_up node.num_keys node.num_keys node.keys) 0 key;
        values =
            set (shift_up node.num_keys node.num_keys node.values) 0
              (get_or sibling.values (sibling.num_keys - 1) 0);
      },
      record sibling { num_keys = sibling.num_keys - 1 },
      record parent { keys = set parent.keys i key },
    )

unfoldable pub borrow_left_internal : Node → Node → Node → ℕ → Node × Node × Node
borrow_left_internal node sibling parent i =
    let children = shift_up node.num_keys (node.num_keys + 1) node.children in
    (
      record node {
        num_keys = node.num_keys + 1;
        keys = set (shift_up node.num_keys node.num_keys node.keys) 0 (key_at parent i);
        children = set (set children 1 (get_or children 0 0)) 0 (child_at sibling sibling.num_keys);
      },
      record sibling { num_keys = sibling.num_keys - 1 },
      record parent { keys = set parent.keys i (key_at sibling (sibling.num_keys - 1)) },
    )

-- The left node after `merge_with_sibling`.
unfoldable pub merge_leaf : Node → Node → Node
merge_leaf left right = record left {
  num_keys = left.num_keys + right.num_keys;
  keys = copy_array right.num_keys 0 left.num_keys right.keys left.keys;
  values = copy_array right.num_keys 0 left.num_keys right.values left.values;
  next_leaf = right.next_leaf;
}

unfoldable pub merge_internal : Node → Node → ℕ → Node
merge_internal left right separator = record left {
  num_keys = left.num_keys + 1 + right.num_keys;
  keys =
      copy_array right.num_keys 0 (left.num_keys + 1) right.keys
        (set left.keys left.num_keys separator);
  children =
      copy_array right.num_keys 1 (left.num_keys + 2) right.children
        (set left.children (left.num_keys + 1) (child_at right 0));
}

-- The parent after `merge_with_sibling`; it has a key at the index.
unfoldable pub remove_separator : Node → ℕ → Node
remove_separator parent i = record parent {
  num_keys = parent.num_keys - 1;
  keys = shift_down (parent.num_keys - 1 - i) i parent.keys;
  children = shift_down (parent.num_keys - 1 - i) (i + 1) parent.children;
}
