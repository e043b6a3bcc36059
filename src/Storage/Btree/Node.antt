-- ===== src/Storage/Btree/Node.antt =====
-- The nodes of src/storage/btree.c: their bytes in a page, the search in a node, and what the
-- operations on the tree do to the arrays of one node or of two.
-- A key is an int32_t, given by its bit pattern. `keys` and `values` are lists of 64, `children` of
-- 65 numbers.
pub mod Codec
pub mod Search
pub mod Arrays
pub mod Insertion
pub mod Leaf
pub mod Removal
pub mod Routes
use amidb.Base.{
  ℕ, zero, suc, ◌+◌, ◌-◌, ◌*◌, ◌/◌, ◌%◌, ◌^◌, Bool, true, false, not, ◌&&◌, Option, none, some,
  List, [], ◌∷◌, ◌++◌, if◌then◌else◌, ltb, leb, ◌==◌, length, take, drop, set, replicate, get_or,
  splice,
}
use amidb.Util.Endian.{put_u32, get_u32}

abbrev pub btree_order : ℕ
btree_order = 64

abbrev pub btree_min_keys : ℕ
btree_min_keys = 32

abbrev pub node_internal : ℕ
node_internal = 1

abbrev pub node_leaf : ℕ
node_leaf = 2

pub record Node : Type 0 where
  pub node_type : ℕ
  pub num_keys : ℕ
  pub parent : ℕ
  pub next_leaf : ℕ
  pub keys : List ℕ
  pub children : List ℕ
  pub values : List ℕ

-- After `memset(&node, 0, sizeof(node))`, with the type set.
unfoldable pub empty_node : ℕ → Node
empty_node node_type = record {
  node_type = node_type;
  num_keys = 0;
  parent = 0;
  next_leaf = 0;
  keys = replicate 64 0;
  children = replicate 65 0;
  values = replicate 64 0;
}

unfoldable pub put_all : List ℕ → List ℕ
put_all [] = []
put_all (x ∷ xs) = put_u32 x ++ put_all xs

-- The bytes from 12 on, behind the page's header. The reserved bytes are cleared with the page.
unfoldable pub node_bytes : Node → List ℕ
node_bytes node =
    (node.node_type % 256)
    ∷ 0
    ∷ 0
    ∷ 0
    ∷ (put_u32 node.num_keys
        ++ (put_u32 node.parent
            ++ (put_u32 node.next_leaf
                ++ (put_all node.keys
                    ++ put_all
                        (if node.node_type == node_internal then node.children else node.values)))))

-- The page with the node in it; its first 12 bytes stay.
unfoldable pub serialize_node : Node → List ℕ → List ℕ
serialize_node node buffer = splice (take 12 buffer ++ replicate 4084 0) 12 (node_bytes node)

unfoldable pub get_all : ℕ → List ℕ → List ℕ
get_all zero bytes = []
get_all (suc n) bytes = get_u32 bytes ∷ get_all n (drop 4 bytes)

unfoldable pub deserialize_node : List ℕ → Node
deserialize_node buffer =
    let internal = get_or buffer 12 0 == node_internal in
    record {
      node_type = get_or buffer 12 0;
      num_keys = get_u32 (drop 16 buffer);
      parent = get_u32 (drop 20 buffer);
      next_leaf = get_u32 (drop 24 buffer);
      keys = get_all 64 (drop 28 buffer);
      children = if internal then get_all 65 (drop 284 buffer) else replicate 65 0;
      values = if internal then replicate 64 0 else get_all 64 (drop 284 buffer);
    }

-- The order of signed numbers on their bit patterns.
abbrev pub bias : ℕ → ℕ
bias k = (k + 2 ^ 31) % 2 ^ 32

abbrev pub key_at : Node → ℕ → ℕ
key_at node i = get_or node.keys i 0

-- The loop of `find_key_in_node`; `past` is `right + 1`. Without fuel there is no result.
unfoldable pub search_keys : ℕ → List ℕ → ℕ → ℕ → ℕ → Option ℕ
search_keys zero keys key left past = none
search_keys (suc fuel) keys key left past =
    let mid = left + (past - 1 - left) / 2 in
    let found = get_or keys mid 0 in
    let upper = search_keys fuel keys key (mid + 1) past in
    let lower = search_keys fuel keys key left mid in
    if ltb left past
    then (if found == key then some mid else (if ltb (bias found) (bias key) then upper else lower))
    else some left

-- What the loop returns; it always does, so that the 0 is never taken.
abbrev pub returned : Option ℕ → ℕ
returned none = 0
returned (some index) = index

-- The interval shrinks in each round, so it has fewer rounds than keys.
unfoldable pub find_key_in_node : Node → ℕ → ℕ
find_key_in_node node key = returned (search_keys (suc node.num_keys) node.keys key 0 node.num_keys)

-- Whether a search in a leaf found the key.
abbrev pub found_at : Node → ℕ → ℕ → Bool
found_at node index key = ltb index node.num_keys && key_at node index == key

-- The end of `btree_search`.
unfoldable pub leaf_lookup : Node → ℕ → Option ℕ
leaf_lookup node key =
    let index = find_key_in_node node key in
    if found_at node index key then some (get_or node.values index 0) else none

-- `for (i = n; i > index; i--) xs[i] = xs[i - 1]`, by the rounds left.
unfoldable pub shift_up : ℕ → ℕ → List ℕ → List ℕ
shift_up zero i xs = xs
shift_up (suc rounds) i xs = shift_up rounds (i - 1) (set xs i (get_or xs (i - 1) 0))

-- `for (i = index; i < n - 1; i++) xs[i] = xs[i + 1]`, by the rounds left.
unfoldable pub shift_down : ℕ → ℕ → List ℕ → List ℕ
shift_down zero i xs = xs
shift_down (suc rounds) i xs = shift_down rounds (i + 1) (set xs i (get_or xs (i + 1) 0))

-- The new entry of `btree_insert`, at the place that the search gave.
unfoldable pub insert_entry : Node → ℕ → ℕ → ℕ → Node
insert_entry node index key value = record node {
  num_keys = node.num_keys + 1;
  keys = set (shift_up (node.num_keys - index) node.num_keys node.keys) index key;
  values = set (shift_up (node.num_keys - index) node.num_keys node.values) index value;
}

-- The leaf after `btree_insert`, and whether the entry is a new one.
unfoldable pub leaf_insert : Node → ℕ → ℕ → Node × Bool
leaf_insert node key value =
    let index = find_key_in_node node key in
    if found_at node index key
    then (record node { values = set node.values index value }, false)
    else (insert_entry node index key value, true)

unfoldable pub remove_entry : Node → ℕ → Node
remove_entry node index = record node {
  num_keys = node.num_keys - 1;
  keys = shift_down (node.num_keys - 1 - index) index node.keys;
  values = shift_down (node.num_keys - 1 - index) index node.values;
}

-- The leaf after `btree_delete`, if it has the key.
unfoldable pub leaf_delete : Node → ℕ → Option Node
leaf_delete node key =
    let index = find_key_in_node node key in
    if found_at node index key then some (remove_entry node index) else none

-- Whether the bit pattern of a key stands for a lesser number.
abbrev pub key_less : ℕ → ℕ → Bool
key_less a b = ltb (bias a) (bias b)

-- The index of the child that `find_leaf_page` follows.
unfoldable pub child_index : Node → ℕ → ℕ
child_index node key =
    let index = find_key_in_node node key in
    if leb node.num_keys index
    then node.num_keys
    else if key_less key (key_at node index)
    then index
    else index + 1

abbrev pub child_at : Node → ℕ → ℕ
child_at node i = get_or node.children i 0
