-- ===== src/Storage/Btree/Node/Codec.antt =====
-- `serialize_node` and `deserialize_node` of src/storage/btree.c.
use mathlib.Core.List.{append_assoc}
use amidb.Base.{
  ℕ, ◌+◌, ◌*◌, ◌%◌, ◌^◌, ◌≤◌, ◌<◌, ◌≡◌, refl, sym, ap, ◌∙◌, List, [], ◌∷◌, ◌++◌, arith,
  if◌then◌else◌, ◌==◌, length, take, drop, replicate, get_or, splice, slice-splice_before,
  length-splice, length-append, length-replicate, length-take, All, drop-append, drop-drop,
  get_or-drop, take-append, Bool-cases, inl, inr,
}
use amidb.Util.Endian.{put_u32, get_u32, get_u32-put_u32}
use amidb.Storage.Btree.Node.{
  Node, node_internal, put_all, node_bytes, serialize_node, get_all, deserialize_node,
}
use amidb.Txn.Wal.Records.{drop-splice}

-- A number of 32 bits.
abbrev pub IsWord : ℕ → Type 0
IsWord v = v < 2 ^ 32

-- The fields have the widths of the C struct.
pub record IsStorable (node : Node) : Type 0 where
  pub type_fits : node.node_type < 256
  pub num_keys_fits : IsWord node.num_keys
  pub parent_fits : IsWord node.parent
  pub next_leaf_fits : IsWord node.next_leaf
  pub keys_sized : length node.keys ≡ 64
  pub children_sized : length node.children ≡ 65
  pub values_sized : length node.values ≡ 64
  pub keys_fit : All IsWord node.keys
  pub children_fit : All IsWord node.children
  pub values_fit : All IsWord node.values

-- What a page keeps of a node: the children of an internal node, and the values of a leaf.
abbrev pub as_stored : Node → Node
as_stored node = record node {
  children = if node.node_type == node_internal then node.children else replicate 65 0;
  values = if node.node_type == node_internal then replicate 64 0 else node.values;
}

length-put_all : (xs : List ℕ) → length (put_all xs) ≡ 4 * length xs
unfolding put_all put_u32
length-put_all [] = refl
length-put_all (x ∷ xs) = omega (arith, length-put_all xs)

get_all-put_all : (xs rest : List ℕ) → All IsWord xs → get_all (length xs) (put_all xs ++ rest) ≡ xs
unfolding get_all put_all put_u32
get_all-put_all [] rest fit = refl
get_all-put_all (x ∷ xs) rest (h, fit) =
    ap (λ b. b ∷ get_all (length xs) (put_all xs ++ rest))
      (get_u32-put_u32 x (put_all xs ++ rest) h)
    ∙ ap (◌∷◌ x) (get_all-put_all xs rest fit)

drop-put_all : (xs rest : List ℕ) → drop (4 * length xs) (put_all xs ++ rest) ≡ rest
drop-put_all xs rest = rw (← length-put_all xs) (drop-append (put_all xs) rest)

-- The array that a page has behind the keys.
abbrev last_array : Node → List ℕ
last_array node = if node.node_type == node_internal then node.children else node.values

-- A page with the bytes of a node behind its header.
module _ (node : Node) (page rest : List ℕ) (storable : IsStorable node)
    (bytes : drop 12 page ≡ node_bytes node ++ rest) where
  type_read : get_or page 12 0 ≡ node.node_type
  unfolding node_bytes
  type_read =
      get_or-drop 12 page 0 (node.node_type % 256) _ bytes ∙ omega (arith, storable.type_fits)

  num_keys_read : get_u32 (drop 16 page) ≡ node.num_keys
  unfolding node_bytes put_u32
  num_keys_read =
      ap get_u32 (drop-drop 12 4 page ∙ ap (drop 4) bytes)
      ∙ get_u32-put_u32 node.num_keys _ storable.num_keys_fits

  parent_read : get_u32 (drop 20 page) ≡ node.parent
  unfolding node_bytes put_u32
  parent_read =
      ap get_u32 (drop-drop 12 8 page ∙ ap (drop 8) bytes)
      ∙ get_u32-put_u32 node.parent _ storable.parent_fits

  next_leaf_read : get_u32 (drop 24 page) ≡ node.next_leaf
  unfolding node_bytes put_u32
  next_leaf_read =
      ap get_u32 (drop-drop 12 12 page ∙ ap (drop 12) bytes)
      ∙ get_u32-put_u32 node.next_leaf _ storable.next_leaf_fits

  keys_behind : drop 28 page ≡ put_all node.keys ++ (put_all (last_array node) ++ rest)
  unfolding node_bytes put_u32
  keys_behind =
      drop-drop 12 16 page
      ∙ ap (drop 16) bytes
      ∙ append_assoc (put_all node.keys) (put_all (last_array node)) rest

  keys_read : get_all 64 (drop 28 page) ≡ node.keys
  keys_read =
      rw (keys_behind, ← storable.keys_sized) (get_all-put_all node.keys _ storable.keys_fit)

  last_behind : drop 284 page ≡ put_all (last_array node) ++ rest
  last_behind =
      let four : 4 * length node.keys ≡ 256 = omega (arith, storable.keys_sized) in
      drop-drop 28 256 page
      ∙ ap (drop 256) keys_behind
      ∙ rw (← four) (drop-put_all node.keys (put_all (last_array node) ++ rest))

  deserialize_node-bytes : deserialize_node page ≡ as_stored node
  unfolding deserialize_node
  deserialize_node-bytes = elim (Bool-cases (node.node_type == node_internal)) [
    | inl internal ↦
        let behind : drop 284 page ≡ put_all node.children ++ rest =
          last_behind
          ∙ ap (λ b. put_all (if b then node.children else node.values) ++ rest) internal in
        let children : get_all 65 (drop 284 page) ≡ node.children =
          rw (behind, ← storable.children_sized)
            (get_all-put_all node.children rest storable.children_fit) in
        rw (type_read, num_keys_read, parent_read, next_leaf_read, keys_read, internal, children)
          refl
    | inr leaf ↦
        let behind : drop 284 page ≡ put_all node.values ++ rest =
          last_behind ∙ ap (λ b. put_all (if b then node.children else node.values) ++ rest) leaf in
        let values : get_all 64 (drop 284 page) ≡ node.values =
          rw (behind, ← storable.values_sized)
            (get_all-put_all node.values rest storable.values_fit) in
        rw (type_read, num_keys_read, parent_read, next_leaf_read, keys_read, leaf, values) refl
  ]

length-node_bytes :
    (node : Node)
    → length (node_bytes node) ≡ 16 + 4 * length node.keys + 4 * length (last_array node)
unfolding node_bytes put_u32
length-node_bytes node = omega (
  arith,
  length-append (put_all node.keys) (put_all (last_array node)),
  length-put_all node.keys,
  length-put_all (last_array node),
)

last_array-le : (node : Node) → IsStorable node → length (last_array node) ≤ 65
last_array-le node storable = elim (Bool-cases (node.node_type == node_internal)) [
  | inl internal ↦ rw internal (omega (arith, storable.children_sized))
  | inr leaf ↦ rw leaf (omega (arith, storable.values_sized))
]

-- A node written into a page of 4096 bytes is read back: all fields and keys, and of the other two
-- arrays the one that its type uses, while the other one is read as zeros. The page keeps its size
-- and its header of 12 bytes.
pub deserialize_node-serialize_node :
    (node : Node) (buffer : List ℕ)
    → IsStorable node
    → length buffer ≡ 4096
    → (deserialize_node (serialize_node node buffer) ≡ as_stored node)
      × (take 12 (serialize_node node buffer) ≡ take 12 buffer)
      × (length (serialize_node node buffer) ≡ 4096)
unfolding serialize_node
deserialize_node-serialize_node node buffer storable sized =
    let head_size : length (take 12 buffer) ≡ 12 = omega (arith, length-take 12 buffer) in
    let base = take 12 buffer ++ replicate 4084 0 in
    let base_size : length base ≡ 4096 =
      omega (
        arith,
        length-append (take 12 buffer) (replicate 4084 0),
        length-replicate {A = ℕ} 4084 0,
      ) in
    let fits : 12 + length (node_bytes node) ≤ length base =
      omega (arith, length-node_bytes node, storable.keys_sized, last_array-le node storable) in
    (
      deserialize_node-bytes node (splice base 12 (node_bytes node)) _ storable
          (drop-splice base 12 (node_bytes node) fits),
      slice-splice_before base 12 (node_bytes node) 0 12 (omega arith)
          ∙ ap (λ n. take n base) (sym head_size)
          ∙ take-append (take 12 buffer) (replicate 4084 0),
      length-splice base 12 (node_bytes node) ∙ base_size,
    )
