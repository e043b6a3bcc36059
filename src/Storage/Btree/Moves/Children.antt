-- ===== src/Storage/Btree/Moves/Children.antt =====
-- `split_internal_node` of src/storage/btree.c, on the nodes: which child a key is routed to.
use native.Mathlib.Decide.{dec_lt, ℕ_discrete}
use amidb.Base.{
  ℕ, ◌+◌, ◌-◌, ◌≤◌, ◌<◌, ◌≡◌, refl, sym, ap, ◌∙◌, true, false, arith, if◌then◌else◌, length,
  length-set, get_or, get_or-set_self, get_or-set_ne,
}
use amidb.Storage.Btree.Node.{Node, key_at, child_at, key_less, child_index}
use amidb.Storage.Btree.Node.Search.{IsSorted}
use amidb.Storage.Btree.Node.Routes.{RoutesTo, RoutesTo-unique, child_index-RoutesTo}
use amidb.Storage.Btree.Moves.{copy_array, split_internal}
use amidb.Storage.Btree.Moves.Splits.{length-copy_array, copy_array_in}

-- The child that `find_leaf_page` goes on to.
abbrev pub child_of : Node → ℕ → ℕ
child_of node key = child_at node (child_index node key)

-- A node with keys in order in an array of 64, and 65 children.
pub record IsBranch (node : Node) : Type 0 where
  pub keys_sized : length node.keys ≡ 64
  pub children_sized : length node.children ≡ 65
  pub bounded : node.num_keys ≤ 64
  pub sorted : IsSorted node.keys node.num_keys

module _ (old_node new_node : Node) (internal : IsBranch old_node)
    (many : 32 < old_node.num_keys) where
  module _ (keys_sized : length new_node.keys ≡ 64)
      (children_sized : length new_node.children ≡ 65) where
    abbrev left : Node
    left = (split_internal old_node new_node).0

    abbrev right : Node
    right = (split_internal old_node new_node).1

    right_key : (j : ℕ) → j < old_node.num_keys - 33 → key_at right j ≡ key_at old_node (33 + j)
    unfolding split_internal
    right_key j lt =
        let same : 0 + j ≡ j = omega arith in
        ap (key_at right) (sym same)
        ∙ copy_array_in (old_node.num_keys - 33) 33 0 old_node.keys new_node.keys j
            (omega (arith, internal.bounded)) lt

    right_child :
        (j : ℕ) → j ≤ old_node.num_keys - 33 → child_at right j ≡ child_at old_node (33 + j)
    unfolding split_internal
    right_child j le =
        let count = old_node.num_keys - 33 in
        let copied = copy_array count 33 0 old_node.children new_node.children in
        let sized = length-copy_array count 33 0 old_node.children new_node.children in
        elim (ℕ_discrete j count) [
          | yes last ↦
              let end : 33 + count ≡ old_node.num_keys = omega arith in
              rw (last, end) (get_or-set_self copied count _ 0 (omega (arith, internal.bounded)))
          | no before ↦
              let same : 0 + j ≡ j = omega arith in
              get_or-set_ne copied count j _ 0 (λ e. before (sym e))
              ∙ ap (λ i. get_or copied i 0) (sym same)
              ∙ copy_array_in count 33 0 old_node.children new_node.children j
                  (omega (arith, internal.bounded)) (omega arith)
        ]

    left-IsBranch : IsBranch left
    unfolding split_internal
    left-IsBranch = record {
      keys_sized = internal.keys_sized;
      children_sized = internal.children_sized;
      bounded = omega arith;
      sorted = λ i j lt inside. internal.sorted i j lt (omega arith);
    }

    right-IsBranch : IsBranch right
    unfolding split_internal
    right-IsBranch = record {
      keys_sized =
          length-copy_array (old_node.num_keys - 33) 33 0 old_node.keys new_node.keys ∙ keys_sized;
      children_sized =
          length-set _ (old_node.num_keys - 33) _
          ∙ length-copy_array (old_node.num_keys - 33) 33 0 old_node.children new_node.children
          ∙ children_sized;
      bounded = omega (arith, internal.bounded);
      sorted = λ i j lt inside.
          rw (right_key i (omega arith), right_key j inside)
            (internal.sorted (33 + i) (33 + j) (omega arith) (omega arith));
    }

    left-RoutesTo : (k i : ℕ) → RoutesTo old_node k i → i ≤ 32 → RoutesTo left k i
    unfolding split_internal
    left-RoutesTo k i routes le = record {
      inside = le;
      below = routes.below;
      above = λ j from lt. routes.above j from (omega arith);
    }

    right-RoutesTo : (k i : ℕ) → RoutesTo old_node k i → 33 ≤ i → RoutesTo right k (i - 33)
    unfolding split_internal
    right-RoutesTo k i routes ge = record {
      inside = omega (arith, routes.inside);
      below = λ j lt.
          rw (right_key j (omega (arith, routes.inside))) (routes.below (33 + j) (omega arith));
      above = λ j from lt. rw (right_key j lt) (routes.above (33 + j) (omega arith) (omega arith));
    }

    split_child_of :
        (k i : ℕ)
        → child_index old_node k ≡ i
        → child_of old_node k
          ≡ (if key_less k (key_at old_node 32) then child_of left k else child_of right k)
    unfolding split_internal
    split_child_of k i e =
        let routes : RoutesTo old_node k i =
          rw (← e) (child_index-RoutesTo old_node k internal.sorted) in
        elim (dec_lt i 33) [
          | yes before ↦
              let to =
                RoutesTo-unique left k (child_index left k) i
                  (child_index-RoutesTo left k left-IsBranch.sorted)
                  (left-RoutesTo k i routes (omega arith)) in
              let less : key_less k (key_at old_node 32) ≡ true =
                ground (arith, routes.above 32 (omega arith) many) in
              rw (e, less, to) refl
          | no behind ↦
              let to =
                RoutesTo-unique right k (child_index right k) (i - 33)
                  (child_index-RoutesTo right k right-IsBranch.sorted)
                  (right-RoutesTo k i routes (omega arith)) in
              let more : key_less k (key_at old_node 32) ≡ false =
                ground (arith, routes.below 32 (omega arith)) in
              let place : 33 + (i - 33) ≡ i = omega arith in
              rw (e, more, to)
                (ap (child_at old_node) (sym place)
                  ∙ sym (right_child (i - 33) (omega (arith, routes.inside))))
        ]

    -- The split of an internal node with more than 32 keys gives two nodes with keys in order. The child
    -- that a key is routed to is the one that the first node gives for keys less than the key at index
    -- 32, which goes to the parent, and the second for the others.
    pub split_internal-child_of :
        IsBranch left
        × IsBranch right
        × (left.num_keys ≡ 32)
        × (right.num_keys + 33 ≡ old_node.num_keys)
        × ((k : ℕ)
            → child_of old_node k
              ≡ (if key_less k (key_at old_node 32) then child_of left k else child_of right k))
    unfolding split_internal
    split_internal-child_of = (
      left-IsBranch,
      right-IsBranch,
      refl,
      omega arith,
      λ k. split_child_of k (child_index old_node k) refl,
    )
