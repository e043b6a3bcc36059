-- ===== src/Storage/Btree/Moves/Parents.antt =====
-- `insert_into_parent` of src/storage/btree.c, on the nodes: which child a key is routed to.
use native.Mathlib.Decide.{dec_lt, ℕ_discrete}
use amidb.Base.{
  ℕ, ◌+◌, ◌-◌, ◌≤◌, ◌<◌, ◌≡◌, ◌≢◌, inl, inr, refl, ap, ◌∙◌, false, ◌&&◌, not, arith, if◌then◌else◌,
  ltb→lt, ◌==◌, ==_iff, length-set, Bool-cases,
}
use amidb.Storage.Btree.Node.{Node, bias, key_at, child_at, key_less, child_index}
use amidb.Storage.Btree.Node.Arrays.{
  length-shift_up, inserted_before, inserted_here, inserted_behind,
}
use amidb.Storage.Btree.Node.Insertion.{inserted-IsSorted}
use amidb.Storage.Btree.Node.Search.{SplitsAt}
use amidb.Storage.Btree.Node.Routes.{RoutesTo, RoutesTo-unique, child_index-RoutesTo}
use amidb.Storage.Btree.Moves.{insert_child}
use amidb.Storage.Btree.Moves.Children.{child_of, IsBranch}

-- A new key and child, at the index where the key splits the keys.
module _ (node : Node) (internal : IsBranch node) (key right_page r : ℕ)
    (room : node.num_keys < 64) where
  module _ (splits : SplitsAt node.keys node.num_keys key r)
      (fresh : (j : ℕ) → j < node.num_keys → bias (key_at node j) ≢ bias key) where
    abbrev grown : Node
    grown = insert_child node r key right_page

    key_before : (j : ℕ) → j < r → key_at grown j ≡ key_at node j
    unfolding insert_child
    key_before =
        inserted_before node.keys node.num_keys r key splits.inside
          (omega (arith, internal.keys_sized))

    key_here : key_at grown r ≡ key
    unfolding insert_child
    key_here =
        inserted_here node.keys node.num_keys r key splits.inside
          (omega (arith, internal.keys_sized))

    key_behind : (j : ℕ) → r < j → j ≤ node.num_keys → key_at grown j ≡ key_at node (j - 1)
    unfolding insert_child
    key_behind =
        inserted_behind node.keys node.num_keys r key splits.inside
          (omega (arith, internal.keys_sized))

    abbrev sizes : (node.num_keys + 1) - (r + 1) ≡ node.num_keys - r
    sizes = omega arith

    child_before : (i : ℕ) → i ≤ r → child_at grown i ≡ child_at node i
    unfolding insert_child
    child_before i le = rw (← sizes) (
        inserted_before node.children (node.num_keys + 1) (r + 1) right_page
          (omega (arith, splits.inside)) (omega (arith, internal.children_sized)) i (omega arith))

    child_here : child_at grown (r + 1) ≡ right_page
    unfolding insert_child
    child_here = rw (← sizes) (
        inserted_here node.children (node.num_keys + 1) (r + 1) right_page
          (omega (arith, splits.inside)) (omega (arith, internal.children_sized)))

    child_behind :
        (i : ℕ) → r + 1 < i → i ≤ node.num_keys + 1 → child_at grown i ≡ child_at node (i - 1)
    unfolding insert_child
    child_behind i lt le = rw (← sizes) (
        inserted_behind node.children (node.num_keys + 1) (r + 1) right_page
          (omega (arith, splits.inside)) (omega (arith, internal.children_sized)) i lt le)

    grown-IsBranch : IsBranch grown
    unfolding insert_child
    grown-IsBranch = record {
      keys_sized =
          length-set _ r key
          ∙ length-shift_up (node.num_keys - r) node.num_keys node.keys
          ∙ internal.keys_sized;
      children_sized =
          length-set _ (r + 1) right_page
          ∙ length-shift_up (node.num_keys - r) (node.num_keys + 1) node.children
          ∙ internal.children_sized;
      bounded = omega arith;
      sorted =
          inserted-IsSorted node.keys node.num_keys key r internal.sorted
            (omega (arith, internal.keys_sized)) splits fresh;
    }

    -- The routes of the old node in the new one, on either side of the new key.
    less_RoutesTo : (k i : ℕ) → RoutesTo node k i → bias k < bias key → (i ≤ r) × RoutesTo grown k i
    unfolding insert_child
    less_RoutesTo k i routes less =
        let le : i ≤ r = elim (dec_lt r i) [
          | yes over ↦
              let up = routes.below r over in
              let down = splits.above r (omega arith) (omega (arith, routes.inside)) in
              absurd (omega arith)
          | no le ↦ omega arith
        ] in
        (
          le,
          record {
            inside = omega (arith, routes.inside);
            below = λ j lt. rw (key_before j (omega arith)) (routes.below j lt);
            above = λ j from lt. elim (dec_lt j r) [
              | yes early ↦
                  rw (key_before j early) (routes.above j from (omega (arith, splits.inside)))
              | no late ↦ elim (ℕ_discrete j r) [
                | yes here ↦ rw (here, key_here) less
                | no behind ↦
                    rw (key_behind j (omega arith) (omega arith))
                      (routes.above (j - 1) (omega arith) (omega arith))
              ]
            ];
          },
        )

    more_RoutesTo :
        (k i : ℕ) → RoutesTo node k i → bias key ≤ bias k → (r ≤ i) × RoutesTo grown k (i + 1)
    unfolding insert_child
    more_RoutesTo k i routes more =
        let le : r ≤ i = elim (dec_lt i r) [
          | yes under ↦
              let up = routes.above i (omega arith) (omega (arith, splits.inside)) in
              let down = splits.below i under in absurd (omega arith)
          | no le ↦ omega arith
        ] in
        (
          le,
          record {
            inside = omega (arith, routes.inside);
            below = λ j lt. elim (dec_lt j r) [
              | yes early ↦ rw (key_before j early) (routes.below j (omega arith))
              | no late ↦ elim (ℕ_discrete j r) [
                | yes here ↦ rw (here, key_here) more
                | no behind ↦
                    rw (key_behind j (omega arith) (omega (arith, routes.inside)))
                      (routes.below (j - 1) (omega arith))
              ]
            ];
            above = λ j from lt.
                rw (key_behind j (omega arith) (omega arith))
                  (routes.above (j - 1) (omega arith) (omega arith));
          },
        )

    grown-child_of :
        (k i : ℕ)
        → child_index node k ≡ i
        → child_of grown k ≡ (
            if child_index node k == r && not (key_less k key) then right_page else child_of node k)
    grown-child_of k i e =
        let routes : RoutesTo node k i = rw (← e) (child_index-RoutesTo node k internal.sorted) in
        let chosen = child_index-RoutesTo grown k grown-IsBranch.sorted in
        elim (Bool-cases (key_less k key)) [
          | inl less ↦
              let (le, to) = less_RoutesTo k i routes (ltb→lt (bias k) (bias key) less) in
              let test : (i == r && not (key_less k key)) ≡ false = ground arith in
              rw (e, test, RoutesTo-unique grown k (child_index grown k) i chosen to)
                (child_before i le)
          | inr more ↦
              let (le, to) = more_RoutesTo k i routes (ground arith) in
              rw (e, more, RoutesTo-unique grown k (child_index grown k) (i + 1) chosen to)
                (elim (Bool-cases (i == r)) [
                  | inl same ↦ rw (same, (==_iff i r).0 same) child_here
                  | inr other ↦
                      let back : i + 1 - 1 ≡ i = omega arith in
                      rw other (
                        child_behind (i + 1) (ground arith) (omega (arith, routes.inside))
                        ∙ ap (child_at node) back)
                ])
        ]

    -- A key that differs from the keys of a well-formed internal node with room, and a page, are put in
    -- at the index where the key splits the node's keys. The node is well-formed again, its keys in
    -- order, and the keys that went to the child at that index and are not less than the new key
    -- go to the page. Every other key goes where it went.
    pub insert_child-child_of :
        IsBranch grown
        × ((k : ℕ)
            → child_of grown k ≡ (
                if child_index node k == r && not (key_less k key)
                then right_page
                else child_of node k))
    insert_child-child_of = (grown-IsBranch, λ k. grown-child_of k (child_index node k) refl)
