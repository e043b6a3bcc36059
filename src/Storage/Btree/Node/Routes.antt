-- ===== src/Storage/Btree/Node/Routes.antt =====
-- The choice of a child in `find_leaf_page` of src/storage/btree.c.
use native.Mathlib.Decide.{dec_lt, ℕ_discrete}
use amidb.Base.{ℕ, ◌≤◌, ◌<◌, ◌≡◌, arith, leb, ltb→lt, Bool-cases, inl, inr}
use amidb.Storage.Btree.Node.{Node, bias, key_at, key_less, find_key_in_node, child_index}
use amidb.Storage.Btree.Node.Search.{IsSorted, find_key_in_node-SplitsAt}

-- The keys before a child are at most the key, and those from it on are greater.
pub record RoutesTo (node : Node) (key i : ℕ) : Type 0 where
  pub inside : i ≤ node.num_keys
  pub below : (j : ℕ) → j < i → bias (key_at node j) ≤ bias key
  pub above : (j : ℕ) → i ≤ j → j < node.num_keys → bias key < bias (key_at node j)

RoutesTo-le : (node : Node) (key r s : ℕ) → RoutesTo node key r → RoutesTo node key s → r ≤ s
RoutesTo-le node key r s p q = elim (dec_lt s r) [
  | yes less ↦
      let up = q.above s (omega arith) (omega (arith, p.inside)) in
      let down = p.below s less in absurd (omega arith)
  | no le ↦ omega arith
]

pub RoutesTo-unique :
    (node : Node) (key r s : ℕ) → RoutesTo node key r → RoutesTo node key s → r ≡ s
RoutesTo-unique node key r s p q =
    omega (arith, RoutesTo-le node key r s p q, RoutesTo-le node key s r q p)

-- In a node with sorted keys the child that is followed is the only one whose range has the key.
pub child_index-RoutesTo :
    (node : Node) (key : ℕ)
    → IsSorted node.keys node.num_keys
    → RoutesTo node key (child_index node key)
unfolding child_index
child_index-RoutesTo node key sorted =
    let r = find_key_in_node node key in
    let splits = (find_key_in_node-SplitsAt node key sorted).0 in
    elim (Bool-cases (leb node.num_keys r)) [
      | inl last ↦
          let same : node.num_keys ≡ r = ground (arith, splits.inside) in
          rw last record {
            inside = omega arith;
            below = λ j lt. let less = splits.below j (omega arith) in omega arith;
            above = λ j le lt. absurd (omega arith);
          }
      | inr inner ↦
          let lt : r < node.num_keys = ground arith in
          elim (Bool-cases (key_less key (key_at node r))) [
            | inl less ↦
                let here = ltb→lt (bias key) (bias (key_at node r)) less in
                rw (inner, less)
                  record {
                    inside = omega arith;
                    below = λ j h. let before = splits.below j h in omega arith;
                    above = λ j le h. elim (ℕ_discrete j r) [
                      | yes same ↦ rw same here
                      | no behind ↦ let up = sorted r j (omega arith) h in omega arith
                    ];
                  }
            | inr equal ↦
                let le : bias (key_at node r) ≤ bias key = ground arith in
                rw (inner, equal)
                  record {
                    inside = omega arith;
                    below = λ j h. elim (ℕ_discrete j r) [
                      | yes same ↦ rw same le
                      | no before ↦ let less = splits.below j (omega arith) in omega arith
                    ];
                    above = λ j from h.
                        let up = sorted r j (omega arith) h in
                        let at_least = splits.above r (omega arith) lt in omega arith;
                  }
          ]
    ]
