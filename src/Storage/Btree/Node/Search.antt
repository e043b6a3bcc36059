-- ===== src/Storage/Btree/Node/Search.antt =====
-- `find_key_in_node` of src/storage/btree.c, and the look-up in a leaf.
use native.Mathlib.Decide.{dec_lt}
use amidb.Base.{
  ℕ, zero, suc, ◌+◌, ◌-◌, ◌/◌, ◌≤◌, ◌<◌, ◌≡◌, ◌≢◌, refl, ap, ◌∙◌, false, none, some, List, arith,
  ltb, ltb→lt, lt→ltb, ◌==◌, ==_iff, get_or, Bool-cases, inl, inr,
}
use amidb.Storage.Btree.Node.{
  Node, bias, key_at, search_keys, find_key_in_node, found_at, leaf_lookup,
}

-- The first n keys stand in increasing order, without repetitions.
abbrev pub IsSorted : List ℕ → ℕ → Type 0
IsSorted keys n = (i j : ℕ) → i < j → j < n → bias (get_or keys i 0) < bias (get_or keys j 0)

-- The keys below an index are less than the key, and those from it on are not.
pub record SplitsAt (keys : List ℕ) (n key r : ℕ) : Type 0 where
  pub inside : r ≤ n
  pub below : (j : ℕ) → j < r → bias (get_or keys j 0) < bias key
  pub above : (j : ℕ) → r ≤ j → j < n → bias key ≤ bias (get_or keys j 0)

ltb_ge : (a b : ℕ) → ltb a b ≡ false → b ≤ a
ltb_ge a b h = ground arith

module _ (keys : List ℕ) (n key : ℕ) (sorted : IsSorted keys n) where
  SplitsAt-found : (mid : ℕ) → mid < n → get_or keys mid 0 ≡ key → SplitsAt keys n key mid
  SplitsAt-found mid lt e = record {
    inside = omega arith;
    below = λ j h. rw (← e) (sorted j mid h lt);
    above = λ j le h. elim (dec_lt mid j) [
      | yes more ↦ let up = sorted mid j more h in rw (← e) (omega arith)
      | no equal ↦ let same : mid ≡ j = omega arith in rw (← e, same) (omega arith)
    ];
  }

  below_mid :
      (mid : ℕ)
      → mid < n
      → bias (get_or keys mid 0) < bias key
      → (j : ℕ) → j < mid + 1
      → bias (get_or keys j 0) < bias key
  below_mid mid lt less j h = elim (dec_lt j mid) [
    | yes before ↦ let up = sorted j mid before lt in omega arith
    | no equal ↦ let same : mid ≡ j = omega arith in rw (← same) less
  ]

  above_mid :
      (mid : ℕ)
      → bias key ≤ bias (get_or keys mid 0)
      → (j : ℕ) → mid ≤ j
      → j < n
      → bias key ≤ bias (get_or keys j 0)
  above_mid mid more j le h = elim (dec_lt mid j) [
    | yes behind ↦ let up = sorted mid j behind h in omega arith
    | no equal ↦ let same : mid ≡ j = omega arith in rw (← same) more
  ]

  search_keys-SplitsAt :
      (fuel left past : ℕ)
      → past < left + fuel
      → left ≤ past
      → past ≤ n
      → ((j : ℕ) → j < left → bias (get_or keys j 0) < bias key)
      → ((j : ℕ) → past ≤ j → j < n → bias key ≤ bias (get_or keys j 0))
      → (r : ℕ) × (search_keys fuel keys key left past ≡ some r) × SplitsAt keys n key r
  unfolding search_keys
  search_keys-SplitsAt zero left past enough ordered inside below above = absurd (omega arith)
  search_keys-SplitsAt (suc fuel) left past enough ordered inside below above =
      let mid = left + (past - 1 - left) / 2 in
      let found = get_or keys mid 0 in
      elim (Bool-cases (ltb left past)) [
        | inr done ↦
            let met : left ≡ past = ground arith in
            let here : SplitsAt keys n key left = record {
              inside = omega arith;
              below = below;
              above = λ j le h. above j (omega arith) h;
            } in
            rw done (left, refl, here)
        | inl open_ ↦
            let lt = ltb→lt left past open_ in
            elim (Bool-cases (found == key)) [
              | inl here ↦
                  rw (open_, here)
                    (mid, refl, SplitsAt-found mid (omega arith) ((==_iff found key).0 here))
              | inr other ↦ elim (Bool-cases (ltb (bias found) (bias key))) [
                | inl less ↦
                    let below' = ltb→lt (bias found) (bias key) less in
                    rw (open_, other, less)
                      (search_keys-SplitsAt fuel (mid + 1) past (omega arith) (omega arith) inside
                        (below_mid mid (omega arith) below') above)
                | inr more ↦
                    rw (open_, other, more)
                      (search_keys-SplitsAt fuel left mid (omega arith) (omega arith) (omega arith)
                        below (above_mid mid (ltb_ge (bias found) (bias key) more)))
              ]
            ]
      ]

SplitsAt-le :
    (keys : List ℕ) (n key r s : ℕ) → SplitsAt keys n key r → SplitsAt keys n key s → r ≤ s
SplitsAt-le keys n key r s p q = elim (dec_lt s r) [
  | yes less ↦
      let up = q.above s (omega arith) (omega (arith, p.inside)) in
      let down = p.below s less in absurd (omega arith)
  | no le ↦ omega arith
]

SplitsAt-unique :
    (keys : List ℕ) (n key r s : ℕ) → SplitsAt keys n key r → SplitsAt keys n key s → r ≡ s
SplitsAt-unique keys n key r s p q =
    omega (arith, SplitsAt-le keys n key r s p q, SplitsAt-le keys n key s r q p)

module _ (node : Node) (key : ℕ) (sorted : IsSorted node.keys node.num_keys) where
  -- The loop from the whole node, with fuel for one round more than there are keys.
  search_keys-whole :
      (fuel : ℕ)
      → node.num_keys < fuel
      → (r : ℕ) × (search_keys fuel node.keys key 0 node.num_keys ≡ some r)
        × SplitsAt node.keys node.num_keys key r
  search_keys-whole fuel enough =
      search_keys-SplitsAt node.keys node.num_keys key sorted fuel 0 node.num_keys (omega arith)
        (omega arith) (omega arith) (λ j h. absurd (omega arith)) (λ j le h. absurd (omega arith))

-- In a node with sorted keys the loop of `find_key_in_node` ends: with every fuel of more rounds than
-- there are keys it returns, and returns the same index. That is the only index that splits the
-- keys: the key's own, or where it would be inserted.
pub find_key_in_node-SplitsAt :
    (node : Node) (key : ℕ)
    → IsSorted node.keys node.num_keys
    → SplitsAt node.keys node.num_keys key (find_key_in_node node key)
      × ((r : ℕ) → SplitsAt node.keys node.num_keys key r → find_key_in_node node key ≡ r)
      × ((fuel : ℕ)
          → node.num_keys < fuel
          → search_keys fuel node.keys key 0 node.num_keys ≡ some (find_key_in_node node key))
unfolding find_key_in_node
find_key_in_node-SplitsAt node key sorted =
    let (s, given, splits) = search_keys-whole node key sorted (suc node.num_keys) (omega arith) in
    let unique = SplitsAt-unique node.keys node.num_keys key in
    rw given (
      splits,
      λ r other. unique s r splits other,
      λ fuel enough.
          let (r, e, other) = search_keys-whole node key sorted fuel enough in
          e ∙ ap some (unique r s other splits),
    )

-- What a look-up gives: the value of the one index with the key, or nothing if there is none.
pub data Looked (node : Node) (key : ℕ) : Type 0 where
  at :
      (i : ℕ)
      → i < node.num_keys
      → key_at node i ≡ key
      → leaf_lookup node key ≡ some (get_or node.values i 0)
      → Looked node key
  absent :
      ((j : ℕ) → j < node.num_keys → key_at node j ≢ key)
      → leaf_lookup node key ≡ none
      → Looked node key

module _ (node : Node) (key : ℕ) (sorted : IsSorted node.keys node.num_keys) where
  pub find_key_in_node_at :
      (i : ℕ) → i < node.num_keys → key_at node i ≡ key → find_key_in_node node key ≡ i
  find_key_in_node_at i lt e =
      (find_key_in_node-SplitsAt node key sorted).1 i
        (SplitsAt-found node.keys node.num_keys key sorted i lt e)

  pub leaf_lookup_at :
      (i : ℕ)
      → i < node.num_keys
      → key_at node i ≡ key
      → leaf_lookup node key ≡ some (get_or node.values i 0)
  unfolding leaf_lookup
  leaf_lookup_at i lt e =
      let here = find_key_in_node_at i lt e in
      let inside = lt→ltb i node.num_keys lt in
      let same = (==_iff (key_at node i) key).1 e in rw (here, inside, same) refl

  pub leaf_lookup_absent :
      ((j : ℕ) → j < node.num_keys → key_at node j ≢ key) → leaf_lookup node key ≡ none
  unfolding leaf_lookup
  leaf_lookup_absent none_there =
      let r = find_key_in_node node key in
      let missed : found_at node r key ≡ false = ground (arith, none_there r) in rw missed refl

  -- Which of the two it is, is decided by the search.
  pub leaf_lookup-Looked : Looked node key
  leaf_lookup-Looked =
      let r = find_key_in_node node key in
      elim (Bool-cases (found_at node r key)) [
        | inl found ↦
            let lt : r < node.num_keys = ground arith in
            let e : key_at node r ≡ key = ground arith in at r lt e (leaf_lookup_at r lt e)
        | inr missed ↦
            let none_there : (j : ℕ) → j < node.num_keys → key_at node j ≢ key =
              λ j lt e. ground (arith, find_key_in_node_at j lt e) in
            absent none_there (leaf_lookup_absent none_there)
      ]
