-- ===== src/Storage/Btree/Node/Insertion.antt =====
-- A key put among sorted keys, where `find_key_in_node` of src/storage/btree.c says.
use native.Mathlib.Decide.{dec_lt, ℕ_discrete}
use amidb.Base.{ℕ, ◌+◌, ◌-◌, ◌≤◌, ◌<◌, ◌≡◌, ◌≢◌, sym, List, arith, length, get_or}
use amidb.Storage.Btree.Node.{bias}
use amidb.Storage.Btree.Node.Arrays.{inserted, inserted_before, inserted_here, inserted_behind}
use amidb.Storage.Btree.Node.Search.{IsSorted, SplitsAt}

module _ (keys : List ℕ) (n key r : ℕ) (sorted : IsSorted keys n) (room : n < length keys) where
  module _ (splits : SplitsAt keys n key r)
      (fresh : (j : ℕ) → j < n → bias (get_or keys j 0) ≢ bias key) where
    -- From the index on, the keys are greater.
    greater : (j : ℕ) → r ≤ j → j < n → bias key < bias (get_or keys j 0)
    greater j le lt =
        let up = splits.above j le lt in
        let ne : bias key ≢ bias (get_or keys j 0) = λ e. fresh j lt (sym e) in omega arith

    before : (j : ℕ) → j < r → get_or (inserted keys n r key) j 0 ≡ get_or keys j 0
    before = inserted_before keys n r key splits.inside room

    here : get_or (inserted keys n r key) r 0 ≡ key
    here = inserted_here keys n r key splits.inside room

    behind : (j : ℕ) → r < j → j ≤ n → get_or (inserted keys n r key) j 0 ≡ get_or keys (j - 1) 0
    behind = inserted_behind keys n r key splits.inside room

    pub inserted-IsSorted : IsSorted (inserted keys n r key) (n + 1)
    inserted-IsSorted i j lt inside = elim (dec_lt j r) [
      | yes j_before ↦
          rw (before i (omega arith), before j j_before)
            (sorted i j lt (omega (arith, splits.inside)))
      | no not_before ↦ elim (ℕ_discrete j r) [
        | yes j_here ↦ rw (before i (omega arith), j_here, here) (splits.below i (omega arith))
        | no j_behind ↦ elim (dec_lt i r) [
          | yes i_before ↦
              rw (before i i_before, behind j (omega arith) (omega arith))
                (sorted i (j - 1) (omega arith) (omega arith))
          | no not_first ↦ elim (ℕ_discrete i r) [
            | yes i_here ↦
                rw (i_here, here, behind j (omega arith) (omega arith))
                  (greater (j - 1) (omega arith) (omega arith))
            | no both ↦
                rw (behind i (omega arith) (omega arith), behind j (omega arith) (omega arith))
                  (sorted (i - 1) (j - 1) (omega arith) (omega arith))
          ]
        ]
      ]
    ]
