-- ===== src/Storage/Btree/Moves/Splits.antt =====
-- `split_leaf_node` and `split_internal_node` of src/storage/btree.c, on the nodes.
use native.Mathlib.Decide.{dec_lt, ℕ_discrete}
use amidb.Base.{
  ℕ, zero, suc, ◌+◌, ◌-◌, ◌≤◌, ◌<◌, ◌≡◌, ◌≢◌, inl, inr, refl, sym, ap, ◌∙◌, true, false, Option,
  none, some, List, arith, if◌then◌else◌, length, set, length-set, get_or, get_or-set_self,
  get_or-set_ne, Bool-cases,
}
use amidb.Storage.Btree.Node.{Node, key_at, key_less, leaf_lookup}
use amidb.Storage.Btree.Node.Search.{
  at, absent, leaf_lookup_at, leaf_lookup_absent, leaf_lookup-Looked,
}
use amidb.Storage.Btree.Node.Leaf.{IsValid}
use amidb.Storage.Btree.Moves.{copy_array, split_leaf}

pub length-copy_array :
    (rounds i n : ℕ) (from xs : List ℕ) → length (copy_array rounds i n from xs) ≡ length xs
unfolding copy_array
length-copy_array zero i n from xs = refl
length-copy_array (suc rounds) i n from xs =
    length-copy_array rounds (i + 1) (n + 1) from (set xs n (get_or from i 0)) ∙ length-set xs n _

pub copy_array_before :
    (rounds i n : ℕ) (from xs : List ℕ) (j : ℕ)
    → j < n
    → get_or (copy_array rounds i n from xs) j 0 ≡ get_or xs j 0
unfolding copy_array
copy_array_before zero i n from xs j lt = refl
copy_array_before (suc rounds) i n from xs j lt =
    copy_array_before rounds (i + 1) (n + 1) from (set xs n (get_or from i 0)) j (omega arith)
    ∙ get_or-set_ne xs n j _ 0 (omega arith)

-- The entry at an index of the copy, by its distance from the start.
pub copy_array_in :
    (rounds i n : ℕ) (from xs : List ℕ) (j : ℕ)
    → n + rounds ≤ length xs
    → j < rounds
    → get_or (copy_array rounds i n from xs) (n + j) 0 ≡ get_or from (i + j) 0
unfolding copy_array
copy_array_in zero i n from xs j room lt = absurd (omega arith)
copy_array_in (suc rounds) i n from xs j room lt =
    let ys = set xs n (get_or from i 0) in
    elim (ℕ_discrete j 0) [
      | yes first ↦
          let here : n + j ≡ n = omega arith in
          let there : i + j ≡ i = omega arith in
          rw (here, there)
            (copy_array_before rounds (i + 1) (n + 1) from ys n (omega arith)
              ∙ get_or-set_self xs n _ 0 (omega arith))
      | no later ↦
          let to : n + j ≡ n + 1 + (j - 1) = omega arith in
          let of : i + j ≡ i + 1 + (j - 1) = omega arith in
          rw (to, of)
            (copy_array_in rounds (i + 1) (n + 1) from ys (j - 1)
              (omega (arith, length-set xs n (get_or from i 0))) (omega arith))
    ]

-- The halves of a leaf with more than 32 keys.
module _ (old_node new_node : Node) (new_page : ℕ) (valid : IsValid old_node)
    (many : 32 < old_node.num_keys) where
  module _ (keys_sized : length new_node.keys ≡ 64)
      (values_sized : length new_node.values ≡ 64) where
    abbrev left : Node
    left = (split_leaf old_node new_node new_page).0

    abbrev right : Node
    right = (split_leaf old_node new_node new_page).1

    right_key : (j : ℕ) → j < old_node.num_keys - 32 → key_at right j ≡ key_at old_node (32 + j)
    unfolding split_leaf
    right_key j lt =
        let same : 0 + j ≡ j = omega arith in
        ap (key_at right) (sym same)
        ∙ copy_array_in (old_node.num_keys - 32) 32 0 old_node.keys new_node.keys j
            (omega (arith, valid.bounded)) lt

    right_value :
        (j : ℕ)
        → j < old_node.num_keys - 32
        → get_or right.values j 0 ≡ get_or old_node.values (32 + j) 0
    unfolding split_leaf
    right_value j lt =
        let same : 0 + j ≡ j = omega arith in
        ap (λ i. get_or right.values i 0) (sym same)
        ∙ copy_array_in (old_node.num_keys - 32) 32 0 old_node.values new_node.values j
            (omega (arith, valid.bounded)) lt

    left-IsValid : IsValid left
    unfolding split_leaf
    left-IsValid = record {
      keys_sized = valid.keys_sized;
      values_sized = valid.values_sized;
      bounded = omega arith;
      fits = λ j lt. valid.fits j (omega arith);
      sorted = λ i j lt inside. valid.sorted i j lt (omega arith);
    }

    right-IsValid : IsValid right
    unfolding split_leaf
    right-IsValid = record {
      keys_sized =
          length-copy_array (old_node.num_keys - 32) 32 0 old_node.keys new_node.keys ∙ keys_sized;
      values_sized =
          length-copy_array (old_node.num_keys - 32) 32 0 old_node.values new_node.values
          ∙ values_sized;
      bounded = omega (arith, valid.bounded);
      fits = λ j lt. rw (right_key j lt) (valid.fits (32 + j) (omega arith));
      sorted = λ i j lt inside.
          rw (right_key i (omega arith), right_key j inside)
            (valid.sorted (32 + i) (32 + j) (omega arith) (omega arith));
    }

    abbrev half_lookup : ℕ → Option ℕ
    half_lookup k = if key_less k (key_at right 0) then leaf_lookup left k else leaf_lookup right k

    first_key : key_at right 0 ≡ key_at old_node 32
    first_key = right_key 0 (omega arith)

    -- An entry of the old leaf is in the half that its key belongs to.
    half_lookup_at :
        (i k : ℕ)
        → i < old_node.num_keys
        → key_at old_node i ≡ k
        → half_lookup k ≡ some (get_or old_node.values i 0)
    unfolding split_leaf
    half_lookup_at i k lt e = elim (dec_lt i 32) [
      | yes before ↦
          let less : key_less k (key_at right 0) ≡ true =
            rw (first_key, ← e) (ground (arith, valid.sorted i 32 before many)) in
          rw less (leaf_lookup_at left k left-IsValid.sorted i before e)
      | no behind ↦
          let place : 32 + (i - 32) ≡ i = omega arith in
          let more : key_less k (key_at right 0) ≡ false =
            rw (first_key, ← e)
              (elim (ℕ_discrete i 32) [
                | yes same ↦ rw same (ground arith)
                | no later ↦ ground (arith, valid.sorted 32 i (omega arith) lt)
              ]) in
          rw more (
            leaf_lookup_at right k right-IsValid.sorted (i - 32) (omega arith)
              (right_key (i - 32) (omega arith) ∙ ap (key_at old_node) place ∙ e)
            ∙ ap some
                (right_value (i - 32) (omega arith) ∙ ap (λ m. get_or old_node.values m 0) place))
    ]

    half_lookup_absent :
        (k : ℕ) → ((j : ℕ) → j < old_node.num_keys → key_at old_node j ≢ k) → half_lookup k ≡ none
    unfolding split_leaf
    half_lookup_absent k missing =
        let in_left =
          leaf_lookup_absent left k left-IsValid.sorted (λ j lt. missing j (omega arith)) in
        let in_right =
          leaf_lookup_absent right k right-IsValid.sorted
            (λ j lt e. missing (32 + j) (omega arith) (sym (right_key j lt) ∙ e)) in
        elim (Bool-cases (key_less k (key_at right 0))) [
          | inl less ↦ rw less in_left
          | inr more ↦ rw more in_right
        ]

    -- The split of a valid leaf with more than 32 keys gives two valid leaves, the first with 32 keys and
    -- the second with the rest. A look-up in the old leaf is one in the first for keys less than the
    -- second's first key, which goes to the parent, and one in the second for the others. The second
    -- leaf stands between the first and the old leaf's successor.
    pub split_leaf-lookup :
        IsValid left
        × IsValid right
        × (left.num_keys ≡ 32)
        × (right.num_keys + 32 ≡ old_node.num_keys)
        × ((k : ℕ)
            → leaf_lookup old_node k
              ≡ (if key_less k (key_at right 0) then leaf_lookup left k else leaf_lookup right k))
        × (left.next_leaf ≡ new_page)
        × (right.next_leaf ≡ old_node.next_leaf)
    unfolding split_leaf
    split_leaf-lookup = (
      left-IsValid,
      right-IsValid,
      refl,
      omega arith,
      λ k. elim (leaf_lookup-Looked old_node k valid.sorted) [
        | at i lt e found ↦ found ∙ sym (half_lookup_at i k lt e)
        | absent missing lost ↦ lost ∙ sym (half_lookup_absent k missing)
      ],
      refl,
      refl,
    )
