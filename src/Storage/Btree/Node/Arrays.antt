-- ===== src/Storage/Btree/Node/Arrays.antt =====
-- The loops of src/storage/btree.c that make room in an array or close a gap.
use native.Mathlib.Decide.{ℕ_discrete}
use amidb.Base.{
  ℕ, zero, suc, ◌+◌, ◌-◌, ◌≤◌, ◌<◌, ◌≡◌, ◌⊎◌, inl, inr, refl, sym, ap, ◌∙◌, List, arith, length,
  set, length-set, get_or, get_or-set_self, get_or-set_ne,
}
use amidb.Storage.Btree.Node.{shift_up, shift_down}

pub length-shift_up : (rounds i : ℕ) (xs : List ℕ) → length (shift_up rounds i xs) ≡ length xs
unfolding shift_up
length-shift_up zero i xs = refl
length-shift_up (suc rounds) i xs =
    length-shift_up rounds (i - 1) (set xs i (get_or xs (i - 1) 0)) ∙ length-set xs i _

pub length-shift_down : (rounds i : ℕ) (xs : List ℕ) → length (shift_down rounds i xs) ≡ length xs
unfolding shift_down
length-shift_down zero i xs = refl
length-shift_down (suc rounds) i xs =
    length-shift_down rounds (i + 1) (set xs i (get_or xs (i + 1) 0)) ∙ length-set xs i _

shift_up_out :
    (rounds i : ℕ) (xs : List ℕ) (j : ℕ)
    → rounds ≤ i
    → (j + rounds ≤ i) ⊎ (i < j)
    → get_or (shift_up rounds i xs) j 0 ≡ get_or xs j 0
unfolding shift_up
shift_up_out zero i xs j le out = refl
shift_up_out (suc rounds) i xs j le out =
    shift_up_out rounds (i - 1) (set xs i (get_or xs (i - 1) 0)) j (omega arith) (ground arith)
    ∙ get_or-set_ne xs i j _ 0 (ground arith)

shift_up_in :
    (rounds i : ℕ) (xs : List ℕ) (j : ℕ)
    → rounds ≤ i
    → i < length xs
    → i < j + rounds
    → j ≤ i
    → get_or (shift_up rounds i xs) j 0 ≡ get_or xs (j - 1) 0
unfolding shift_up
shift_up_in zero i xs j le inside lo hi = absurd (omega arith)
shift_up_in (suc rounds) i xs j le inside lo hi =
    let ys = set xs i (get_or xs (i - 1) 0) in
    elim (ℕ_discrete j i) [
      | yes last ↦
          shift_up_out rounds (i - 1) ys j (omega arith) (inr (omega arith))
          ∙ ap (λ k. get_or ys k 0) last
          ∙ get_or-set_self xs i _ 0 inside
          ∙ ap (λ k. get_or xs (k - 1) 0) (sym last)
      | no before ↦
          shift_up_in rounds (i - 1) ys j (omega arith)
            (omega (arith, length-set xs i (get_or xs (i - 1) 0))) (omega arith) (omega arith)
          ∙ get_or-set_ne xs i (j - 1) _ 0 (omega arith)
    ]

shift_down_out :
    (rounds i : ℕ) (xs : List ℕ) (j : ℕ)
    → (j < i) ⊎ (i + rounds ≤ j)
    → get_or (shift_down rounds i xs) j 0 ≡ get_or xs j 0
unfolding shift_down
shift_down_out zero i xs j out = refl
shift_down_out (suc rounds) i xs j out =
    shift_down_out rounds (i + 1) (set xs i (get_or xs (i + 1) 0)) j (ground arith)
    ∙ get_or-set_ne xs i j _ 0 (ground arith)

shift_down_in :
    (rounds i : ℕ) (xs : List ℕ) (j : ℕ)
    → i + rounds ≤ length xs
    → i ≤ j
    → j < i + rounds
    → get_or (shift_down rounds i xs) j 0 ≡ get_or xs (j + 1) 0
unfolding shift_down
shift_down_in zero i xs j inside lo hi = absurd (omega arith)
shift_down_in (suc rounds) i xs j inside lo hi =
    let ys = set xs i (get_or xs (i + 1) 0) in
    elim (ℕ_discrete j i) [
      | yes first ↦
          shift_down_out rounds (i + 1) ys j (inl (omega arith))
          ∙ ap (λ k. get_or ys k 0) first
          ∙ get_or-set_self xs i _ 0 (omega arith)
          ∙ ap (λ k. get_or xs (k + 1) 0) (sym first)
      | no behind ↦
          shift_down_in rounds (i + 1) ys j (omega (arith, length-set xs i (get_or xs (i + 1) 0)))
            (omega arith) (omega arith)
          ∙ get_or-set_ne xs i (j + 1) _ 0 (omega arith)
    ]

-- An array of n entries with another at an index.
abbrev pub inserted : List ℕ → ℕ → ℕ → ℕ → List ℕ
inserted xs n i v = set (shift_up (n - i) n xs) i v

module _ (xs : List ℕ) (n i v : ℕ) (le : i ≤ n) (room : n < length xs) where
  pub inserted_before : (j : ℕ) → j < i → get_or (inserted xs n i v) j 0 ≡ get_or xs j 0
  inserted_before j lt =
      get_or-set_ne (shift_up (n - i) n xs) i j v 0 (omega arith)
      ∙ shift_up_out (n - i) n xs j (omega arith) (inl (omega arith))

  pub inserted_here : get_or (inserted xs n i v) i 0 ≡ v
  inserted_here =
      get_or-set_self (shift_up (n - i) n xs) i v 0 (omega (arith, length-shift_up (n - i) n xs))

  pub inserted_behind :
      (j : ℕ) → i < j → j ≤ n → get_or (inserted xs n i v) j 0 ≡ get_or xs (j - 1) 0
  inserted_behind j lt hi =
      get_or-set_ne (shift_up (n - i) n xs) i j v 0 (omega arith)
      ∙ shift_up_in (n - i) n xs j (omega arith) room (omega arith) hi

-- An array of n entries without the one at an index.
abbrev pub removed : List ℕ → ℕ → ℕ → List ℕ
removed xs n i = shift_down (n - 1 - i) i xs

module _ (xs : List ℕ) (n i : ℕ) (lt : i < n) (sized : n ≤ length xs) where
  pub removed_before : (j : ℕ) → j < i → get_or (removed xs n i) j 0 ≡ get_or xs j 0
  removed_before j before = shift_down_out (n - 1 - i) i xs j (inl before)

  pub removed_behind :
      (j : ℕ) → i ≤ j → j < n - 1 → get_or (removed xs n i) j 0 ≡ get_or xs (j + 1) 0
  removed_behind j lo hi = shift_down_in (n - 1 - i) i xs j (omega arith) lo (omega arith)
