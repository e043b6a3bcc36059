-- ===== src/Storage/Row/Setters.antt =====
-- The four setters of src/storage/row.c against `row_get_value`.
use amidb.Base.{
  ℕ, ◌≤◌, ◌<◌, ◌≡◌, ◌≢◌, refl, Bool, true, some, List, [], ◌∷◌, ◌++◌, arith, length, take-append,
  length-append, get_elem?-set_self, get_elem?-set_ne,
}
use amidb.Storage.Row.Defs.{
  Value, null, integer, text, blob, Row, ok, error, store_value, row_set_int, row_set_null,
  row_set_text, row_set_blob, copy, strlen, row_get_value,
}
use amidb.Storage.Row.Valid.{IsValid, store_value-IsValid}

-- `row'` is `row` with `v` at column `i`, and NULL between the old end and `i`.
pub record Stored (row : Row) (i : ℕ) (v : Value) (row' : Row) : Type 0 where
  pub valid : IsValid row'
  pub stored : row_get_value row' i ≡ some v
  pub kept : (j : ℕ) → j ≢ i → j < row.column_count → row_get_value row' j ≡ row_get_value row j
  pub padded : (j : ℕ) → row.column_count ≤ j → j < i → row_get_value row' j ≡ some null

pub store_value-Stored :
    (row : Row) (i : ℕ) (v : Value) → IsValid row → i < 32 → Stored row i v (store_value row i v)
store_value-Stored row i v h lt = record {
  valid = store_value-IsValid row i v h lt;
  stored =
      unfold store_value row_get_value in ground (arith, get_elem?-set_self row.values i v, h.full);
  kept = λ j ne below.
      unfold store_value row_get_value in ground (arith, get_elem?-set_ne row.values i j v, ne);
  padded = λ j le below.
      unfold store_value row_get_value in
      ground (arith, get_elem?-set_ne row.values i j v, h.cleared j);
}

-- On a valid row, `row_set_int` and `row_set_null` fail from column 32 on and change nothing; below
-- it the column reads back as set, the other columns stay, and columns skipped over read NULL.
pub row_set_scalar :
    (row : Row) (i n : ℕ)
    → IsValid row
    → (32 ≤ i → (row_set_int row i n ≡ error) × (row_set_null row i ≡ error))
      × (i < 32
          → (a b : Row) × (row_set_int row i n ≡ ok a)
            × Stored row i (integer n) a
            × (row_set_null row i ≡ ok b)
            × Stored row i null b)
row_set_scalar row i n h = (
  (λ le. (unfold row_set_int in ground (arith, le), unfold row_set_null in ground (arith, le))),
  λ lt. (
    store_value row i (integer n),
    store_value row i null,
    unfold row_set_int in ground (arith, lt),
    store_value-Stored row i (integer n) h lt,
    unfold row_set_null in ground (arith, lt),
    store_value-Stored row i null h lt,
  ),
)

pub copy-append :
    (mem_alloc : ℕ → Bool) (bs rest : List ℕ)
    → ((n : ℕ) → mem_alloc n ≡ true)
    → copy mem_alloc (length bs) (bs ++ rest) ≡ ok bs
unfolding copy
copy-append mem_alloc [] rest g = refl
copy-append mem_alloc (b ∷ bs) rest g =
    ground (arith, g (length (b ∷ bs)), take-append (b ∷ bs) rest, length-append (b ∷ bs) rest)

-- A text with no NUL byte in it.
abbrev pub NoNul : List ℕ → Type 0
NoNul [] = Unit
NoNul (c ∷ cs) = (c ≢ 0) × NoNul cs

pub strlen-append : (bs rest : List ℕ) → NoNul bs → strlen (bs ++ (0 ∷ rest)) ≡ ok (length bs)
unfolding strlen
strlen-append [] rest h = refl
strlen-append (b ∷ bs) rest h = ground (arith, h.0, strlen-append bs rest h.1)

-- Below column 32 of a valid row, with memory granted, `row_set_text` with the length given and
-- not 0 stores that many bytes; with a length of 0 it stores the bytes up to the first NUL;
-- `row_set_blob` stores the bytes for every length.
row_set_bytes :
    (mem_alloc : ℕ → Bool) (row : Row) (i : ℕ) (bs rest : List ℕ)
    → ((n : ℕ) → mem_alloc n ≡ true)
    → IsValid row
    → i < 32
    → (0 < length bs
        → (a : Row) × (row_set_text mem_alloc row i (bs ++ rest) (length bs) ≡ ok a)
          × Stored row i (text bs) a)
      × (NoNul bs
          → (a : Row) × (row_set_text mem_alloc row i (bs ++ (0 ∷ rest)) 0 ≡ ok a)
            × Stored row i (text bs) a)
      × ((a : Row) × (row_set_blob mem_alloc row i (some (bs ++ rest)) (length bs) ≡ ok a)
          × Stored row i (blob bs) a)
row_set_bytes mem_alloc row i bs rest g h lt = (
  (λ pos. (
    store_value row i (text bs),
    unfold row_set_text in ground (arith, pos, lt, copy-append mem_alloc bs rest g),
    store_value-Stored row i (text bs) h lt,
  )),
  (λ clean. (
    store_value row i (text bs),
    unfold row_set_text in
        ground (arith, lt, strlen-append bs rest clean, copy-append mem_alloc bs (0 ∷ rest) g),
    store_value-Stored row i (text bs) h lt,
  )),
  (
    store_value row i (blob bs),
    unfold row_set_blob in ground (arith, lt, copy-append mem_alloc bs rest g),
    store_value-Stored row i (blob bs) h lt,
  ),
)
