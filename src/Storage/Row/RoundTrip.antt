-- ===== src/Storage/Row/RoundTrip.antt =====
-- `row_deserialize` after `row_serialize`, of src/storage/row.c.
use mathlib.Core.List.{append_assoc, append-nil}
use amidb.Base.{
  ℕ, suc, ◌+◌, ◌-◌, ◌^◌, ◌≤◌, ◌<◌, ◌≡◌, ◌⊎◌, inl, inr, refl, ap, ◌∙◌, Bool, true, List, [], ◌∷◌,
  ◌++◌, arith, if◌then◌else◌, ◌==◌, length, drop, replicate, All, length-append, take-append,
  get_or-drop, drop-add, set-append,
}
use amidb.Util.Endian.{put_u32, get_u32-put_u32}
use amidb.Storage.Row.Defs.{
  Value, null, integer, text, blob, Row, ok, store_value, value_size, add_sizes, write_column,
  write_columns, read_column, done, read_columns, max_columns,
}

-- What a column holds after a round trip: a 32-bit integer, a text that is not empty, a blob.
abbrev pub IsStorable : Value → Type 0
IsStorable null = Unit
IsStorable (integer n) = n < 2 ^ 32
IsStorable (text bs) = (0 < length bs) × (length bs < 2 ^ 32)
IsStorable (blob bs) = length bs < 2 ^ 32

-- The row with these columns, and NULL behind them.
unfoldable pub row_of : List Value → Row
row_of vs = record {
  column_count = length vs;
  values = vs ++ replicate (max_columns - length vs) null;
}

length-put_u32 : (n : ℕ) → length (put_u32 n) ≡ 4
unfolding put_u32
length-put_u32 n = refl

length-write_column : (v : Value) → length (write_column v) ≡ value_size v
unfolding write_column value_size put_u32
length-write_column null = refl
length-write_column (integer n) = refl
length-write_column (text bs) = omega arith
length-write_column (blob bs) = omega arith

replicate_split : (n : ℕ) → n < 32 → replicate (32 - n) null ≡ null ∷ replicate (32 - (n + 1)) null
replicate_split n h = let e : 32 - n ≡ suc (32 - (n + 1)) = omega arith in rw e

store_value-row_of :
    (vs : List Value) (v : Value)
    → length vs < 32
    → store_value (row_of vs) (length vs) v ≡ row_of (vs ++ (v ∷ []))
unfolding store_value row_of
store_value-row_of vs v h = ground (
  arith,
  length-append vs (v ∷ []),
  replicate_split (length vs) h,
  set-append vs null (replicate (32 - (length vs + 1)) null) v,
  append_assoc vs (v ∷ []) (replicate (32 - (length vs + 1)) null),
)

-- `offset` stands before the bytes of column `v`, all of them within the buffer.
module _ (mem_alloc : ℕ → Bool) (grants : (n : ℕ) → mem_alloc n ≡ true) (i : ℕ) (row : Row)
    (buffer : List ℕ) (buffer_size offset : ℕ) (in_range : i < 32)
    (small : buffer_size < 2 ^ 32) where
  read_null :
      (rest : List ℕ)
      → offset + 1 ≤ buffer_size
      → drop offset buffer ≡ 0 ∷ rest
      → read_column mem_alloc i offset row buffer buffer_size
        ≡ ok (store_value row i null, offset + 1)
  unfolding read_column
  read_null rest fits e = ground (arith, get_or-drop offset buffer 0 0 rest e)

  read_integer :
      (n : ℕ) (rest : List ℕ)
      → n < 2 ^ 32
      → offset + 5 ≤ buffer_size
      → drop offset buffer ≡ 1 ∷ (put_u32 n ++ rest)
      → read_column mem_alloc i offset row buffer buffer_size
        ≡ ok (store_value row i (integer n), offset + 5)
  unfolding read_column
  read_integer n rest h fits e = ground (
    arith,
    get_or-drop offset buffer 0 1 _ e,
    drop-add offset buffer (1 ∷ []) (put_u32 n ++ rest) e,
    get_u32-put_u32 n rest h,
  )

  read_data :
      (tag : ℕ) (bs rest : List ℕ)
      → (tag ≡ 2) × (0 < length bs) ⊎ (tag ≡ 3)
      → offset + 5 + length bs ≤ buffer_size
      → drop offset buffer ≡ tag ∷ (put_u32 (length bs) ++ (bs ++ rest))
      → read_column mem_alloc i offset row buffer buffer_size
        ≡ ok (
          store_value row i (if tag == 2 then text bs else blob bs),
          offset + (1 + (4 + length bs)),
        )
  unfolding read_column
  read_data tag bs rest kind fits e = ground (
    arith,
    get_or-drop offset buffer 0 tag _ e,
    drop-add offset buffer (tag ∷ []) (put_u32 (length bs) ++ (bs ++ rest)) e,
    drop-add offset buffer (tag ∷ put_u32 (length bs)) (bs ++ rest) e,
    length-put_u32 (length bs),
    get_u32-put_u32 (length bs) (bs ++ rest) (omega arith),
    grants (length bs),
    take-append bs rest,
    length-append bs rest,
  )

  read_column-write_column :
      (v : Value) (rest : List ℕ)
      → IsStorable v
      → offset + value_size v ≤ buffer_size
      → drop offset buffer ≡ write_column v ++ rest
      → read_column mem_alloc i offset row buffer buffer_size
        ≡ ok (store_value row i v, offset + value_size v)
  unfolding write_column value_size
  read_column-write_column null rest h fits e = read_null rest fits e
  read_column-write_column (integer n) rest h fits e = read_integer n rest h fits e
  read_column-write_column (text bs) rest h fits e =
      read_data 2 bs rest (inl (refl, h.0)) (omega arith)
        (e ∙ ap (◌∷◌ 2) (append_assoc (put_u32 (length bs)) bs rest))
  read_column-write_column (blob bs) rest h fits e =
      read_data 3 bs rest (inr refl) (omega arith)
        (e ∙ ap (◌∷◌ 3) (append_assoc (put_u32 (length bs)) bs rest))

-- The size of the columns with no wrap.
abbrev pub total : List Value → ℕ
total [] = 0
total (v ∷ vs) = value_size v + total vs

pub add_sizes-total :
    (size : ℕ) (vs : List Value) → size + total vs < 2 ^ 32 → add_sizes size vs ≡ size + total vs
unfolding add_sizes
add_sizes-total size [] h = omega arith
add_sizes-total size (v ∷ vs) h =
    unfold value_size in ground (arith, add_sizes-total (size + value_size v) vs)

pub length-write_columns : (vs : List Value) → length (write_columns vs) ≡ total vs
unfolding write_columns
length-write_columns [] = refl
length-write_columns (v ∷ vs) = omega (
  arith,
  length-append (write_column v) (write_columns vs),
  length-write_column v,
  length-write_columns vs,
)

pub read_columns-write_columns :
    (mem_alloc : ℕ → ℕ → Bool) (buffer : List ℕ) (buffer_size : ℕ)
    → ((i n : ℕ) → mem_alloc i n ≡ true)
    → buffer_size < 2 ^ 32
    → (vs front : List Value) (offset : ℕ) (rest : List ℕ) → All IsStorable vs
    → length front + length vs ≤ 32
    → offset + total vs ≤ buffer_size
    → drop offset buffer ≡ write_columns vs ++ rest
    → read_columns mem_alloc (length vs) (length front) offset (row_of front) buffer buffer_size
      ≡ done (row_of (front ++ vs)) (offset + total vs)
unfolding read_columns write_columns
read_columns-write_columns mem_alloc buffer size g small [] front offset rest a h fits e =
    rw append-nil (ground arith)
read_columns-write_columns mem_alloc buffer size g small (v ∷ vs) front offset rest a h fits e =
    let read =
      read_column-write_column (mem_alloc (length front)) (g (length front)) (length front)
        (row_of front) buffer size offset (omega arith) small v (write_columns vs ++ rest) a.0
        (omega arith) (e ∙ append_assoc (write_column v) (write_columns vs) rest) in
    ground (
      arith,
      read,
      store_value-row_of front v (omega arith),
      length-append front (v ∷ []),
      append_assoc front (v ∷ []) vs,
      read_columns-write_columns mem_alloc buffer size g small vs (front ++ (v ∷ []))
          (offset + value_size v) rest a.1 (omega (arith, length-append front (v ∷ [])))
          (omega arith)
          (rw (← length-write_column v) (
            drop-add offset buffer (write_column v) (write_columns vs ++ rest)
              (e ∙ append_assoc (write_column v) (write_columns vs) rest))),
    )
