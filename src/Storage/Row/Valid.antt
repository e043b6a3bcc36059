-- ===== src/Storage/Row/Valid.antt =====
-- Well-formed rows: what the setters of src/storage/row.c keep, and `row_deserialize` on them.
use mathlib.Core.List.{append_assoc}
use native.Mathlib.Nat.{zero-add, suc-add}
use amidb.Base.{
  ℕ, zero, suc, ◌+◌, ◌%◌, ◌^◌, ◌≤◌, ◌<◌, ◌≡◌, refl, ap, ◌∙◌, Bool, true, none, some, List, [], ◌∷◌,
  ◌++◌, arith, length, drop, replicate, get_elem?, All, length-append, length-take, length-drop,
  length-set, take-append-drop, get_elem?-set_ne,
}
use amidb.Util.Endian.{put_u16, get_u16-put_u16}
use amidb.Storage.Row.Defs.{
  Value, null, Row, row_init, row_clear, store_value, columns, row_get_serialized_size,
  write_columns, row_serialize, done, row_deserialize,
}
use amidb.Storage.Row.RoundTrip.{
  IsStorable, row_of, total, add_sizes-total, length-write_columns, read_columns-write_columns,
}

-- 32 slots, and NULL in those that do not count.
pub record IsValid (row : Row) : Type 0 where
  pub full : length row.values ≡ 32
  pub bounded : row.column_count ≤ 32
  pub cleared : (j : ℕ) → row.column_count ≤ j → j < 32 → get_elem? row.values j ≡ some null

pub row_init-IsValid : IsValid row_init
unfolding row_init
row_init-IsValid = record { full = refl; bounded = omega arith; cleared = λ j _ h. nulls 32 j h }
  where
    nulls : (n j : ℕ) → j < n → get_elem? (replicate n null) j ≡ some null
    nulls zero j h = elim h [ ]
    nulls (suc n) zero h = refl
    nulls (suc n) (suc j) h = nulls n j (omega arith)

pub store_value-IsValid :
    (row : Row) (i : ℕ) (v : Value) → IsValid row → i < 32 → IsValid (store_value row i v)
unfolding store_value
store_value-IsValid row i v h lt = record {
  full = length-set row.values i v ∙ h.full;
  bounded = ground arith;
  cleared = λ j le jlt. ground (arith, get_elem?-set_ne row.values i j v, h.cleared j);
}

all_null :
    (vs : List Value)
    → ((j : ℕ) → j < length vs → get_elem? vs j ≡ some null)
    → vs ≡ replicate (length vs) null
all_null [] h = refl
all_null (v ∷ vs) h = cc (h 0 (omega arith), all_null vs (λ j lt. h (suc j) (omega arith)))

get_elem?-drop : (c j : ℕ) (vs : List Value) → get_elem? (drop c vs) j ≡ get_elem? vs (c + j)
get_elem?-drop zero j vs = rw zero-add
get_elem?-drop (suc c) j [] = refl
get_elem?-drop (suc c) j (v ∷ vs) = rw suc-add (get_elem?-drop c j vs)

-- A valid row is determined by the columns that count.
pub row_of-columns : (row : Row) → IsValid row → row_of (columns row) ≡ row
unfolding row_of
row_of-columns row h =
    let counted : length (columns row) ≡ row.column_count =
      omega (arith, length-take row.column_count row.values, h.full, h.bounded) in
    let off = drop row.column_count row.values in
    let nulls : off ≡ replicate (length off) null = all_null off λ j lt.
      get_elem?-drop row.column_count j row.values
      ∙ h.cleared (row.column_count + j) (omega arith)
          (omega (arith, length-drop row.column_count row.values, h.full)) in
    ground (
      arith,
      counted,
      nulls,
      length-drop row.column_count row.values,
      take-append-drop row.column_count row.values,
      h.full,
    )

length-columns : (row : Row) → IsValid row → length (columns row) ≡ row.column_count
length-columns row h = omega (arith, length-take row.column_count row.values, h.full, h.bounded)

length-put_u16 : (n : ℕ) → length (put_u16 n) ≡ 2
unfolding put_u16
length-put_u16 n = refl

-- The bytes of a success.
pub row_serialize-eq-some :
    (row : Row) (room : ℕ) (bytes : List ℕ)
    → IsValid row
    → row_serialize row room ≡ some bytes
    → bytes ≡ put_u16 (length (columns row)) ++ write_columns (columns row)
row_serialize-eq-some row room bytes h e =
    rw (length-columns row h) (unfold row_serialize in ground arith)

row_deserialize-columns :
    (mem_alloc : ℕ → ℕ → Bool) (old : Row) (vs : List Value) (buffer_size : ℕ) (rest : List ℕ)
    → ((i n : ℕ) → mem_alloc i n ≡ true)
    → length vs ≤ 32
    → All IsStorable vs
    → 2 + total vs ≤ buffer_size
    → buffer_size < 2 ^ 32
    → row_deserialize mem_alloc old ((put_u16 (length vs) ++ write_columns vs) ++ rest) buffer_size
      ≡ done (row_of vs) (2 + total vs)
unfolding row_deserialize
row_deserialize-columns mem_alloc old vs size rest g bounded a fits lt =
    let start : row_clear old ≡ row_of [] = unfold row_clear row_init row_of in refl in
    let buffer = (put_u16 (length vs) ++ write_columns vs) ++ rest in
    ground (
      arith,
      start,
      append_assoc (put_u16 (length vs)) (write_columns vs) rest,
      get_u16-put_u16 (length vs) (write_columns vs ++ rest) (omega arith),
      read_columns-write_columns mem_alloc buffer size g lt vs [] 2 rest a (omega arith) fits
          (unfold put_u16 in refl),
    )

-- Once a row is valid, its integers and lengths fit 32 bits and it holds no empty TEXT, what
-- `row_serialize` writes is read back as the same row, with the number of bytes written, whatever the row held
-- before and whatever follows the bytes, if every request for memory is granted and the buffer's
-- size, below 2^32, covers the bytes.
pub row_deserialize-row_serialize :
    (mem_alloc : ℕ → ℕ → Bool) (row old : Row) (room buffer_size : ℕ) (bytes rest : List ℕ)
    → ((i n : ℕ) → mem_alloc i n ≡ true)
    → IsValid row
    → All IsStorable (columns row)
    → row_serialize row room ≡ some bytes
    → length bytes ≤ buffer_size
    → buffer_size < 2 ^ 32
    → row_deserialize mem_alloc old (bytes ++ rest) buffer_size ≡ done row (length bytes)
row_deserialize-row_serialize mem_alloc row old room buffer_size bytes rest g valid a e fits lt =
    let written = row_serialize-eq-some row room bytes valid e in
    let vs = columns row in
    let counted : length bytes ≡ 2 + total vs = omega (
      arith,
      ap length written,
      length-append (put_u16 (length vs)) (write_columns vs),
      length-put_u16 (length vs),
      length-write_columns vs,
    ) in
    rw counted (
      rw written (
        row_deserialize-columns mem_alloc old vs buffer_size rest g
          (omega (arith, length-columns row valid)) a (omega arith) lt
        ∙ ap (λ r. done r (2 + total vs)) (row_of-columns row valid)))

-- On a valid row whose size is below 2^32, `row_serialize` fails exactly if the room is less than
-- `row_get_serialized_size`, which is the size with no wrap; otherwise it writes that many bytes.
pub row_serialize_exact :
    (row : Row) (room : ℕ)
    → IsValid row
    → 2 + total (columns row) < 2 ^ 32
    → (row_get_serialized_size row ≡ 2 + total (columns row))
      × (room < row_get_serialized_size row → row_serialize row room ≡ none)
      × (row_get_serialized_size row ≤ room
          → (bytes : List ℕ) × (row_serialize row room ≡ some bytes)
            × (length bytes ≡ row_get_serialized_size row))
row_serialize_exact row room valid small =
    let size : row_get_serialized_size row ≡ 2 + total (columns row) =
      unfold row_get_serialized_size in add_sizes-total 2 (columns row) small in
    (
      size,
      (λ lt. unfold row_serialize in ground (arith, lt)),
      λ le. (
        put_u16 (row.column_count % 2 ^ 16) ++ write_columns (columns row),
        unfold row_serialize in ground arith,
        omega (
          arith,
          size,
          length-append (put_u16 (row.column_count % 2 ^ 16)) (write_columns (columns row)),
          length-put_u16 (row.column_count % 2 ^ 16),
          length-write_columns (columns row),
        ),
      ),
    )
