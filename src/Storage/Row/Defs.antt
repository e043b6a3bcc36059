-- ===== src/Storage/Row/Defs.antt =====
-- src/storage/row.h and the operations of src/storage/row.c.
-- An int32_t is its bit pattern, and so is a size that is returned as one, which is negative from
-- 2^31 on: rows of 2 GB are more than the machine can address. A pointer into a buffer is the list of
-- the bytes from it to the end of the memory that the program may read. `mem_alloc` is a parameter:
-- whether it grants a request. What `mem_free` gives back is not modelled.
use amidb.Base.{
  ℕ, zero, suc, ◌+◌, ◌%◌, ◌^◌, Bool, Option, none, some, List, [], ◌∷◌, ◌++◌, if◌then◌else◌, ltb,
  leb, ◌==◌, length, take, drop, set, replicate, get_or, get_elem?,
}
use amidb.Util.Endian.{put_u16, get_u16, put_u32, get_u32}

pub data Value : Type 0 where
  null : Value
  integer : ℕ → Value
  text : List ℕ → Value
  blob : List ℕ → Value

pub record Row : Type 0 where
  pub column_count : ℕ
  pub values : List Value

-- `error` is the return value -1; `fault` is a read behind the end of the memory.
pub data Result {ℓ} (A : Type ℓ) : Type ℓ where
  ok : A → Result A
  error fault : Result A

infixl 5 ◌>>=◌
abbrev pub ◌>>=◌ {ℓ κ} : {A : Type ℓ} {B : Type κ} → Result A → (A → Result B) → Result B
ok a >>= f = f a
error >>= f = error
fault >>= f = fault

abbrev pub max_columns : ℕ
max_columns = 32

abbrev pub u32 : ℕ → ℕ
u32 x = x % 2 ^ 32

unfoldable pub row_init : Row
row_init = record { column_count = 0; values = replicate max_columns null }

-- The blocks below `column_count` are freed, then the row is initialised.
unfoldable pub row_clear : Row → Row
row_clear row = row_init

-- The end of each of the four setters: the slot is written and the count grows to hold it.
unfoldable pub store_value : Row → ℕ → Value → Row
store_value row i v = record row {
  values = set row.values i v;
  column_count = if leb row.column_count i then i + 1 else row.column_count;
}

unfoldable pub row_set_int : Row → ℕ → ℕ → Result Row
unfolding store_value
row_set_int row i value =
    if leb max_columns i then error else ok (store_value row i (integer value))

unfoldable pub row_set_null : Row → ℕ → Result Row
unfolding store_value
row_set_null row i = if leb max_columns i then error else ok (store_value row i null)

-- `while (*p) { p++; length++; }`, from a length of 0.
unfoldable pub strlen : List ℕ → Result ℕ
strlen [] = fault
strlen (c ∷ cs) = let rest = strlen cs in if c == 0 then ok 0 else rest >>= λ n. ok (suc n)

-- `mem_alloc(length, 0)` and `memcpy`, which a length of 0 skips.
unfoldable pub copy : (ℕ → Bool) → ℕ → List ℕ → Result (List ℕ)
copy mem_alloc n src =
    if n == 0
    then ok []
    else if mem_alloc n
    then (if leb n (length src) then ok (take n src) else fault)
    else error

unfoldable pub row_set_text : (ℕ → Bool) → Row → ℕ → List ℕ → ℕ → Result Row
unfolding store_value strlen copy
row_set_text mem_alloc row i src n = if leb max_columns i then error else do
  len ← (if n == 0 then strlen src else ok n)
  data' ← copy mem_alloc len src
  ok (store_value row i (text data'))

-- The data pointer may be NULL.
unfoldable pub row_set_blob : (ℕ → Bool) → Row → ℕ → Option (List ℕ) → ℕ → Result Row
unfolding store_value copy
row_set_blob mem_alloc row i none size =
    if leb max_columns i
    then error
    else if ltb 0 size
    then error
    else ok (store_value row i (blob []))
row_set_blob mem_alloc row i (some src) size =
    if leb max_columns i
    then error
    else do data' ← copy mem_alloc size src; ok (store_value row i (blob data'))

unfoldable pub row_get_value : Row → ℕ → Option Value
row_get_value row i = if leb row.column_count i then none else get_elem? row.values i

-- The columns that count.
abbrev pub columns : Row → List Value
columns row = take row.column_count row.values

-- What one column adds to the size, its type byte included.
unfoldable pub value_size : Value → ℕ
value_size null = 1
value_size (integer n) = 1 + 4
value_size (text bs) = 1 + (4 + length bs)
value_size (blob bs) = 1 + (4 + length bs)

unfoldable pub add_sizes : ℕ → List Value → ℕ
unfolding value_size
add_sizes size [] = size
add_sizes size (v ∷ vs) = add_sizes (u32 (size + value_size v)) vs

unfoldable pub row_get_serialized_size : Row → ℕ
unfolding add_sizes
row_get_serialized_size row = add_sizes 2 (columns row)

unfoldable pub write_column : Value → List ℕ
write_column null = 0 ∷ []
write_column (integer n) = 1 ∷ put_u32 n
write_column (text bs) = 2 ∷ (put_u32 (length bs) ++ bs)
write_column (blob bs) = 3 ∷ (put_u32 (length bs) ++ bs)

unfoldable pub write_columns : List Value → List ℕ
unfolding write_column
write_columns [] = []
write_columns (v ∷ vs) = write_column v ++ write_columns vs

-- The bytes written from the start of the buffer; the return value is their number, converted to an
-- int, of which `none` is the explicit -1 only.
unfoldable pub row_serialize : Row → ℕ → Option (List ℕ)
unfolding write_columns row_get_serialized_size
row_serialize row buffer_size =
    if ltb buffer_size (row_get_serialized_size row)
    then none
    else some (put_u16 (row.column_count % 2 ^ 16) ++ write_columns (columns row))

-- `case AMIDB_TYPE_TEXT`, `case AMIDB_TYPE_BLOB`, from the test of `offset + size` on.
unfoldable pub read_bytes : Bool → (ℕ → Bool) → ℕ → ℕ → ℕ → Row → List ℕ → ℕ → Result (Row × ℕ)
unfolding row_set_text row_set_blob
read_bytes is_text mem_alloc i offset size row buffer buffer_size =
    if ltb buffer_size (u32 (offset + size)) then error else do
      row' ←
          (if is_text
            then row_set_text mem_alloc row i (drop offset buffer) size
            else row_set_blob mem_alloc row i (some (drop offset buffer)) size)
      ok (row', u32 (offset + size))

-- The switch on the type byte; `offset` stands behind that byte.
unfoldable pub read_typed : ℕ → (ℕ → Bool) → ℕ → ℕ → Row → List ℕ → ℕ → Result (Row × ℕ)
unfolding row_set_null row_set_int read_bytes
read_typed type mem_alloc i offset row buffer buffer_size =
    if type == 0
    then (row_set_null row i >>= λ row'. ok (row', offset))
    else if leb type 3
    then (if ltb buffer_size (u32 (offset + 4))
        then error
        else if type == 1
        then (row_set_int row i (get_u32 (drop offset buffer)) >>= λ row'.
            ok (row', u32 (offset + 4)))
        else read_bytes (type == 2) mem_alloc i (u32 (offset + 4)) (get_u32 (drop offset buffer))
            row buffer buffer_size)
    else error

-- One round of the loop.
unfoldable pub read_column : (ℕ → Bool) → ℕ → ℕ → Row → List ℕ → ℕ → Result (Row × ℕ)
unfolding read_typed
read_column mem_alloc i offset row buffer buffer_size =
    if leb buffer_size offset
    then error
    else read_typed (get_or buffer offset 0) mem_alloc i (u32 (offset + 1)) row buffer buffer_size

-- What a call leaves in `*row`, and the bit pattern of its return value.
pub data Read : Type 0 where
  done : Row → ℕ → Read
  failed : Row → Read
  stray : Read

-- After a round: an error clears the row, and the other rounds follow a success.
unfoldable pub next_column : Result (Row × ℕ) → Row → (Row → ℕ → Read) → Read
unfolding row_clear
next_column (ok (row', offset')) row rest = rest row' offset'
next_column error row rest = failed (row_clear row)
next_column fault row rest = stray

-- `mem_alloc i n` is the answer to the request of n bytes for column i.
unfoldable pub read_columns : (ℕ → ℕ → Bool) → ℕ → ℕ → ℕ → Row → List ℕ → ℕ → Read
unfolding next_column read_column
read_columns mem_alloc zero i offset row buffer buffer_size = done row offset
read_columns mem_alloc (suc left) i offset row buffer buffer_size =
    next_column (read_column (mem_alloc i) i offset row buffer buffer_size) row
      λ row' offset'. read_columns mem_alloc left (i + 1) offset' row' buffer buffer_size

unfoldable pub row_deserialize : (ℕ → ℕ → Bool) → Row → List ℕ → ℕ → Read
unfolding read_columns
row_deserialize mem_alloc row buffer buffer_size =
    if ltb buffer_size 2
    then failed row
    else if ltb max_columns (get_u16 buffer)
    then failed (row_clear row)
    else read_columns mem_alloc (get_u16 buffer) 0 2 (row_clear row) buffer buffer_size
