-- ===== src/Sql/Executor/Values.antt =====
-- The values of an INSERT as a row, and the checks of CREATE TABLE, of src/sql/executor.c.
-- An error message is given by what it is printed from.
use amidb.Base.{
  ℕ, ◌+◌, Bool, Option, none, some, List, [], ◌∷◌, ◌++◌, ◌⊎◌, inl, inr, if◌then◌else◌, ltb, ◌==◌,
  get_or, take,
}
use amidb.Storage.Row.Defs.{
  Value, null, integer, text, blob, Row, Result, ok, error, fault, row_set_int, row_set_text,
  row_set_null, row_get_value,
}
use amidb.Sql.Parser.Ast.{
  sql_type_integer, sql_type_text, sql_type_blob, sql_value_integer, sql_value_text, sql_value_null,
  SqlColumnDef, SqlCreateTable, SqlValue,
}
use amidb.Sql.Catalog.Schema.{TableSchema}
use amidb.Sql.Catalog.Ops.{empty_column}

pub data Message : Type 0 where
  no_error empty_table_name no_columns too_many_columns empty_column_name : Message
  invalid_type many_keys key_column_type : Message
  table_exists no_such_table : List ℕ → Message
  count_mismatch : ℕ → ℕ → Message
  expected_integer expected_text unsupported_value : List ℕ → Message
  key_value_type not_serialized no_page no_cached_page no_tree : Message
  duplicate_key : ℕ → Message
  not_inserted not_updated : Message

-- `name[0] == '\0'`
unfoldable pub is_empty : List ℕ → Bool
is_empty name = get_or name 0 0 == 0

-- A column of `executor_create_table`.
unfoldable pub check_column : SqlColumnDef → Option Message
unfolding is_empty
check_column col =
    if is_empty col.name
    then some empty_column_name
    else if col.type == sql_type_integer
    then none
    else if col.type == sql_type_text
    then none
    else if col.type == sql_type_blob
    then none
    else some invalid_type

unfoldable pub or_rest : Option Message → Message ⊎ ℕ → Message ⊎ ℕ
or_rest none rest = rest
or_rest (some m) rest = inl m

-- The loop over the columns; the result is `pk_count`.
unfoldable pub check_columns : ℕ → List SqlColumnDef → Message ⊎ ℕ
unfolding check_column or_rest
check_columns pk_count [] = inr pk_count
check_columns pk_count (col ∷ cols) =
    let with_key = check_columns (pk_count + 1) cols in
    let without = check_columns pk_count cols in
    or_rest (check_column col) (if col.is_primary_key then with_key else without)

-- Whether the first PRIMARY KEY, if there is one, has the type INTEGER.
unfoldable pub check_key_type : List SqlColumnDef → Option Message
check_key_type [] = none
check_key_type (col ∷ cols) =
    let rest = check_key_type cols in
    if col.is_primary_key
    then (if col.type == sql_type_integer then none else some key_column_type)
    else rest

unfoldable pub check_keys : List SqlColumnDef → Message ⊎ ℕ → Option Message
unfolding check_key_type
check_keys cols (inl m) = some m
check_keys cols (inr pk_count) =
    if ltb 1 pk_count then some many_keys else if pk_count == 1 then check_key_type cols else none

-- `executor_create_table` before it calls the catalog: the first test that fails.
unfoldable pub check_table : SqlCreateTable → Option Message
unfolding is_empty check_columns check_keys
check_table create_stmt =
    let cols = take create_stmt.column_count create_stmt.columns in
    if is_empty create_stmt.table_name
    then some empty_table_name
    else if create_stmt.column_count == 0
    then some no_columns
    else if ltb 32 create_stmt.column_count
    then some too_many_columns
    else check_keys cols (check_columns 0 cols)

-- The results of the row's setters are ignored.
unfoldable pub set_or_keep : Row → Result Row → Row
set_or_keep row (ok row') = row'
set_or_keep row error = row
set_or_keep row fault = row

-- The switch on a value's type. `text_value` ends with a NUL.
unfoldable pub set_value : (ℕ → Bool) → ℕ → SqlValue → SqlColumnDef → Row → Message ⊎ Row
unfolding row_set_int row_set_text row_set_null set_or_keep
set_value mem_alloc i val col row =
    if val.type == sql_value_integer
    then (if col.type == sql_type_integer
        then inr (set_or_keep row (row_set_int row i val.int_value))
        else inl (expected_integer col.name))
    else if val.type == sql_value_text
    then (if col.type == sql_type_text
        then inr (set_or_keep row (row_set_text mem_alloc row i (val.text_value ++ (0 ∷ [])) 0))
        else inl (expected_text col.name))
    else if val.type == sql_value_null
    then inr (set_or_keep row (row_set_null row i))
    else inl (unsupported_value col.name)

unfoldable pub next_value : Message ⊎ Row → (Row → Message ⊎ Row) → Message ⊎ Row
next_value (inl m) rest = inl m
next_value (inr row) rest = rest row

-- The loop over the values from column `i` on; `mem_alloc i n` is the answer to column i's request.
unfoldable pub set_values :
    (ℕ → ℕ → Bool) → ℕ → List SqlValue → List SqlColumnDef → Row → Message ⊎ Row
unfolding set_value next_value
set_values mem_alloc i [] cols row = inr row
set_values mem_alloc i (val ∷ vals) cols row =
    next_value (set_value (mem_alloc i) i val (get_or cols i empty_column) row)
      λ row'. set_values mem_alloc (i + 1) vals cols row'

unfoldable pub explicit_key : Option Value → Message ⊎ ℕ
explicit_key none = inl key_value_type
explicit_key (some null) = inl key_value_type
explicit_key (some (integer n)) = inr n
explicit_key (some (text bs)) = inl key_value_type
explicit_key (some (blob bs)) = inl key_value_type

-- `primary_key_index` is a byte; from 128 on it is negative.
unfoldable pub primary_key : TableSchema → Row → Message ⊎ ℕ
unfolding explicit_key row_get_value
primary_key schema row =
    if ltb schema.primary_key_index 128
    then explicit_key (row_get_value row schema.primary_key_index)
    else inr schema.next_rowid
