-- ===== src/Sql/Parser/Statements.antt =====
-- The recursive descent of src/sql/parser.c.
-- The loops over columns and over values count up to 32: their argument is how many more fit.
-- The functions for SUM, AVG, MIN and MAX are one text in the source, up to the name.
use Prim.Native.String.{String}
use amidb.Base.{
  ℕ, zero, suc, ◌+◌, Bool, true, false, List, [], ◌∷◌, if◌then◌else◌, ltb, ◌==◌, length, take,
}
use amidb.Base.Effect.{Op, ◌>>=◌, ◌>>◌, return}
use amidb.Sql.Lexer.Defs.{keyword, integer, string}
use amidb.Sql.Parser.Ast.{
  sql_type_integer, sql_type_text, sql_type_blob, sql_value_integer, sql_value_text, sql_value_null,
  SqlColumnDef, SqlValue, SqlStatement, create_table, drop_table, insert, empty_value,
}
use amidb.Sql.Parser.State.{
  SqlParser, step, take_current, branch, is_type, parser_advance, match_keyword, match_symbol,
  expect_keyword, expect_symbol, expect_identifier, refuse,
}

abbrev pub has_keyword : ℕ → SqlParser → Bool
has_keyword id parser = parser.current.keyword_id == id

abbrev unknown_type : {A : Type 0} → Op SqlParser A
unknown_type = refuse "Expected data type (INTEGER, TEXT, or BLOB)"

unfoldable pub parse_data_type : Op SqlParser ℕ
unfolding branch parser_advance
parse_data_type =
    branch (is_type keyword)
      (branch (has_keyword 19) (step >> return sql_type_integer) (
        branch (has_keyword 20) (step >> return sql_type_text)
          (branch (has_keyword 21) (step >> return sql_type_blob) unknown_type)))
      unknown_type

-- PRIMARY KEY, where it follows.
unfoldable pub parse_primary_key : Op SqlParser Bool
unfolding branch match_keyword parser_advance expect_keyword
parse_primary_key =
    branch (match_keyword 17) (step >> (expect_keyword 18 >> return true)) (return false)

unfoldable pub parse_column_def : Op SqlParser SqlColumnDef
unfolding expect_identifier parse_data_type parse_primary_key
parse_column_def = do
  name ← expect_identifier
  type ← parse_data_type
  primary ← parse_primary_key
  return record { name = name; type = type; is_primary_key = primary; not_null = false }

-- A loop over a list in parentheses, from behind the opening one.
unfoldable pub parse_list :
    {A : Type 0} → Op SqlParser A → String → String → ℕ → Op SqlParser (List A)
unfolding branch match_symbol parser_advance
parse_list item too_many expected zero = refuse too_many
parse_list item too_many expected (suc n) =
    let rest = parse_list item too_many expected n in
    do
      x ← item
      branch (match_symbol 44) (step >> (rest >>= λ xs. return (x ∷ xs)))
          (branch (match_symbol 41) (step >> return (x ∷ [])) (refuse expected))

abbrev pub count_primary : List SqlColumnDef → ℕ
count_primary [] = 0
count_primary (col ∷ cols) = (if col.is_primary_key then 1 else 0) + count_primary cols

-- The semicolon that may end a statement.
unfoldable pub optional_semicolon : Op SqlParser (Unit {0})
unfolding branch match_symbol parser_advance
optional_semicolon = branch (match_symbol 59) step (return tt)

unfoldable pub parse_columns : Op SqlParser (List SqlColumnDef)
unfolding parse_column_def parse_list
parse_columns =
    parse_list parse_column_def "Too many columns (max 32)" "Expected ',' or ')' in column list" 32

-- The checks behind the columns.
unfoldable pub finish_create : List ℕ → List SqlColumnDef → Op SqlParser SqlStatement
unfolding optional_semicolon
finish_create name columns =
    if ltb 1 (count_primary columns)
    then refuse "Table can have at most one PRIMARY KEY"
    else if length columns == 0
    then refuse "Table must have at least one column"
    else (optional_semicolon
        >> return (
            create_table
              record { table_name = name; column_count = length columns; columns = columns }))

unfoldable pub parse_create_table : Op SqlParser SqlStatement
unfolding expect_keyword expect_symbol expect_identifier parse_columns finish_create
parse_create_table = do
  expect_keyword 5
  expect_keyword 7
  name ← expect_identifier
  expect_symbol 40
  columns ←
      parse_list parse_column_def "Too many columns (max 32)" "Expected ',' or ')' in column list"
        32
  finish_create name columns

unfoldable pub parse_drop_table : Op SqlParser SqlStatement
unfolding expect_keyword expect_identifier optional_semicolon
parse_drop_table = do
  expect_keyword 6
  expect_keyword 7
  name ← expect_identifier
  optional_semicolon
  return (drop_table record { table_name = name })

unfoldable pub parse_value : Op SqlParser SqlValue
unfolding branch match_keyword parser_advance
parse_value =
    branch (is_type integer)
      (take_current >>= λ token.
        return record empty_value { type = sql_value_integer; int_value = token.int_value })
      (branch (is_type string)
        (take_current >>= λ token.
          return record empty_value { type = sql_value_text; text_value = take 255 token.text })
        (branch (match_keyword 22) (step >> return record empty_value { type = sql_value_null })
          (refuse "Expected value (integer, string, or NULL)")))

unfoldable pub parse_values : Op SqlParser (List SqlValue)
unfolding parse_value parse_list
parse_values =
    parse_list parse_value "Too many values (max 32)" "Expected ',' or ')' in value list" 32

unfoldable pub finish_insert : List ℕ → List SqlValue → Op SqlParser SqlStatement
unfolding optional_semicolon
finish_insert name values =
    if length values == 0
    then refuse "INSERT must have at least one value"
    else (optional_semicolon
        >> return
            (insert record { table_name = name; value_count = length values; values = values }))

unfoldable pub parse_insert : Op SqlParser SqlStatement
unfolding expect_keyword expect_symbol expect_identifier parse_values finish_insert
parse_insert = do
  expect_keyword 2
  expect_keyword 11
  name ← expect_identifier
  expect_keyword 12
  expect_symbol 40
  values ← parse_list parse_value "Too many values (max 32)" "Expected ',' or ')' in value list" 32
  finish_insert name values
