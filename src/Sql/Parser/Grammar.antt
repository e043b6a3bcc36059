-- ===== src/Sql/Parser/Grammar.antt =====
-- The grammar of the statements, apart from the parser: syntax trees, the words of each, and the
-- structure of src/sql/parser.h that each stands for. A name may be of any length; the structures
-- keep 63 characters of it, and 255 of a quoted text.
use amidb.Base.{
  ℕ, ◌+◌, ◌^◌, ◌≤◌, ◌<◌, Bool, true, false, Option, none, some, List, [], ◌∷◌, ◌++◌, map,
  if◌then◌else◌, length, take,
}
use amidb.Sql.Parser.Ast.{
  sql_type_integer, sql_type_text, sql_type_blob, sql_value_integer, sql_value_text, sql_value_null,
  SqlColumnDef, SqlValue, SqlWhere, SqlOrderBy, SqlStatement, create_table, drop_table, insert,
  select, empty_value, no_where, no_order, no_limit,
}

-- What counts of a token: keywords and symbols by their number.
pub data Word : Type 0 where
  kw sym num : ℕ → Word
  name quote : List ℕ → Word
  stop : Word

pub data DataType : Type 0 where
  integer_type text_type blob_type : DataType

pub record Column : Type 0 where
  pub label : List ℕ
  pub type : DataType
  pub primary : Bool

pub data Literal : Type 0 where
  number : ℕ → Literal
  quoted : List ℕ → Literal
  null : Literal

pub data Comparison : Type 0 where
  eq ne lt le gt ge : Comparison

pub record Condition : Type 0 where
  pub column : List ℕ
  pub comparison : Comparison
  pub literal : Literal

pub data Direction : Type 0 where
  unsaid ascending descending : Direction

pub record Order : Type 0 where
  pub column : List ℕ
  pub direction : Direction

pub data Function : Type 0 where
  count sum avg min max : Function

pub data Selected : Type 0 where
  all count_all : Selected
  aggregate : Function → List ℕ → Selected

-- A nonempty list, as its head and its tail, stands between the parentheses.
pub data Query : Type 0 where
  create : List ℕ → Column → List Column → Query
  drop : List ℕ → Query
  insert_into : List ℕ → Literal → List Literal → Query
  select_from : Selected → List ℕ → Option Condition → Option Order → Option ℕ → Query

abbrev pub word_of_type : DataType → Word
word_of_type integer_type = kw 19
word_of_type text_type = kw 20
word_of_type blob_type = kw 21

abbrev pub words_of_primary : Bool → List Word
words_of_primary true = kw 17 ∷ kw 18 ∷ []
words_of_primary false = []

abbrev pub words_of_column : Column → List Word
words_of_column c = name c.label ∷ word_of_type c.type ∷ words_of_primary c.primary

abbrev pub word_of_literal : Literal → Word
word_of_literal (number n) = num n
word_of_literal (quoted s) = quote s
word_of_literal null = kw 22

abbrev pub words_of_literal : Literal → List Word
words_of_literal v = word_of_literal v ∷ []

-- The rest of a list in parentheses, the closing one included.
abbrev pub words_of_more : {A : Type 0} → (A → List Word) → List A → List Word
words_of_more words [] = sym 41 ∷ []
words_of_more words (x ∷ xs) = sym 44 ∷ (words x ++ words_of_more words xs)

abbrev pub words_of_list : {A : Type 0} → (A → List Word) → A → List A → List Word
words_of_list words x xs = words x ++ words_of_more words xs

abbrev pub word_of_comparison : Comparison → Word
word_of_comparison eq = sym 61
word_of_comparison ne = sym 258
word_of_comparison lt = sym 60
word_of_comparison le = sym 256
word_of_comparison gt = sym 62
word_of_comparison ge = sym 257

abbrev pub words_of_condition : Option Condition → List Word
words_of_condition none = []
words_of_condition (some c) =
    kw 10 ∷ name c.column ∷ word_of_comparison c.comparison ∷ word_of_literal c.literal ∷ []

abbrev pub words_of_direction : Direction → List Word
words_of_direction unsaid = []
words_of_direction ascending = kw 26 ∷ []
words_of_direction descending = kw 27 ∷ []

abbrev pub words_of_order : Option Order → List Word
words_of_order none = []
words_of_order (some o) = kw 14 ∷ kw 15 ∷ name o.column ∷ words_of_direction o.direction

abbrev pub words_of_limit : Option ℕ → List Word
words_of_limit none = []
words_of_limit (some n) = kw 16 ∷ num n ∷ []

abbrev pub word_of_function : Function → Word
word_of_function count = kw 28
word_of_function sum = kw 29
word_of_function avg = kw 30
word_of_function min = kw 31
word_of_function max = kw 32

abbrev pub words_of_selected : Selected → List Word
words_of_selected all = sym 42 ∷ []
words_of_selected count_all = kw 28 ∷ sym 40 ∷ sym 42 ∷ sym 41 ∷ []
words_of_selected (aggregate f column) = word_of_function f ∷ sym 40 ∷ name column ∷ sym 41 ∷ []

unfoldable pub words_of : Query → List Word
words_of (create table c cs) =
    kw 5 ∷ kw 7 ∷ name table ∷ sym 40 ∷ words_of_list words_of_column c cs
words_of (drop table) = kw 6 ∷ kw 7 ∷ name table ∷ []
words_of (insert_into table v vs) =
    kw 2 ∷ kw 11 ∷ name table ∷ kw 12 ∷ sym 40 ∷ words_of_list words_of_literal v vs
words_of (select_from selected table condition order limit) =
    kw 1
    ∷ (words_of_selected selected
        ++ (kw 9
            ∷ name table
            ∷ (words_of_condition condition ++ (words_of_order order ++ words_of_limit limit))))

-- What the statements mean.
abbrev pub code_of_type : DataType → ℕ
code_of_type integer_type = sql_type_integer
code_of_type text_type = sql_type_text
code_of_type blob_type = sql_type_blob

abbrev pub column_def : Column → SqlColumnDef
column_def c = record {
  name = take 63 c.label;
  type = code_of_type c.type;
  is_primary_key = c.primary;
  not_null = false;
}

abbrev pub value_of : Literal → SqlValue
value_of (number n) = record empty_value { type = sql_value_integer; int_value = n }
value_of (quoted s) = record empty_value { type = sql_value_text; text_value = take 255 s }
value_of null = record empty_value { type = sql_value_null }

abbrev pub code_of_comparison : Comparison → ℕ
code_of_comparison eq = 1
code_of_comparison ne = 2
code_of_comparison lt = 3
code_of_comparison le = 4
code_of_comparison gt = 5
code_of_comparison ge = 6

abbrev pub where_of : Option Condition → SqlWhere
where_of none = no_where
where_of (some c) = record {
  column_name = take 63 c.column;
  op = code_of_comparison c.comparison;
  value = value_of c.literal;
  has_condition = true;
}

abbrev pub is_ascending : Direction → Bool
is_ascending descending = false
is_ascending unsaid = true
is_ascending ascending = true

abbrev pub order_of : Option Order → SqlOrderBy
order_of none = no_order
order_of (some o) = record {
  column_name = take 63 o.column;
  ascending = is_ascending o.direction;
  has_order = true;
}

abbrev pub limit_of : Option ℕ → ℕ
limit_of none = no_limit
limit_of (some n) = n

abbrev pub selects_all : Selected → Bool
selects_all all = true
selects_all count_all = false
selects_all (aggregate f column) = false

abbrev pub code_of_function : Function → ℕ
code_of_function count = 1
code_of_function sum = 3
code_of_function avg = 4
code_of_function min = 5
code_of_function max = 6

abbrev pub code_of_selected : Selected → ℕ
code_of_selected all = 0
code_of_selected count_all = 2
code_of_selected (aggregate f column) = code_of_function f

abbrev pub column_of_selected : Selected → List ℕ
column_of_selected all = []
column_of_selected count_all = []
column_of_selected (aggregate f column) = take 63 column

unfoldable pub meaning : Query → SqlStatement
meaning (create table c cs) = create_table record {
  table_name = take 63 table;
  column_count = length (c ∷ cs);
  columns = map column_def (c ∷ cs);
}
meaning (drop table) = drop_table record { table_name = take 63 table }
meaning (insert_into table v vs) = insert record {
  table_name = take 63 table;
  value_count = length (v ∷ vs);
  values = map value_of (v ∷ vs);
}
meaning (select_from selected table condition order limit) = select record {
  table_name = take 63 table;
  select_all = selects_all selected;
  column_count = 0;
  columns = [];
  where_clause = where_of condition;
  order_by = order_of order;
  limit = limit_of limit;
  aggregate = code_of_selected selected;
  agg_column = column_of_selected selected;
}

-- The bounds of the grammar: at most 32 columns and one primary key, at most 32 values, and a LIMIT
-- that is not negative.
abbrev pub primaries : List Column → ℕ
primaries [] = 0
primaries (c ∷ cs) = (if c.primary then 1 else 0) + primaries cs

abbrev pub InLimit : Option ℕ → Type 0
InLimit none = Unit
InLimit (some n) = n < 2 ^ 31

unfoldable pub IsQuery : Query → Type 0
IsQuery (create table c cs) = (length (c ∷ cs) ≤ 32) × primaries (c ∷ cs) ≤ 1
IsQuery (drop table) = Unit
IsQuery (insert_into table v vs) = length (v ∷ vs) ≤ 32
IsQuery (select_from selected table condition order limit) = InLimit limit
