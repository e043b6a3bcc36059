-- ===== src/Sql/Parser/Ast.antt =====
-- The statements of src/sql/parser.h. A text in an array of characters is the list of its characters;
-- integers are given by their bit patterns, so that a LIMIT of -1 is `no_limit`. The statements UPDATE
-- and DELETE have structures there that nothing fills.
use amidb.Base.{ℕ, ◌-◌, ◌^◌, Bool, false, List, []}

-- SQL_TYPE_*, SQL_VALUE_*, SQL_OP_* and SQL_AGG_*.
abbrev pub sql_type_integer : ℕ
sql_type_integer = 1

abbrev pub sql_type_text : ℕ
sql_type_text = 2

abbrev pub sql_type_blob : ℕ
sql_type_blob = 3

abbrev pub sql_value_integer : ℕ
sql_value_integer = 1

abbrev pub sql_value_text : ℕ
sql_value_text = 2

abbrev pub sql_value_null : ℕ
sql_value_null = 4

pub record SqlColumnDef : Type 0 where
  pub name : List ℕ
  pub type : ℕ
  pub is_primary_key : Bool
  pub not_null : Bool

pub record SqlCreateTable : Type 0 where
  pub table_name : List ℕ
  pub column_count : ℕ
  pub columns : List SqlColumnDef

pub record SqlDropTable : Type 0 where
  pub table_name : List ℕ

pub record SqlValue : Type 0 where
  pub type : ℕ
  pub int_value : ℕ
  pub text_value : List ℕ
  pub blob_value : List ℕ
  pub blob_length : ℕ

pub record SqlInsert : Type 0 where
  pub table_name : List ℕ
  pub value_count : ℕ
  pub values : List SqlValue

pub record SqlWhere : Type 0 where
  pub column_name : List ℕ
  pub op : ℕ
  pub value : SqlValue
  pub has_condition : Bool

pub record SqlOrderBy : Type 0 where
  pub column_name : List ℕ
  pub ascending : Bool
  pub has_order : Bool

pub record SqlSelect : Type 0 where
  pub table_name : List ℕ
  pub select_all : Bool
  pub column_count : ℕ
  pub columns : List (List ℕ)
  pub where_clause : SqlWhere
  pub order_by : SqlOrderBy
  pub limit : ℕ
  pub aggregate : ℕ
  pub agg_column : List ℕ

pub data SqlStatement : Type 0 where
  create_table : SqlCreateTable → SqlStatement
  drop_table : SqlDropTable → SqlStatement
  insert : SqlInsert → SqlStatement
  select : SqlSelect → SqlStatement

-- The structures after `memset`.
abbrev pub empty_value : SqlValue
empty_value = record { type = 0; int_value = 0; text_value = []; blob_value = []; blob_length = 0 }

abbrev pub no_where : SqlWhere
no_where = record { column_name = []; op = 0; value = empty_value; has_condition = false }

abbrev pub no_order : SqlOrderBy
no_order = record { column_name = []; ascending = false; has_order = false }

abbrev pub no_limit : ℕ
no_limit = 2 ^ 32 - 1
