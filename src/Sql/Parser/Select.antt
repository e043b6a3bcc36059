-- ===== src/Sql/Parser/Select.antt =====
-- SELECT in src/sql/parser.c: the aggregate functions, WHERE, ORDER BY and LIMIT.
-- The branches for SUM, AVG, MIN and MAX are one text in the source, up to the name.
use Prim.Native.String.{String}
use amidb.Base.{ℕ, ◌^◌, Bool, true, false, none, List, [], ◌++◌, if◌then◌else◌, leb, ◌==◌, take}
use amidb.Base.Effect.{Op, ◌>>=◌, ◌>>◌, return}
use amidb.Sql.Lexer.Defs.{eof, keyword, identifier, integer, symbol}
use amidb.Sql.Parser.Ast.{SqlWhere, SqlOrderBy, SqlStatement, select, no_where, no_order, no_limit}
use amidb.Sql.Parser.State.{
  step, take_current, branch, is_type, codes, SqlParser, parser_advance, match_keyword,
  match_symbol, set_error, expect_keyword, expect_identifier, refuse,
}
use amidb.Sql.Parser.Statements.{
  parse_value, optional_semicolon, parse_create_table, parse_drop_table, parse_insert,
}

-- What is selected: `select_all`, `aggregate` and `agg_column`.
pub record Target : Type 0 where
  pub select_all : Bool
  pub aggregate : ℕ
  pub agg_column : List ℕ

-- A symbol that an error of its own stands for.
unfoldable pub demand_symbol : ℕ → List ℕ → Op SqlParser (Unit {0})
unfolding branch match_symbol parser_advance set_error
demand_symbol id message =
    branch (match_symbol id) step (λ parser. (set_error message parser, none))

unfoldable pub demand_column : List ℕ → Op SqlParser (List ℕ)
unfolding branch parser_advance set_error
demand_column message =
    branch (is_type identifier) (take_current >>= λ token. return (take 63 token.text))
      (λ parser. (set_error message parser, none))

unfoldable pub parse_count_argument : Op SqlParser Target
unfolding branch match_symbol parser_advance demand_column
parse_count_argument =
    branch (match_symbol 42)
      (step >> return record { select_all = false; aggregate = 2; agg_column = [] })
      (demand_column (codes "Expected '*' or column name in COUNT()") >>= λ column.
        return record { select_all = false; aggregate = 1; agg_column = column })

unfoldable pub parse_count : Op SqlParser Target
unfolding parser_advance demand_symbol parse_count_argument
parse_count = do
  step
  demand_symbol 40 (codes "Expected '(' after COUNT")
  target ← parse_count_argument
  demand_symbol 41 (codes "Expected ')' after COUNT argument")
  return target

unfoldable pub parse_aggregate : String → ℕ → Op SqlParser Target
unfolding parser_advance demand_symbol demand_column
parse_aggregate name aggregate = do
  step
  demand_symbol 40 (codes "Expected '(' after " ++ codes name)
  column ← demand_column (codes "Expected column name in " ++ (codes name ++ codes "()"))
  demand_symbol 41 (codes "Expected ')' after " ++ (codes name ++ codes " argument"))
  return record { select_all = false; aggregate = aggregate; agg_column = column }

unfoldable pub parse_target : Op SqlParser Target
unfolding branch match_keyword match_symbol parser_advance parse_count parse_aggregate
parse_target = branch (match_keyword 28) parse_count (
    branch (match_keyword 29) (parse_aggregate "SUM" 3) (
      branch (match_keyword 30) (parse_aggregate "AVG" 4) (
        branch (match_keyword 31) (parse_aggregate "MIN" 5) (
          branch (match_keyword 32) (parse_aggregate "MAX" 6) (
            branch (match_symbol 42)
              (step >> return record { select_all = true; aggregate = 0; agg_column = [] })
              (refuse "Expected '*', COUNT(), SUM(), AVG(), MIN(), or MAX() after SELECT"))))))

-- A case of the switch over symbols: the operator, and the cases behind it.
abbrev operator_of : ℕ → ℕ → Op SqlParser ℕ → Op SqlParser ℕ
operator_of id op others =
    branch (λ parser. parser.current.symbol_id == id) (step >> return op) others

unfoldable pub parse_operator : Op SqlParser ℕ
unfolding branch parser_advance
parse_operator =
    branch (is_type symbol)
      (operator_of 61 1 (
        operator_of 258 2 (
          operator_of 60 3 (
            operator_of 256 4
              (operator_of 62 5 (operator_of 257 6 (refuse "Invalid comparison operator")))))))
      (refuse "Expected comparison operator (=, !=, <, <=, >, >=)")

unfoldable pub parse_where : Op SqlParser SqlWhere
unfolding expect_keyword expect_identifier parse_operator parse_value
parse_where = do
  expect_keyword 10
  column ← expect_identifier
  op ← parse_operator
  value ← parse_value
  return record { column_name = column; op = op; value = value; has_condition = true }

unfoldable pub optional_where : Op SqlParser SqlWhere
unfolding branch match_keyword parse_where
optional_where = branch (match_keyword 10) parse_where (return no_where)

-- ASC, DESC or nothing.
unfoldable pub parse_direction : Op SqlParser Bool
unfolding branch match_keyword parser_advance
parse_direction =
    branch (match_keyword 26) (step >> return true)
      (branch (match_keyword 27) (step >> return false) (return true))

unfoldable pub parse_order : Op SqlParser SqlOrderBy
unfolding parser_advance expect_keyword expect_identifier parse_direction
parse_order = do
  step
  expect_keyword 15
  column ← expect_identifier
  ascending ← parse_direction
  return record { column_name = column; ascending = ascending; has_order = true }

unfoldable pub optional_order : Op SqlParser SqlOrderBy
unfolding branch match_keyword parse_order
optional_order = branch (match_keyword 14) parse_order (return no_order)

unfoldable pub demand_integer : Op SqlParser ℕ
unfolding branch parser_advance
demand_integer =
    branch (is_type integer) (take_current >>= λ token. return token.int_value)
      (refuse "LIMIT requires an integer value")

unfoldable pub parse_limit : Op SqlParser ℕ
unfolding parser_advance demand_integer
parse_limit = do
  step
  limit ← demand_integer
  if leb (2 ^ 31) limit then refuse "LIMIT must be non-negative" else return limit

unfoldable pub optional_limit : Op SqlParser ℕ
unfolding branch match_keyword parse_limit
optional_limit = branch (match_keyword 16) parse_limit (return no_limit)

unfoldable pub parse_select : Op SqlParser SqlStatement
unfolding expect_keyword parse_target expect_identifier optional_where optional_order optional_limit
    optional_semicolon
parse_select = do
  expect_keyword 1
  target ← parse_target
  expect_keyword 9
  table ← expect_identifier
  condition ← optional_where
  order ← optional_order
  limit ← optional_limit
  optional_semicolon
  return (
      select record {
        table_name = table;
        select_all = target.select_all;
        column_count = 0;
        columns = [];
        where_clause = condition;
        order_by = order;
        limit = limit;
        aggregate = target.aggregate;
        agg_column = target.agg_column;
      })

-- A case of the switch over keywords, and the cases behind it.
abbrev pub statement_of :
    ℕ → Op SqlParser SqlStatement → Op SqlParser SqlStatement → Op SqlParser SqlStatement
statement_of id parse others = branch (λ parser. parser.current.keyword_id == id) parse others

-- The statement that the first keyword tells.
unfoldable pub parser_parse_statement : Op SqlParser SqlStatement
unfolding branch parse_create_table parse_drop_table parse_insert parse_select
parser_parse_statement = branch (is_type eof) (refuse "Unexpected end of input") (
    branch (is_type keyword)
      (statement_of 5 parse_create_table (
        statement_of 6 parse_drop_table (
          statement_of 2 parse_insert (
            statement_of 1 parse_select (
              statement_of 3 (refuse "UPDATE not yet implemented") (
                statement_of 4 (refuse "DELETE not yet implemented")
                  (refuse "Unknown SQL statement")))))))
      (refuse "Expected SQL keyword"))
