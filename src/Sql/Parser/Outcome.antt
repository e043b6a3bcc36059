-- ===== src/Sql/Parser/Outcome.antt =====
-- The parser's result and its error flag go together.
use Prim.Native.String.{String}
use amidb.Base.{ℕ, ◌≡◌, refl, ◌⊎◌, Option, some, none, List, [], ◌∷◌, ◌++◌, inl, inr}
use amidb.Sql.Parser.Ast.{SqlStatement}
use amidb.Sql.Parser.State.{SqlParser, branch, parser_advance}
use amidb.Sql.Parser.Select.{
  demand_symbol, demand_column, parse_count_argument, parse_count, parse_aggregate, parse_target,
  parse_operator, parse_where, optional_where, parse_direction, parse_order, optional_order,
  demand_integer, parse_limit, optional_limit, parse_select, parser_parse_statement,
}
use amidb.Sql.Parser.Grammar.{Word, words_of}
use amidb.Sql.Parser.Reads.{after}
use amidb.Sql.Parser.CompleteClauses.{ending}
use amidb.Sql.Parser.SoundAll.{parser_parse_statement-Accepts}
use amidb.Sql.Parser.Errors.{
  Fails, Complains, failures, expect_keyword-Fails, expect_identifier-Fails, parse_value-Fails,
  optional_semicolon-Fails, parse_create_table-Fails, parse_drop_table-Fails, parse_insert-Fails,
}

demand_symbol-Fails :
    (id : ℕ) (message : List ℕ) (p : SqlParser) → Fails (demand_symbol id message p)
unfolding demand_symbol branch
demand_symbol-Fails id message p = search failures

demand_column-Fails : (message : List ℕ) (p : SqlParser) → Fails (demand_column message p)
unfolding demand_column branch
demand_column-Fails message p = search failures

parse_count_argument-Fails : (p : SqlParser) → Fails (parse_count_argument p)
unfolding parse_count_argument branch
parse_count_argument-Fails p = search (failures, demand_column-Fails)

parse_count-Fails : (p : SqlParser) → Fails (parse_count p)
unfolding parse_count
parse_count-Fails p = search (failures, demand_symbol-Fails, parse_count_argument-Fails)

parse_aggregate-Fails : (title : String) (k : ℕ) (p : SqlParser) → Fails (parse_aggregate title k p)
unfolding parse_aggregate
parse_aggregate-Fails title k p = search (failures, demand_symbol-Fails, demand_column-Fails)

parse_target-Fails : (p : SqlParser) → Fails (parse_target p)
unfolding parse_target branch
parse_target-Fails p = search (failures, parse_count-Fails, parse_aggregate-Fails) depth 14

parse_operator-Fails : (p : SqlParser) → Fails (parse_operator p)
unfolding parse_operator branch
parse_operator-Fails p = search failures depth 14

parse_where-Fails : (p : SqlParser) → Fails (parse_where p)
unfolding parse_where
parse_where-Fails p = search (
  failures, expect_keyword-Fails, expect_identifier-Fails, parse_operator-Fails, parse_value-Fails,
)

optional_where-Fails : (p : SqlParser) → Fails (optional_where p)
unfolding optional_where branch
optional_where-Fails p = search (failures, parse_where-Fails)

parse_direction-Fails : (p : SqlParser) → Fails (parse_direction p)
unfolding parse_direction branch
parse_direction-Fails p = search failures

parse_order-Fails : (p : SqlParser) → Fails (parse_order p)
unfolding parse_order
parse_order-Fails p =
    search (failures, expect_keyword-Fails, expect_identifier-Fails, parse_direction-Fails)

optional_order-Fails : (p : SqlParser) → Fails (optional_order p)
unfolding optional_order branch
optional_order-Fails p = search (failures, parse_order-Fails)

demand_integer-Fails : (p : SqlParser) → Fails (demand_integer p)
unfolding demand_integer branch
demand_integer-Fails p = search failures

parse_limit-Fails : (p : SqlParser) → Fails (parse_limit p)
unfolding parse_limit
parse_limit-Fails p = search (failures, demand_integer-Fails)

optional_limit-Fails : (p : SqlParser) → Fails (optional_limit p)
unfolding optional_limit branch
optional_limit-Fails p = search (failures, parse_limit-Fails)

parse_select-Fails : (p : SqlParser) → Fails (parse_select p)
unfolding parse_select
parse_select-Fails p =
    search
      (
        failures, expect_keyword-Fails, parse_target-Fails, expect_identifier-Fails,
        optional_where-Fails, optional_order-Fails, optional_limit-Fails, optional_semicolon-Fails,
      )
      depth 16

pub parser_parse_statement-Fails : (p : SqlParser) → Fails (parser_parse_statement p)
unfolding parser_parse_statement branch
parser_parse_statement-Fails p =
    search
      (
        failures, parse_create_table-Fails, parse_drop_table-Fails, parse_insert-Fails,
        parse_select-Fails,
      )
      depth 16

-- The words that a parser takes leave its error alone.
after-has_error : (ws : List Word) (p : SqlParser) → (after ws p).has_error ≡ p.has_error
unfolding parser_advance
after-has_error [] p = refl
after-has_error (w ∷ ws) p = after-has_error ws (parser_advance p)

after-error_msg : (ws : List Word) (p : SqlParser) → (after ws p).error_msg ≡ p.error_msg
unfolding parser_advance
after-error_msg [] p = refl
after-error_msg (w ∷ ws) p = after-error_msg ws (parser_advance p)

-- Either the parser returns -1, and then the error flag is set and the message has at most 255
-- characters; or it returns 0, and then the flag and the message are what they were.
pub parser_parse_statement-has_error :
    (p : SqlParser)
    → let (p', result) = parser_parse_statement p in
      ((result ≡ none) × Complains p'
        ⊎ (s : SqlStatement) × (result ≡ some s)
          × (p'.has_error ≡ p.has_error)
          × p'.error_msg ≡ p.error_msg)
parser_parse_statement-has_error p = split (parser_parse_statement p) refl
  where
    split :
        (r : SqlParser × Option SqlStatement)
        → parser_parse_statement p ≡ r
        → (r.1 ≡ none) × Complains r.0
          ⊎ (s : SqlStatement) × (r.1 ≡ some s)
            × (r.0.has_error ≡ p.has_error)
            × r.0.error_msg ≡ p.error_msg
    split (p', none) e = inl (refl, (parser_parse_statement-Fails p).failed p' e)
    split (p', some s) e =
        let (q, semi, ok, h, e1, e2) = parser_parse_statement-Accepts p p' s e in
        let ws = words_of q ++ ending semi in
        inr (s, refl, rw e1 (after-has_error ws p), rw e1 (after-error_msg ws p))
