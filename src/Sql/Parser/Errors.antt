-- ===== src/Sql/Parser/Errors.antt =====
-- A statement that is not parsed leaves an error and its message behind.
use Prim.Native.String.{String}
use mathlib.Core.Path.{subst}
use amidb.Base.{
  ℕ, zero, suc, ◌≤◌, ◌≡◌, refl, Bool, true, false, Option, some, none, List, [], ◌∷◌, arith, take,
  length, if◌then◌else◌,
}
use amidb.Base.Effect.{Op, and_then}
use amidb.Sql.Parser.Ast.{SqlColumnDef, SqlValue}
use amidb.Sql.Parser.State.{
  set_error, SqlParser, branch, expect_keyword, expect_symbol, expect_identifier,
}
use amidb.Sql.Parser.Statements.{
  parse_data_type, parse_primary_key, parse_column_def, parse_value, parse_list, parse_columns,
  parse_values, optional_semicolon, finish_create, finish_insert, parse_create_table,
  parse_drop_table, parse_insert,
}

-- The error that stands in the parser.
abbrev pub Complains : SqlParser → Type 0
Complains p = (p.has_error ≡ true) × length p.error_msg ≤ 255

-- Where a run fails, it complains.
pub record Fails {A : Type 0} (r : SqlParser × Option A) : Type 0 where
  pub failed : (p' : SqlParser) → r ≡ (p', none) → Complains p'

length-take : (n : ℕ) (xs : List ℕ) → length (take n xs) ≤ n
length-take zero xs = omega arith
length-take (suc n) [] = omega arith
length-take (suc n) (x ∷ xs) = omega (arith, length-take n xs)

module _ {A : Type 0} where
  pub set_error-Fails :
      (message : List ℕ) (p : SqlParser) → Fails {A = A} (set_error message p, none)
  unfolding set_error
  set_error-Fails message p = record {
    failed = λ p' e.
        let e' : set_error message p ≡ p' = cc in
        subst Complains e' (refl, length-take 255 message);
  }

  pub some-Fails : (p : SqlParser) (a : A) → Fails (p, some a)
  some-Fails p a = record { failed = λ p' e. cc }

  pub if-Fails :
      (b : Bool) (m n : Op SqlParser A) {p : SqlParser}
      → Fails (m p)
      → Fails (n p)
      → Fails ((if b then m else n) p)
  if-Fails true m n x y = x
  if-Fails false m n x y = y

  pub choose-Fails :
      (b : Bool) (x y : SqlParser × Option A) → Fails x → Fails y → Fails (if b then x else y)
  choose-Fails true m n x y = x
  choose-Fails false m n x y = y

pub bind-Fails :
    {A B : Type 0} (r : SqlParser × Option A) (f : A → Op SqlParser B)
    → Fails r
    → ((a : A) (p : SqlParser) → Fails (f a p))
    → Fails (and_then r f)
bind-Fails (q, some a) f first rest = rest a q
bind-Fails (q, none) f first rest = record { failed = λ p' e. first.failed p' (cc) }

pub ruleset failures = (set_error-Fails, some-Fails, if-Fails, choose-Fails, bind-Fails)

pub expect_keyword-Fails : (id : ℕ) (p : SqlParser) → Fails (expect_keyword id p)
unfolding expect_keyword
expect_keyword-Fails id p = search failures

pub expect_symbol-Fails : (id : ℕ) (p : SqlParser) → Fails (expect_symbol id p)
unfolding expect_symbol
expect_symbol-Fails id p = search failures

pub expect_identifier-Fails : (p : SqlParser) → Fails (expect_identifier p)
unfolding expect_identifier
expect_identifier-Fails p = search failures

pub parse_data_type-Fails : (p : SqlParser) → Fails (parse_data_type p)
unfolding parse_data_type branch
parse_data_type-Fails p = search failures

pub parse_primary_key-Fails : (p : SqlParser) → Fails (parse_primary_key p)
unfolding parse_primary_key branch
parse_primary_key-Fails p = search (failures, expect_keyword-Fails)

pub parse_column_def-Fails : (p : SqlParser) → Fails (parse_column_def p)
unfolding parse_column_def
parse_column_def-Fails p =
    search (failures, expect_identifier-Fails, parse_data_type-Fails, parse_primary_key-Fails)

pub parse_value-Fails : (p : SqlParser) → Fails (parse_value p)
unfolding parse_value branch
parse_value-Fails p = search failures

pub optional_semicolon-Fails : (p : SqlParser) → Fails (optional_semicolon p)
unfolding optional_semicolon branch
optional_semicolon-Fails p = search failures

pub parse_list-Fails :
    {A : Type 0} (item : Op SqlParser A) (too_many expected : String)
    → ((p : SqlParser) → Fails (item p))
    → (n : ℕ) (p : SqlParser) → Fails (parse_list item too_many expected n p)
unfolding parse_list branch
parse_list-Fails item too_many expected h zero p = search failures
parse_list-Fails item too_many expected h (suc n) p =
    let ih = parse_list-Fails item too_many expected h n in search (failures, h, ih)

pub parse_columns-Fails : (p : SqlParser) → Fails (parse_columns p)
unfolding parse_columns
parse_columns-Fails p =
    parse_list-Fails parse_column_def "Too many columns (max 32)"
      "Expected ',' or ')' in column list" parse_column_def-Fails 32 p

pub parse_values-Fails : (p : SqlParser) → Fails (parse_values p)
unfolding parse_values
parse_values-Fails p =
    parse_list-Fails parse_value "Too many values (max 32)" "Expected ',' or ')' in value list"
      parse_value-Fails 32 p

pub finish_create-Fails :
    (name : List ℕ) (l : List SqlColumnDef) (p : SqlParser) → Fails (finish_create name l p)
unfolding finish_create
finish_create-Fails name l p = search (failures, optional_semicolon-Fails)

pub finish_insert-Fails :
    (name : List ℕ) (l : List SqlValue) (p : SqlParser) → Fails (finish_insert name l p)
unfolding finish_insert
finish_insert-Fails name l p = search (failures, optional_semicolon-Fails)

pub parse_create_table-Fails : (p : SqlParser) → Fails (parse_create_table p)
unfolding parse_create_table
parse_create_table-Fails p =
    search
      (
        failures, expect_keyword-Fails, expect_symbol-Fails, expect_identifier-Fails,
        parse_columns-Fails, finish_create-Fails,
      )
      depth 14

pub parse_drop_table-Fails : (p : SqlParser) → Fails (parse_drop_table p)
unfolding parse_drop_table
parse_drop_table-Fails p =
    search (failures, expect_keyword-Fails, expect_identifier-Fails, optional_semicolon-Fails)

pub parse_insert-Fails : (p : SqlParser) → Fails (parse_insert p)
unfolding parse_insert
parse_insert-Fails p =
    search
      (
        failures, expect_keyword-Fails, expect_symbol-Fails, expect_identifier-Fails,
        parse_values-Fails, finish_insert-Fails,
      )
      depth 14
