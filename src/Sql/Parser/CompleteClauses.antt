-- ===== src/Sql/Parser/CompleteClauses.antt =====
-- WHERE, ORDER BY, LIMIT and the end of a statement are read as they are meant.
use amidb.Base.{
  ℕ, ◌^◌, ◌<◌, ◌≡◌, refl, ◌∙◌, ap, Bool, true, false, Option, none, some, List, [], ◌∷◌, ◌++◌, ◌==◌,
  arith, if◌then◌else◌, leb,
}
use amidb.Base.Effect.{Op, return}
use amidb.Sql.Lexer.Defs.{integer}
use amidb.Sql.Parser.Ast.{no_where, no_order, no_limit}
use amidb.Sql.Parser.State.{SqlParser, branch, match_keyword, refuse}
use amidb.Sql.Parser.Statements.{optional_semicolon}
use amidb.Sql.Parser.Select.{
  parse_operator, parse_where, optional_where, parse_direction, parse_order, optional_order,
  demand_integer, parse_limit, optional_limit,
}
use amidb.Sql.Parser.Grammar.{
  Word, kw, sym, num, name, stop, Comparison, eq, ne, lt, le, gt, ge, Condition, Direction, unsaid,
  ascending, descending, Order, word_of_comparison, code_of_comparison, word_of_literal,
  words_of_condition, where_of, words_of_direction, is_ascending, words_of_order, order_of,
  words_of_limit, limit_of, InLimit,
}
use amidb.Sql.Parser.Reads.{
  Reads, bind-Reads, then-Reads, last-Reads, take-Reads, yes-Reads, no-Reads, step-Reads,
  return-Reads, is_type-Is, is_symbol, match_keyword-Is, match_symbol-Is, expect_keyword-Reads,
  expect_identifier-Reads,
}
use amidb.Sql.Parser.Complete.{Unlike, parse_value-Reads}

-- Whether a statement ends in a semicolon, and what then stands behind it: anything, or else the end
-- of the text.
abbrev pub ending : Bool → List Word
ending true = sym 59 ∷ []
ending false = []

abbrev pub Ends : Bool → List Word → Type 0
Ends true rest = Unit
Ends false [] = ⊥
Ends false (w ∷ rest) = w ≡ stop

pub Unlike-ending :
    (id : ℕ) (semi : Bool) (rest : List Word) → Ends semi rest → Unlike id (ending semi ++ rest)
Unlike-ending id true rest e = refl
Unlike-ending id false [] e = absurd e
Unlike-ending id false (w ∷ rest) e = rw e refl

pub optional_semicolon-Reads :
    (semi : Bool) (rest : List Word)
    → Ends semi rest
    → Reads optional_semicolon (ending semi) rest tt
unfolding optional_semicolon
optional_semicolon-Reads true rest e =
    yes-Reads _ (λ p h. match_symbol-Is 59 (sym 59) p h.0) (step-Reads (sym 59) _)
optional_semicolon-Reads false [] e = absurd e
optional_semicolon-Reads false (w ∷ rest) e =
    no-Reads _ (λ p h. match_symbol-Is 59 w p h.0 ∙ ap (is_symbol 59) e) (return-Reads tt _)

-- What no keyword `id` begins, behind an optional clause that another keyword begins.
pub Unlike-limit :
    (id : ℕ) (l : Option ℕ) (tail rest : List Word)
    → (16 == id) ≡ false
    → Unlike id (tail ++ rest)
    → Unlike id ((words_of_limit l ++ tail) ++ rest)
Unlike-limit id none tail rest e h = h
Unlike-limit id (some n) tail rest e h = e

pub Unlike-order :
    (id : ℕ) (o : Option Order) (tail rest : List Word)
    → (14 == id) ≡ false
    → Unlike id (tail ++ rest)
    → Unlike id ((words_of_order o ++ tail) ++ rest)
Unlike-order id none tail rest e h = h
Unlike-order id (some o) tail rest e h = e

-- A clause that is not there.
no_clause :
    {A : Type 0} (m : Op SqlParser A) (id : ℕ) (a : A) (rest : List Word)
    → Unlike id rest
    → Reads (branch (match_keyword id) m (return a)) [] rest a
no_clause m id a [] h = absurd h
no_clause m id a (w ∷ rest) h =
    no-Reads _ (λ p e. match_keyword-Is id w p e.0 ∙ h) (return-Reads a _)

demand_integer-Reads : (n : ℕ) (rest : List Word) → Reads demand_integer (num n ∷ []) rest n
unfolding demand_integer
demand_integer-Reads n rest =
    yes-Reads _ (λ p h. is_type-Is integer (num n) p h.0) (take-Reads _ (num n) _ λ t e. e.1)

leb-small : (n : ℕ) → n < 2 ^ 31 → leb (2 ^ 31) n ≡ false
leb-small n h = ground arith

bounded-Reads :
    (n : ℕ) (rest : List Word)
    → n < 2 ^ 31
    → Reads (if leb (2 ^ 31) n then refuse "LIMIT must be non-negative" else return n) [] rest n
bounded-Reads n rest bound = rw (leb-small n bound) (return-Reads n rest)

parse_limit-Reads :
    (n : ℕ) (rest : List Word) → n < 2 ^ 31 → Reads parse_limit (kw 16 ∷ num n ∷ []) rest n
unfolding parse_limit
parse_limit-Reads n rest bound =
    then-Reads (kw 16 ∷ []) (num n ∷ []) (step-Reads (kw 16) _)
      (bind-Reads _ (num n ∷ []) [] (demand_integer-Reads n _) (bounded-Reads n rest bound))

pub optional_limit-Reads :
    (l : Option ℕ) (rest : List Word)
    → InLimit l
    → Unlike 16 rest
    → Reads optional_limit (words_of_limit l) rest (limit_of l)
unfolding optional_limit
optional_limit-Reads none rest bound other = no_clause _ 16 no_limit rest other
optional_limit-Reads (some n) rest bound other =
    yes-Reads _ (λ p h. match_keyword-Is 16 (kw 16) p h.0) (parse_limit-Reads n rest bound)

-- One comparison of the switch.
parse_operator-Reads :
    (c : Comparison) (rest : List Word)
    → Reads parse_operator (word_of_comparison c ∷ []) rest (code_of_comparison c)
unfolding parse_operator branch
parse_operator-Reads eq rest = record { run = λ p h. rw (h.0.0, h.0.1) refl }
parse_operator-Reads ne rest = record { run = λ p h. rw (h.0.0, h.0.1) refl }
parse_operator-Reads lt rest = record { run = λ p h. rw (h.0.0, h.0.1) refl }
parse_operator-Reads le rest = record { run = λ p h. rw (h.0.0, h.0.1) refl }
parse_operator-Reads gt rest = record { run = λ p h. rw (h.0.0, h.0.1) refl }
parse_operator-Reads ge rest = record { run = λ p h. rw (h.0.0, h.0.1) refl }

parse_where-Reads :
    (c : Condition) (rest : List Word)
    → Reads parse_where (words_of_condition (some c)) rest (where_of (some c))
unfolding parse_where
parse_where-Reads c rest =
    then-Reads (kw 10 ∷ [])
      (name c.column ∷ word_of_comparison c.comparison ∷ word_of_literal c.literal ∷ [])
      (expect_keyword-Reads 10 _)
      (bind-Reads _ (name c.column ∷ [])
        (word_of_comparison c.comparison ∷ word_of_literal c.literal ∷ [])
        (expect_identifier-Reads c.column _)
        (bind-Reads _ (word_of_comparison c.comparison ∷ []) (word_of_literal c.literal ∷ [])
          (parse_operator-Reads c.comparison _) (last-Reads _ (parse_value-Reads c.literal _))))

pub optional_where-Reads :
    (c : Option Condition) (rest : List Word)
    → Unlike 10 rest
    → Reads optional_where (words_of_condition c) rest (where_of c)
unfolding optional_where
optional_where-Reads none rest other = no_clause _ 10 no_where rest other
optional_where-Reads (some c) rest other =
    yes-Reads _ (λ p h. match_keyword-Is 10 (kw 10) p h.0) (parse_where-Reads c rest)

parse_direction-Reads :
    (d : Direction) (rest : List Word)
    → Unlike 26 rest
    → Unlike 27 rest
    → Reads parse_direction (words_of_direction d) rest (is_ascending d)
unfolding parse_direction
parse_direction-Reads ascending rest other other' =
    yes-Reads _ (λ p h. match_keyword-Is 26 (kw 26) p h.0)
      (last-Reads (λ _. true) (step-Reads (kw 26) _))
parse_direction-Reads descending rest other other' =
    no-Reads _ (λ p h. match_keyword-Is 26 (kw 27) p h.0)
      (yes-Reads _ (λ p h. match_keyword-Is 27 (kw 27) p h.0)
        (last-Reads (λ _. false) (step-Reads (kw 27) _)))
parse_direction-Reads unsaid [] other other' = absurd other
parse_direction-Reads unsaid (w ∷ rest) other other' =
    no-Reads _ (λ p h. match_keyword-Is 26 w p h.0 ∙ other) (no_clause _ 27 true (w ∷ rest) other')

parse_order-Reads :
    (o : Order) (rest : List Word)
    → Unlike 26 rest
    → Unlike 27 rest
    → Reads parse_order (words_of_order (some o)) rest (order_of (some o))
unfolding parse_order
parse_order-Reads o rest other other' =
    then-Reads (kw 14 ∷ []) (kw 15 ∷ name o.column ∷ words_of_direction o.direction)
      (step-Reads (kw 14) _)
      (then-Reads (kw 15 ∷ []) (name o.column ∷ words_of_direction o.direction)
        (expect_keyword-Reads 15 _)
        (bind-Reads _ (name o.column ∷ []) (words_of_direction o.direction)
          (expect_identifier-Reads o.column _)
          (last-Reads _ (parse_direction-Reads o.direction rest other other'))))

pub optional_order-Reads :
    (o : Option Order) (rest : List Word)
    → Unlike 14 rest
    → Unlike 26 rest
    → Unlike 27 rest
    → Reads optional_order (words_of_order o) rest (order_of o)
unfolding optional_order
optional_order-Reads none rest other asc desc = no_clause _ 14 no_order rest other
optional_order-Reads (some o) rest other asc desc =
    yes-Reads _ (λ p h. match_keyword-Is 14 (kw 14) p h.0) (parse_order-Reads o rest asc desc)
