-- ===== src/Sql/Parser/CompleteAll.antt =====
-- Every statement of the grammar is read as it is meant.
use mathlib.Core.List.{append_assoc}
use amidb.Base.{
  ℕ, suc, ◌≤◌, ◌≡◌, refl, ◌∙◌, ap, Bool, false, Option, some, List, [], ◌∷◌, ◌++◌, ◌==◌, arith,
  take, ltb, map, length,
}
use amidb.Sql.Lexer.Defs.{eof, keyword}
use amidb.Sql.Parser.State.{SqlParser}
use amidb.Sql.Parser.Statements.{
  parse_columns, parse_values, count_primary, finish_create, finish_insert, parse_create_table,
  parse_drop_table, parse_insert,
}
use amidb.Sql.Parser.Select.{parse_select, parser_parse_statement}
use amidb.Sql.Parser.Grammar.{
  Word, kw, sym, name, Column, Literal, Condition, Order, Selected, Query, create, drop,
  insert_into, select_from, words_of_column, words_of_literal, words_of_list, words_of_condition,
  words_of_order, words_of_limit, words_of_selected, words_of, column_def, value_of, meaning,
  primaries, InLimit, IsQuery,
}
use amidb.Sql.Parser.Reads.{
  Ahead, after, Reads, bind-Reads, then-Reads, last-Reads, yes-Reads, no-Reads, is_type-Is,
  expect_keyword-Reads, expect_symbol-Reads, expect_identifier-Reads,
}
use amidb.Sql.Parser.Complete.{parse_column_def-Reads, parse_value-Reads, parse_list-Reads}
use amidb.Sql.Parser.CompleteSelect.{parse_target-Reads}
use amidb.Sql.Parser.CompleteClauses.{
  ending, Ends, Unlike-ending, optional_semicolon-Reads, Unlike-limit, Unlike-order,
  optional_where-Reads, optional_order-Reads, optional_limit-Reads,
}

pub count_primary-map : (cs : List Column) → count_primary (map column_def cs) ≡ primaries cs
count_primary-map [] = refl
count_primary-map (c ∷ cs) = rw (count_primary-map cs) refl

pub length-map : {A B : Type 0} (f : A → B) (xs : List A) → length (map f xs) ≡ length xs
length-map f [] = refl
length-map f (x ∷ xs) = rw (length-map f xs) refl

some_items : (n : ℕ) → (suc n == 0) ≡ false
some_items n = ground arith

ltb-le : (n : ℕ) → n ≤ 1 → ltb 1 n ≡ false
ltb-le n h = ground arith

parse_drop_table-Reads :
    (table : List ℕ) (semi : Bool) (rest : List Word)
    → Ends semi rest
    → Reads parse_drop_table (words_of (drop table) ++ ending semi) rest (meaning (drop table))
unfolding parse_drop_table words_of meaning
parse_drop_table-Reads table semi rest e =
    then-Reads (kw 6 ∷ []) (kw 7 ∷ name table ∷ ending semi) (expect_keyword-Reads 6 _) (
      then-Reads (kw 7 ∷ []) (name table ∷ ending semi) (expect_keyword-Reads 7 _) (
        bind-Reads _ (name table ∷ []) (ending semi) (expect_identifier-Reads table _)
          (last-Reads (λ _. meaning (drop table)) (optional_semicolon-Reads semi rest e))))

-- The checks after the columns.
finish_create-Reads :
    (table : List ℕ) (c : Column) (cs : List Column) (semi : Bool) (rest : List Word)
    → primaries (c ∷ cs) ≤ 1
    → Ends semi rest
    → Reads
        (finish_create (take 63 table) (map column_def (c ∷ cs)))
        (ending semi)
        rest
        (meaning (create table c cs))
unfolding finish_create meaning
finish_create-Reads table c cs semi rest bound e =
    let one : ltb 1 (count_primary (map column_def (c ∷ cs))) ≡ false =
      ap (ltb 1) (count_primary-map (c ∷ cs)) ∙ ltb-le (primaries (c ∷ cs)) bound in
    rw (one, length-map column_def cs, some_items (length cs))
      (last-Reads (λ _. meaning (create table c cs)) (optional_semicolon-Reads semi rest e))

finish_insert-Reads :
    (table : List ℕ) (v : Literal) (vs : List Literal) (semi : Bool) (rest : List Word)
    → Ends semi rest
    → Reads
        (finish_insert (take 63 table) (map value_of (v ∷ vs)))
        (ending semi)
        rest
        (meaning (insert_into table v vs))
unfolding finish_insert meaning
finish_insert-Reads table v vs semi rest e =
    rw (length-map value_of vs, some_items (length vs))
      (last-Reads (λ _. meaning (insert_into table v vs)) (optional_semicolon-Reads semi rest e))

parse_columns-Reads :
    (c : Column) (cs : List Column) (rest : List Word)
    → length (c ∷ cs) ≤ 32
    → Reads parse_columns (words_of_list words_of_column c cs) rest (map column_def (c ∷ cs))
unfolding parse_columns
parse_columns-Reads c cs rest long =
    parse_list-Reads _ "Too many columns (max 32)" "Expected ',' or ')' in column list"
      words_of_column column_def parse_column_def-Reads 32 c cs rest (omega arith)

parse_values-Reads :
    (v : Literal) (vs : List Literal) (rest : List Word)
    → length (v ∷ vs) ≤ 32
    → Reads parse_values (words_of_list words_of_literal v vs) rest (map value_of (v ∷ vs))
unfolding parse_values
parse_values-Reads v vs rest long =
    parse_list-Reads _ "Too many values (max 32)" "Expected ',' or ')' in value list"
      words_of_literal value_of (λ x k r. parse_value-Reads x (sym k ∷ r)) 32 v vs rest
      (omega arith)

parse_create_table-Reads :
    (table : List ℕ) (c : Column) (cs : List Column) (semi : Bool) (rest : List Word)
    → IsQuery (create table c cs)
    → Ends semi rest
    → Reads parse_create_table
        (words_of (create table c cs) ++ ending semi)
        rest
        (meaning (create table c cs))
unfolding parse_create_table words_of IsQuery
parse_create_table-Reads table c cs semi rest (long, keys) e =
    let columns = words_of_list words_of_column c cs in
    let tail = columns ++ ending semi in
    then-Reads (kw 5 ∷ []) (kw 7 ∷ name table ∷ sym 40 ∷ tail) (expect_keyword-Reads 5 _) (
      then-Reads (kw 7 ∷ []) (name table ∷ sym 40 ∷ tail) (expect_keyword-Reads 7 _) (
        bind-Reads _ (name table ∷ []) (sym 40 ∷ tail) (expect_identifier-Reads table _) (
          then-Reads (sym 40 ∷ []) tail (expect_symbol-Reads 40 _) (
            bind-Reads _ columns (ending semi) (parse_columns-Reads c cs _ long)
              (finish_create-Reads table c cs semi rest keys e)))))

parse_insert-Reads :
    (table : List ℕ) (v : Literal) (vs : List Literal) (semi : Bool) (rest : List Word)
    → IsQuery (insert_into table v vs)
    → Ends semi rest
    → Reads parse_insert
        (words_of (insert_into table v vs) ++ ending semi)
        rest
        (meaning (insert_into table v vs))
unfolding parse_insert words_of IsQuery
parse_insert-Reads table v vs semi rest long e =
    let values = words_of_list words_of_literal v vs in
    let tail = values ++ ending semi in
    then-Reads (kw 2 ∷ []) (kw 11 ∷ name table ∷ kw 12 ∷ sym 40 ∷ tail) (expect_keyword-Reads 2 _) (
      then-Reads (kw 11 ∷ []) (name table ∷ kw 12 ∷ sym 40 ∷ tail) (expect_keyword-Reads 11 _) (
        bind-Reads _ (name table ∷ []) (kw 12 ∷ sym 40 ∷ tail) (expect_identifier-Reads table _) (
          then-Reads (kw 12 ∷ []) (sym 40 ∷ tail) (expect_keyword-Reads 12 _) (
            then-Reads (sym 40 ∷ []) tail (expect_symbol-Reads 40 _) (
              bind-Reads _ values (ending semi) (parse_values-Reads v vs _ long)
                (finish_insert-Reads table v vs semi rest e))))))

parse_select-Reads :
    (s : Selected) (table : List ℕ) (c : Option Condition) (o : Option Order) (l : Option ℕ)
    (semi : Bool) (rest : List Word)
    → InLimit l
    → Ends semi rest
    → Reads parse_select
        (words_of (select_from s table c o l) ++ ending semi)
        rest
        (meaning (select_from s table c o l))
unfolding parse_select words_of meaning
parse_select-Reads s table c o l semi rest bound e =
    let w3 = words_of_limit l ++ ending semi in
    let w2 = words_of_order o ++ w3 in
    let w1 = words_of_condition c ++ w2 in
    let other = λ (id : ℕ). Unlike-ending id semi rest e in
    let far =
      λ (id : ℕ) (d : (16 == id) ≡ false). Unlike-limit id l (ending semi) rest d (other id) in
    simp (append_assoc) (
      then-Reads (kw 1 ∷ []) (words_of_selected s ++ (kw 9 ∷ name table ∷ w1))
        (expect_keyword-Reads 1 _)
        (bind-Reads _ (words_of_selected s) (kw 9 ∷ name table ∷ w1) (parse_target-Reads s _) (
          then-Reads (kw 9 ∷ []) (name table ∷ w1) (expect_keyword-Reads 9 _) (
            bind-Reads _ (name table ∷ []) w1 (expect_identifier-Reads table _) (
              bind-Reads _ (words_of_condition c) w2
                (optional_where-Reads c _ (Unlike-order 10 o w3 rest refl (far 10 refl)))
                (bind-Reads _ (words_of_order o) w3
                  (optional_order-Reads o _ (far 14 refl) (far 26 refl) (far 27 refl))
                  (bind-Reads _ (words_of_limit l) (ending semi)
                    (optional_limit-Reads l _ bound (other 16))
                    (last-Reads (λ _. meaning (select_from s table c o l))
                      (optional_semicolon-Reads semi rest e)))))))))

-- The statements by their first words.
parser_parse_statement-Reads :
    (q : Query) (semi : Bool) (rest : List Word)
    → IsQuery q
    → Ends semi rest
    → Reads parser_parse_statement (words_of q ++ ending semi) rest (meaning q)
unfolding parser_parse_statement words_of IsQuery
parser_parse_statement-Reads (create table c cs) semi rest ok e =
    no-Reads _ (λ p h. is_type-Is eof (kw 5) p h.0)
      (yes-Reads _ (λ p h. is_type-Is keyword (kw 5) p h.0)
        (yes-Reads _ (λ p h. ap (λ (n : ℕ). n == 5) h.0.1)
          (parse_create_table-Reads table c cs semi rest ok e)))
parser_parse_statement-Reads (drop table) semi rest ok e =
    no-Reads _ (λ p h. is_type-Is eof (kw 6) p h.0)
      (yes-Reads _ (λ p h. is_type-Is keyword (kw 6) p h.0)
        (no-Reads _ (λ p h. ap (λ (n : ℕ). n == 5) h.0.1)
          (yes-Reads _ (λ p h. ap (λ (n : ℕ). n == 6) h.0.1)
            (parse_drop_table-Reads table semi rest e))))
parser_parse_statement-Reads (insert_into table v vs) semi rest ok e =
    no-Reads _ (λ p h. is_type-Is eof (kw 2) p h.0)
      (yes-Reads _ (λ p h. is_type-Is keyword (kw 2) p h.0)
        (no-Reads _ (λ p h. ap (λ (n : ℕ). n == 5) h.0.1)
          (no-Reads _ (λ p h. ap (λ (n : ℕ). n == 6) h.0.1)
            (yes-Reads _ (λ p h. ap (λ (n : ℕ). n == 2) h.0.1)
              (parse_insert-Reads table v vs semi rest ok e)))))
parser_parse_statement-Reads (select_from s table c o l) semi rest ok e =
    no-Reads _ (λ p h. is_type-Is eof (kw 1) p h.0)
      (yes-Reads _ (λ p h. is_type-Is keyword (kw 1) p h.0)
        (no-Reads _ (λ p h. ap (λ (n : ℕ). n == 5) h.0.1)
          (no-Reads _ (λ p h. ap (λ (n : ℕ). n == 6) h.0.1)
            (no-Reads _ (λ p h. ap (λ (n : ℕ). n == 2) h.0.1)
              (yes-Reads _ (λ p h. ap (λ (n : ℕ). n == 1) h.0.1)
                (parse_select-Reads s table c o l semi rest ok e))))))

-- Where the tokens ahead are the words of a statement of the grammar, with a semicolon behind it or
-- else the end of the text, the parser takes exactly these and gives the structure that the statement
-- stands for: with 1 to 32 columns and at most one primary key, with 1 to 32 values, or with a LIMIT
-- below 2 ^ 31. Behind a semicolon anything may follow.
pub parser_parse_statement-words_of :
    (q : Query) (semi : Bool) (rest : List Word) (p : SqlParser)
    → IsQuery q
    → Ends semi rest
    → Ahead p ((words_of q ++ ending semi) ++ rest)
    → parser_parse_statement p ≡ (after (words_of q ++ ending semi) p, some (meaning q))
parser_parse_statement-words_of q semi rest p ok e h =
    (parser_parse_statement-Reads q semi rest ok e).run p h
