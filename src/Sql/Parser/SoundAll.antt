-- ===== src/Sql/Parser/SoundAll.antt =====
-- Every statement that the parser accepts is in the grammar, and the parser gives what it means.
use Prim.Native.String.{String}
use mathlib.Core.List.{append_assoc}
use amidb.Base.{
  ℕ, ◌≤◌, ◌≡◌, refl, ◌∙◌, ap, sym as flip, Bool, false, some, List, ◌∷◌, ◌++◌, ◌==◌, arith, ltb,
  map, length, if◌then◌else◌,
}
use amidb.Base.Effect.{Op, ◌>>◌, return}
use amidb.Sql.Lexer.Defs.{eof, keyword}
use amidb.Sql.Parser.Ast.{SqlStatement, create_table, drop_table, insert}
use amidb.Sql.Parser.State.{is_type, refuse, SqlParser, branch}
use amidb.Sql.Parser.Statements.{
  parse_column_def, parse_value, parse_columns, parse_values, count_primary, finish_create,
  finish_insert, optional_semicolon, parse_create_table, parse_drop_table, parse_insert,
}
use amidb.Sql.Parser.Select.{statement_of, parse_select, parser_parse_statement}
use amidb.Sql.Parser.Grammar.{
  Word, kw, sym, Column, Literal, Query, create, drop, insert_into, select_from, words_of_column,
  words_of_literal, words_of_condition, words_of_order, words_of_selected, words_of, column_def,
  value_of, where_of, order_of, meaning, primaries, IsQuery,
}
use amidb.Sql.Parser.Reads.{Ahead, after}
use amidb.Sql.Parser.CompleteClauses.{ending}
use amidb.Sql.Parser.CompleteSelect.{target_of}
use amidb.Sql.Parser.CompleteAll.{count_primary-map, length-map}
use amidb.Sql.Parser.Takes.{
  At, Takes, bind-At, then-At, refuse-At, if-At, map-At, weaken-At, Means, Name, expect_keyword-At,
  expect_symbol-At, expect_identifier-At,
}
use amidb.Sql.Parser.Sound.{parse_column_def-At, parse_value-At, Listed, parse_list-At}
use amidb.Sql.Parser.SoundSelect.{parse_target-At}
use amidb.Sql.Parser.SoundClauses.{
  optional_where-At, optional_order-At, Limits, optional_limit-At, optional_semicolon-At,
}

-- The words of a statement of the grammar, and what it stands for.
abbrev pub Accepts : List Word → SqlStatement → Type 0
Accepts ws s =
    (q : Query) × (semi : Bool) × (ws ≡ words_of q ++ ending semi) × (s ≡ meaning q) × IsQuery q

parse_drop_table-At : Takes parse_drop_table Accepts
unfolding parse_drop_table words_of meaning IsQuery
parse_drop_table-At p = then-At _ (kw 6) (expect_keyword-At 6 p) λ q.
    then-At _ (kw 7) (expect_keyword-At 7 q) λ q'.
      bind-At _ Name (expect_identifier-At q') λ ws n (s, e, e'). λ r.
        map-At (λ _. drop_table record { table_name = n }) _ (optional_semicolon-At r)
          λ vs _ (semi, f). (drop s, semi, rw (e, f) refl, rw e' refl, tt)

ltb-bound : (n : ℕ) → ltb 1 n ≡ false → n ≤ 1
ltb-bound n h = ground arith

-- The checks behind a list of columns leave the semicolon to take.
finish_create-At :
    (n : List ℕ) (c : Column) (cs : List Column) {p : SqlParser}
    → At p (finish_create n (map column_def (c ∷ cs)) p) (λ ws s.
      (semi : Bool) × (ws ≡ ending semi)
      × (s
          ≡ create_table record {
            table_name = n;
            column_count = length (map column_def (c ∷ cs));
            columns = map column_def (c ∷ cs);
          })
      × primaries (c ∷ cs) ≤ 1)
unfolding finish_create
finish_create-At n c cs {p} =
    let l = map column_def (c ∷ cs) in
    let s = create_table record { table_name = n; column_count = length l; columns = l } in
    let end : Op SqlParser SqlStatement = optional_semicolon >> return s in
    let empty : Op SqlParser SqlStatement = refuse "Table must have at least one column" in
    if-At (ltb 1 (count_primary l)) (refuse "Table can have at most one PRIMARY KEY")
      (if length l == 0 then empty else end) (λ _. refuse-At _ _)
      (λ one.
        if-At (length l == 0) empty end (λ _. refuse-At _ _)
          (λ _.
            map-At (λ _. s) _ (optional_semicolon-At p)
              λ ws _ (semi, e). (
                semi,
                e,
                refl,
                ltb-bound _ (ap (ltb 1) (flip (count_primary-map (c ∷ cs))) ∙ one),
              )))

parse_columns-At : Takes parse_columns (Listed words_of_column column_def 32)
unfolding parse_columns
parse_columns-At p =
    parse_list-At parse_column_def "Too many columns (max 32)" "Expected ',' or ')' in column list"
      words_of_column column_def parse_column_def-At 32 p

parse_values-At : Takes parse_values (Listed words_of_literal value_of 32)
unfolding parse_values
parse_values-At p =
    parse_list-At parse_value "Too many values (max 32)" "Expected ',' or ')' in value list"
      words_of_literal value_of parse_value-At 32 p

parse_create_table-At : Takes parse_create_table Accepts
unfolding parse_create_table words_of meaning IsQuery
parse_create_table-At p = then-At _ (kw 5) (expect_keyword-At 5 p) λ q.
    then-At _ (kw 7) (expect_keyword-At 7 q) λ q'.
      bind-At _ Name (expect_identifier-At q') λ ws n (s, e, e'). λ r.
        then-At _ (sym 40) (expect_symbol-At 40 r) λ r'.
          bind-At (finish_create n) (Listed words_of_column column_def 32) (parse_columns-At r')
            λ us l (c, cs, f, f', long). λ t. rw f' (
              weaken-At _ (finish_create-At n c cs) λ vs b (semi, g, g', keys). (
                create s c cs,
                semi,
                rw (e, f, g) refl,
                rw (g', e', length-map column_def cs) refl,
                (long, keys),
              ))

finish_insert-At :
    (n : List ℕ) (v : Literal) (vs : List Literal) {p : SqlParser}
    → At p (finish_insert n (map value_of (v ∷ vs)) p) (λ ws s.
      (semi : Bool) × (ws ≡ ending semi)
      × s
        ≡ insert record {
          table_name = n;
          value_count = length (map value_of (v ∷ vs));
          values = map value_of (v ∷ vs);
        })
unfolding finish_insert
finish_insert-At n v vs {p} =
    let l = map value_of (v ∷ vs) in
    let s = insert record { table_name = n; value_count = length l; values = l } in
    if-At (length l == 0) (refuse "INSERT must have at least one value")
      (optional_semicolon >> return s) (λ _. refuse-At _ _)
      (λ _. map-At (λ _. s) _ (optional_semicolon-At p) λ ws _ (semi, e). (semi, e, refl))

parse_insert-At : Takes parse_insert Accepts
unfolding parse_insert words_of meaning IsQuery
parse_insert-At p = then-At _ (kw 2) (expect_keyword-At 2 p) λ q.
    then-At _ (kw 11) (expect_keyword-At 11 q) λ q'.
      bind-At _ Name (expect_identifier-At q') λ ws n (s, e, e'). λ r.
        then-At _ (kw 12) (expect_keyword-At 12 r) λ r'.
          then-At _ (sym 40) (expect_symbol-At 40 r') λ r''.
            bind-At (finish_insert n) (Listed words_of_literal value_of 32) (parse_values-At r'')
              λ us l (v, vs, f, f', long). λ t. rw f' (
                weaken-At _ (finish_insert-At n v vs) λ ts b (semi, g, g'). (
                  insert_into s v vs,
                  semi,
                  rw (e, f, g) refl,
                  rw (g', e', length-map value_of vs) refl,
                  long,
                ))

parse_select-At : Takes parse_select Accepts
unfolding parse_select words_of meaning IsQuery
parse_select-At p = then-At _ (kw 1) (expect_keyword-At 1 p) λ q.
    bind-At _ (Means words_of_selected target_of) (parse_target-At q) λ w1 target (x, e1, d1). λ q'.
      then-At _ (kw 9) (expect_keyword-At 9 q') λ r.
        bind-At _ Name (expect_identifier-At r) λ w2 n (s, e2, d2). λ r'.
          bind-At _ (Means words_of_condition where_of) (optional_where-At r') λ w3 c (c', e3, d3).
            λ r''.
              bind-At _ (Means words_of_order order_of) (optional_order-At r'') λ w4 o (o', e4, d4).
                λ t. bind-At _ Limits (optional_limit-At t) λ w5 l (l', e5, d5, bound). λ t'.
                  map-At _ _ (optional_semicolon-At t') λ w6 _ (semi, e6). (
                    select_from x s c' o' l',
                    semi,
                    simp (e1, e2, e3, e4, e5, e6, append_assoc) refl,
                    rw (d1, d2, d3, d4, d5) refl,
                    bound,
                  )

-- A case of the switch over keywords.
statement_of-At :
    (id : ℕ) (m others : Op SqlParser SqlStatement)
    → Takes m Accepts
    → Takes others Accepts
    → Takes (statement_of id m others) Accepts
unfolding branch
statement_of-At id m others first second p =
    if-At (p.current.keyword_id == id) m others (λ _. first p) (λ _. second p)

refuse-Takes : (message : String) → Takes (refuse message) Accepts
refuse-Takes message p = refuse-At _ _

parser_parse_statement-At : Takes parser_parse_statement Accepts
unfolding parser_parse_statement branch
parser_parse_statement-At p =
    let unknown = refuse {A = SqlStatement} "Unknown SQL statement" in
    let from_delete = statement_of 4 (refuse "DELETE not yet implemented") unknown in
    let from_update = statement_of 3 (refuse "UPDATE not yet implemented") from_delete in
    let from_select = statement_of 1 parse_select from_update in
    let from_insert = statement_of 2 parse_insert from_select in
    let from_drop = statement_of 6 parse_drop_table from_insert in
    let from_create = statement_of 5 parse_create_table from_drop in
    let no_keyword = refuse {A = SqlStatement} "Expected SQL keyword" in
    if-At (is_type eof p) (refuse "Unexpected end of input")
      (branch (is_type keyword) from_create no_keyword) (λ _. refuse-At _ _)
      (λ _.
        if-At (is_type keyword p) from_create no_keyword
          (λ _.
            (statement_of-At 5 parse_create_table from_drop parse_create_table-At (
                statement_of-At 6 parse_drop_table from_insert parse_drop_table-At (
                  statement_of-At 2 parse_insert from_select parse_insert-At (
                    statement_of-At 1 parse_select from_update parse_select-At (
                      statement_of-At 3 _ from_delete (refuse-Takes "UPDATE not yet implemented") (
                        statement_of-At 4 _ unknown (refuse-Takes "DELETE not yet implemented")
                          (refuse-Takes "Unknown SQL statement")))))))
              p)
          (λ _. refuse-At _ _))

-- A statement that the parser gives is one of the grammar: it took exactly the words of a statement
-- within the grammar's bounds, and the semicolon where one follows, and what it gives is what that
-- statement stands for.
pub parser_parse_statement-Accepts :
    (p p' : SqlParser) (s : SqlStatement)
    → parser_parse_statement p ≡ (p', some s)
    → (q : Query) × (semi : Bool) × IsQuery q
      × Ahead p (words_of q ++ ending semi)
      × (p' ≡ after (words_of q ++ ending semi) p)
      × s ≡ meaning q
parser_parse_statement-Accepts p p' s e =
    let (ws, (q, semi, e1, e2, ok), h, e3) = (parser_parse_statement-At p).took p' s e in
    (q, semi, ok, rw e1 at h, e3 ∙ ap (λ x. after x p) e1, e2)
