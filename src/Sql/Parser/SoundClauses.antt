-- ===== src/Sql/Parser/SoundClauses.antt =====
-- What the parser accepts of WHERE, ORDER BY, LIMIT and the end of a statement is in the grammar.
use amidb.Base.{
  ℕ, ◌^◌, ◌<◌, ◌≡◌, refl, Bool, true, false, Option, none, some, List, [], ◌∷◌, arith, leb,
  if◌then◌else◌,
}
use amidb.Base.Effect.{return}
use amidb.Sql.Lexer.Defs.{integer}
use amidb.Sql.Parser.Ast.{no_where, no_order, no_limit}
use amidb.Sql.Parser.State.{refuse, SqlParser, branch, match_keyword}
use amidb.Sql.Parser.Statements.{optional_semicolon}
use amidb.Sql.Parser.Select.{
  parse_operator, parse_where, optional_where, parse_direction, parse_order, optional_order,
  demand_integer, parse_limit, optional_limit,
}
use amidb.Sql.Parser.Grammar.{
  Word, kw, sym, num, Comparison, eq, ne, lt, le, gt, ge, unsaid, ascending, descending,
  word_of_comparison, code_of_comparison, words_of_condition, where_of, words_of_direction,
  is_ascending, words_of_order, order_of, words_of_limit, limit_of, InLimit,
}
use amidb.Sql.Parser.CompleteClauses.{ending}
use amidb.Sql.Parser.Takes.{
  At, Takes, bind-At, then-At, return-At, refuse-At, step-At, if-At, map-At, done-At, weaken-At,
  Means, Name, same_type-eq, match_keyword-true, match_symbol-true, symbol_id-Is, expect_keyword-At,
  expect_identifier-At,
}
use amidb.Sql.Parser.Sound.{parse_value-At}

words_of_operator : Comparison → List Word
words_of_operator c = word_of_comparison c ∷ []

parse_operator-At : Takes parse_operator (Means words_of_operator code_of_comparison)
unfolding parse_operator branch words_of_operator
parse_operator-At p =
    if-At _ _ _
      (λ k.
        if-At _ _ _ (λ h. done-At _ (sym 61) _ (symbol_id-Is 61 p k h) (eq, refl, refl))
          (λ _.
            if-At _ _ _ (λ h. done-At _ (sym 258) _ (symbol_id-Is 258 p k h) (ne, refl, refl))
              (λ _.
                if-At _ _ _ (λ h. done-At _ (sym 60) _ (symbol_id-Is 60 p k h) (lt, refl, refl))
                  (λ _.
                    if-At _ _ _
                      (λ h. done-At _ (sym 256) _ (symbol_id-Is 256 p k h) (le, refl, refl))
                      (λ _.
                        if-At _ _ _
                          (λ h. done-At _ (sym 62) _ (symbol_id-Is 62 p k h) (gt, refl, refl))
                          (λ _.
                            if-At _ _ _
                              (λ h. done-At _ (sym 257) _ (symbol_id-Is 257 p k h) (ge, refl, refl))
                              (λ _. refuse-At _ _)))))))
      (λ _. refuse-At _ _)

parse_where-At :
    Takes parse_where (Means (λ c. words_of_condition (some c)) (λ c. where_of (some c)))
unfolding parse_where words_of_operator
parse_where-At p = then-At _ (kw 10) (expect_keyword-At 10 p) λ q.
    bind-At _ Name (expect_identifier-At q) λ ws column (s, e, e'). λ q'.
      bind-At _ _ (parse_operator-At q') λ vs op (c, f, f'). λ r.
        map-At
          (λ value. record { column_name = column; op = op; value = value; has_condition = true }) _
          (parse_value-At r)
          λ us value (v, g, g'). (
            record { column = s; comparison = c; literal = v },
            rw (e, f, g) refl,
            rw (e', f', g') refl,
          )

pub optional_where-At : Takes optional_where (Means words_of_condition where_of)
unfolding optional_where branch
optional_where-At p =
    if-At (match_keyword 10 p) parse_where (return no_where)
      (λ _. weaken-At _ (parse_where-At p) λ ws a (c, e, e'). (some c, e, e'))
      (λ _. return-At _ _ (none, refl, refl))

parse_direction-At : Takes parse_direction (Means words_of_direction is_ascending)
unfolding parse_direction branch
parse_direction-At p =
    if-At _ _ _ (λ h. done-At _ (kw 26) _ (match_keyword-true 26 p h) (ascending, refl, refl))
      (λ _.
        if-At _ _ _ (λ h. done-At _ (kw 27) _ (match_keyword-true 27 p h) (descending, refl, refl))
          (λ _. return-At _ _ (unsaid, refl, refl)))

parse_order-At :
    {p : SqlParser}
    → match_keyword 14 p ≡ true
    → At p (parse_order p) (Means (λ o. words_of_order (some o)) (λ o. order_of (some o)))
unfolding parse_order
parse_order-At {p} h = then-At _ (kw 14) (step-At (kw 14) (match_keyword-true 14 p h)) λ q.
    then-At _ (kw 15) (expect_keyword-At 15 q) λ q'.
      bind-At _ Name (expect_identifier-At q') λ ws column (s, e, e'). λ r.
        map-At (λ up. record { column_name = column; ascending = up; has_order = true }) _
          (parse_direction-At r)
          λ vs up (d, f, f').
            (record { column = s; direction = d }, rw (e, f) refl, rw (e', f') refl)

pub optional_order-At : Takes optional_order (Means words_of_order order_of)
unfolding optional_order branch
optional_order-At p =
    if-At (match_keyword 14 p) parse_order (return no_order)
      (λ h. weaken-At _ (parse_order-At h) λ ws a (o, e, e'). (some o, e, e'))
      (λ _. return-At _ _ (none, refl, refl))

demand_integer-At : Takes demand_integer (λ ws n. ws ≡ num n ∷ [])
unfolding demand_integer branch
demand_integer-At p =
    if-At _ _ _
      (λ h.
        done-At _ (num p.current.int_value) _ (same_type-eq p.current.type integer h, refl) refl)
      (λ _. refuse-At _ _)

-- A LIMIT that was not refused.
abbrev pub Limits : List Word → ℕ → Type 0
Limits ws n = (l : Option ℕ) × (ws ≡ words_of_limit l) × (n ≡ limit_of l) × InLimit l

leb-below : (n : ℕ) → leb (2 ^ 31) n ≡ false → n < 2 ^ 31
leb-below n h = ground arith

parse_limit-At : {p : SqlParser} → match_keyword 16 p ≡ true → At p (parse_limit p) Limits
unfolding parse_limit
parse_limit-At {p} h = then-At _ (kw 16) (step-At (kw 16) (match_keyword-true 16 p h)) λ q.
    bind-At (λ n. if leb (2 ^ 31) n then refuse "LIMIT must be non-negative" else return n)
      (λ ws n. ws ≡ num n ∷ []) (demand_integer-At q)
      λ ws n e. λ r.
        if-At (leb (2 ^ 31) n) (refuse "LIMIT must be non-negative") (return n) (λ _. refuse-At _ _)
          (λ b. return-At _ _ (some n, rw e refl, refl, leb-below n b))

pub optional_limit-At : Takes optional_limit Limits
unfolding optional_limit branch
optional_limit-At p =
    if-At (match_keyword 16 p) parse_limit (return no_limit) (λ h. parse_limit-At h)
      (λ _. return-At _ _ (none, refl, refl, tt))

pub optional_semicolon-At : Takes optional_semicolon (λ ws _. (semi : Bool) × ws ≡ ending semi)
unfolding optional_semicolon branch
optional_semicolon-At p =
    if-At _ _ _ (λ h. done-At _ (sym 59) _ (match_symbol-true 59 p h) (true, refl))
      (λ _. return-At _ _ (false, refl))
