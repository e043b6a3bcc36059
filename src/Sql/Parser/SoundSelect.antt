-- ===== src/Sql/Parser/SoundSelect.antt =====
-- What the parser accepts of the clauses of SELECT is in the grammar.
use Prim.Native.String.{String}
use amidb.Base.{ℕ, ◌≡◌, refl, true, false, Option, none, some, List, [], ◌∷◌, ◌++◌}
use amidb.Sql.Lexer.Defs.{identifier}
use amidb.Sql.Parser.State.{codes, SqlParser, branch, match_keyword}
use amidb.Sql.Parser.Select.{
  Target, demand_symbol, demand_column, parse_count_argument, parse_count, parse_aggregate,
  parse_target,
}
use amidb.Sql.Parser.Grammar.{
  Word, kw, sym, name, Function, count, sum, avg, min, max, Selected, all, count_all, aggregate,
  words_of_selected, word_of_function, code_of_function,
}
use amidb.Sql.Parser.CompleteSelect.{target_of}
use amidb.Sql.Parser.Takes.{
  weaken-At, At, Takes, bind-At, then-At, refuse-At, step-At, if-At, map-At, done-At, Means, Name,
  same_type-eq, match_keyword-true, match_symbol-true,
}

demand_symbol-At :
    (id : ℕ) (message : List ℕ) → Takes (demand_symbol id message) (λ ws _. ws ≡ sym id ∷ [])
unfolding demand_symbol branch
demand_symbol-At id message p =
    if-At _ _ _ (λ h. step-At (sym id) (match_symbol-true id p h)) (λ _. refuse-At _ _)

demand_column-At : (message : List ℕ) → Takes (demand_column message) Name
unfolding demand_column branch
demand_column-At message p =
    if-At _ _ _
      (λ h.
        done-At _ (name p.current.text) Name (same_type-eq p.current.type identifier h, refl)
          (p.current.text, refl, refl))
      (λ _. refuse-At _ _)

-- The argument of COUNT, and what it means.
words_of_argument : Option (List ℕ) → List Word
words_of_argument none = sym 42 ∷ []
words_of_argument (some s) = name s ∷ []

counted : Option (List ℕ) → Selected
counted none = count_all
counted (some s) = aggregate count s

parse_count_argument-At :
    Takes parse_count_argument (Means words_of_argument (λ x. target_of (counted x)))
unfolding parse_count_argument branch words_of_argument counted
parse_count_argument-At p =
    if-At _ _ _ (λ h. done-At _ (sym 42) _ (match_symbol-true 42 p h) (none, refl, refl))
      (λ _.
        map-At (λ column. record { select_all = false; aggregate = 1; agg_column = column }) Name
          (demand_column-At (codes "Expected '*' or column name in COUNT()") p)
          λ ws column (s, e, e'). (some s, e, rw e' refl))

words_of_counted :
    (x : Option (List ℕ))
    → words_of_selected (counted x) ≡ kw 28 ∷ sym 40 ∷ (words_of_argument x ++ (sym 41 ∷ []))
unfolding words_of_argument counted
words_of_counted none = refl
words_of_counted (some s) = refl

-- A target whose keyword is the current token.
Targets : List Word → Target → Type 0
Targets = Means words_of_selected target_of

parse_count-At : {p : SqlParser} → match_keyword 28 p ≡ true → At p (parse_count p) Targets
unfolding parse_count Targets
parse_count-At {p} h = then-At _ (kw 28) (step-At (kw 28) (match_keyword-true 28 p h)) λ q.
    then-At _ (sym 40) (demand_symbol-At 40 (codes "Expected '(' after COUNT") q) λ q'.
      bind-At _ _ (parse_count_argument-At q') λ ws target (x, e, e'). λ r.
        map-At (λ _. target) _ (demand_symbol-At 41 (codes "Expected ')' after COUNT argument") r)
          λ vs _ f. (counted x, rw (e, f, words_of_counted x) refl, e')

parse_aggregate-At :
    (title : String) (f : Function) {p : SqlParser} (id : ℕ)
    → word_of_function f ≡ kw id
    → match_keyword id p ≡ true
    → At p
        (parse_aggregate title (code_of_function f) p)
        (Means (λ s. words_of_selected (aggregate f s)) (λ s. target_of (aggregate f s)))
unfolding parse_aggregate
parse_aggregate-At title f {p} id first h =
    then-At _ (kw id) (step-At (kw id) (match_keyword-true id p h)) λ q.
      then-At _ (sym 40) (demand_symbol-At 40 (codes "Expected '(' after " ++ codes title) q) λ q'.
        bind-At _ Name
          (demand_column-At (codes "Expected column name in " ++ (codes title ++ codes "()")) q')
          λ ws column (s, e, e'). λ r.
            map-At
              (λ _. record {
                select_all = false;
                aggregate = code_of_function f;
                agg_column = column;
              })
              _
              (demand_symbol-At 41
                (codes "Expected ')' after " ++ (codes title ++ codes " argument")) r)
              λ vs _ g. (s, rw (e, g, first) refl, rw e' refl)

-- A function's target is a target.
of_function :
    (f : Function) (ws : List Word) (t : Target)
    → Means (λ s. words_of_selected (aggregate f s)) (λ s. target_of (aggregate f s)) ws t
    → Targets ws t
unfolding Targets
of_function f ws t (s, e, e') = (aggregate f s, e, e')

pub parse_target-At : Takes parse_target (Means words_of_selected target_of)
unfolding parse_target branch Targets
parse_target-At p =
    if-At _ _ _ (λ h. parse_count-At h)
      (λ _.
        if-At _ _ _ (λ h. weaken-At _ (parse_aggregate-At "SUM" sum 29 refl h) (of_function sum))
          (λ _.
            if-At _ _ _
              (λ h. weaken-At _ (parse_aggregate-At "AVG" avg 30 refl h) (of_function avg))
              (λ _.
                if-At _ _ _
                  (λ h. weaken-At _ (parse_aggregate-At "MIN" min 31 refl h) (of_function min))
                  (λ _.
                    if-At _ _ _
                      (λ h. weaken-At _ (parse_aggregate-At "MAX" max 32 refl h) (of_function max))
                      (λ _.
                        if-At _ _ _
                          (λ h. done-At _ (sym 42) _ (match_symbol-true 42 p h) (all, refl, refl))
                          (λ _. refuse-At _ _))))))
