-- ===== src/Sql/Parser/CompleteSelect.antt =====
-- What SELECT selects is read as it is meant.
use Prim.Native.String.{String}
use amidb.Base.{ℕ, refl, ◌∙◌, false, List, [], ◌∷◌, ◌++◌, take}
use amidb.Sql.Lexer.Defs.{identifier}
use amidb.Sql.Parser.State.{codes}
use amidb.Sql.Parser.Select.{
  Target, demand_symbol, demand_column, parse_count_argument, parse_count, parse_aggregate,
  parse_target,
}
use amidb.Sql.Parser.Grammar.{
  Word, kw, sym, name, count, sum, avg, min, max, Selected, all, count_all, aggregate,
  words_of_selected, selects_all, code_of_selected, column_of_selected,
}
use amidb.Sql.Parser.Reads.{
  Reads, bind-Reads, then-Reads, last-Reads, take-Reads, yes-Reads, no-Reads, step-Reads,
  is_type-Is, match_keyword-Is, match_symbol-Is, eq_self,
}

demand_symbol-Reads :
    (id : ℕ) (message : List ℕ) (rest : List Word)
    → Reads (demand_symbol id message) (sym id ∷ []) rest tt
unfolding demand_symbol
demand_symbol-Reads id message rest =
    yes-Reads _ (λ p h. match_symbol-Is id (sym id) p h.0 ∙ eq_self id) (step-Reads (sym id) _)

demand_column-Reads :
    (message s : List ℕ) (rest : List Word)
    → Reads (demand_column message) (name s ∷ []) rest (take 63 s)
unfolding demand_column
demand_column-Reads message s rest =
    yes-Reads _ (λ p h. is_type-Is identifier (name s) p h.0)
      (take-Reads _ (name s) _ λ t e. rw e.1 refl)

-- What a selection is parsed to.
abbrev pub target_of : Selected → Target
target_of s = record {
  select_all = selects_all s;
  aggregate = code_of_selected s;
  agg_column = column_of_selected s;
}

parse_count_argument-Reads_star :
    (rest : List Word) → Reads parse_count_argument (sym 42 ∷ []) rest (target_of count_all)
unfolding parse_count_argument
parse_count_argument-Reads_star rest =
    yes-Reads _ (λ p h. match_symbol-Is 42 (sym 42) p h.0)
      (last-Reads (λ _. target_of count_all) (step-Reads (sym 42) _))

parse_count_argument-Reads :
    (s : List ℕ) (rest : List Word)
    → Reads parse_count_argument (name s ∷ []) rest (target_of (aggregate count s))
unfolding parse_count_argument
parse_count_argument-Reads s rest =
    no-Reads _ (λ p h. match_symbol-Is 42 (name s) p h.0)
      (last-Reads
        (λ (column : List ℕ). record { select_all = false; aggregate = 1; agg_column = column })
        (demand_column-Reads (codes "Expected '*' or column name in COUNT()") s _))

-- COUNT around an argument of one word.
parse_count-Reads :
    (w : Word) {t : Target} (rest : List Word)
    → Reads parse_count_argument (w ∷ []) (sym 41 ∷ rest) t
    → Reads parse_count (kw 28 ∷ sym 40 ∷ w ∷ sym 41 ∷ []) rest t
unfolding parse_count
parse_count-Reads w {t} rest argument =
    then-Reads (kw 28 ∷ []) (sym 40 ∷ w ∷ sym 41 ∷ []) (step-Reads (kw 28) _) (
      then-Reads (sym 40 ∷ []) (w ∷ sym 41 ∷ [])
        (demand_symbol-Reads 40 (codes "Expected '(' after COUNT") _)
        (bind-Reads _ (w ∷ []) (sym 41 ∷ []) argument (
          last-Reads (λ _. t)
            (demand_symbol-Reads 41 (codes "Expected ')' after COUNT argument") _))))

-- Any other aggregate.
parse_aggregate-Reads :
    (title : String) (k id : ℕ) (s : List ℕ) (rest : List Word)
    → Reads
        (parse_aggregate title k)
        (kw id ∷ sym 40 ∷ name s ∷ sym 41 ∷ [])
        rest
        record { select_all = false; aggregate = k; agg_column = take 63 s }
unfolding parse_aggregate
parse_aggregate-Reads title k id s rest =
    then-Reads (kw id ∷ []) (sym 40 ∷ name s ∷ sym 41 ∷ []) (step-Reads (kw id) _) (
      then-Reads (sym 40 ∷ []) (name s ∷ sym 41 ∷ [])
        (demand_symbol-Reads 40 (codes "Expected '(' after " ++ codes title) _)
        (bind-Reads _ (name s ∷ []) (sym 41 ∷ [])
          (demand_column-Reads (codes "Expected column name in " ++ (codes title ++ codes "()")) s
            _)
          (last-Reads (λ _. record { select_all = false; aggregate = k; agg_column = take 63 s })
            (demand_symbol-Reads 41
              (codes "Expected ')' after " ++ (codes title ++ codes " argument")) _))))

pub parse_target-Reads :
    (s : Selected) (rest : List Word) → Reads parse_target (words_of_selected s) rest (target_of s)
unfolding parse_target
parse_target-Reads all rest =
    no-Reads _ (λ p h. match_keyword-Is 28 (sym 42) p h.0)
      (no-Reads _ (λ p h. match_keyword-Is 29 (sym 42) p h.0)
        (no-Reads _ (λ p h. match_keyword-Is 30 (sym 42) p h.0)
          (no-Reads _ (λ p h. match_keyword-Is 31 (sym 42) p h.0)
            (no-Reads _ (λ p h. match_keyword-Is 32 (sym 42) p h.0)
              (yes-Reads _ (λ p h. match_symbol-Is 42 (sym 42) p h.0)
                (last-Reads (λ _. target_of all) (step-Reads (sym 42) _)))))))
parse_target-Reads count_all rest =
    yes-Reads _ (λ p h. match_keyword-Is 28 (kw 28) p h.0)
      (parse_count-Reads (sym 42) rest (parse_count_argument-Reads_star _))
parse_target-Reads (aggregate count s) rest =
    yes-Reads _ (λ p h. match_keyword-Is 28 (kw 28) p h.0)
      (parse_count-Reads (name s) rest (parse_count_argument-Reads s _))
parse_target-Reads (aggregate sum s) rest =
    no-Reads _ (λ p h. match_keyword-Is 28 (kw 29) p h.0)
      (yes-Reads _ (λ p h. match_keyword-Is 29 (kw 29) p h.0)
        (parse_aggregate-Reads "SUM" 3 29 s rest))
parse_target-Reads (aggregate avg s) rest =
    no-Reads _ (λ p h. match_keyword-Is 28 (kw 30) p h.0)
      (no-Reads _ (λ p h. match_keyword-Is 29 (kw 30) p h.0)
        (yes-Reads _ (λ p h. match_keyword-Is 30 (kw 30) p h.0)
          (parse_aggregate-Reads "AVG" 4 30 s rest)))
parse_target-Reads (aggregate min s) rest =
    no-Reads _ (λ p h. match_keyword-Is 28 (kw 31) p h.0)
      (no-Reads _ (λ p h. match_keyword-Is 29 (kw 31) p h.0)
        (no-Reads _ (λ p h. match_keyword-Is 30 (kw 31) p h.0)
          (yes-Reads _ (λ p h. match_keyword-Is 31 (kw 31) p h.0)
            (parse_aggregate-Reads "MIN" 5 31 s rest))))
parse_target-Reads (aggregate max s) rest =
    no-Reads _ (λ p h. match_keyword-Is 28 (kw 32) p h.0)
      (no-Reads _ (λ p h. match_keyword-Is 29 (kw 32) p h.0)
        (no-Reads _ (λ p h. match_keyword-Is 30 (kw 32) p h.0)
          (no-Reads _ (λ p h. match_keyword-Is 31 (kw 32) p h.0)
            (yes-Reads _ (λ p h. match_keyword-Is 32 (kw 32) p h.0)
              (parse_aggregate-Reads "MAX" 6 32 s rest)))))
