-- ===== src/Sql/Parser/Complete.antt =====
-- The parser reads the words of every syntax tree as what it means.
use Prim.Native.String.{String}
use amidb.Base.{
  ℕ, ◌≡◌, refl, ◌∙◌, ap, ◌<◌, length, zero, suc, map, Bool, true, false, List, [], ◌∷◌, ◌==◌, arith,
}
use amidb.Base.Effect.{Op}
use amidb.Sql.Lexer.Defs.{keyword, integer, string}
use amidb.Sql.Parser.Ast.{sql_type_integer, sql_type_text, sql_type_blob}
use amidb.Sql.Parser.State.{SqlParser}
use amidb.Sql.Parser.Statements.{
  parse_data_type, parse_primary_key, parse_column_def, parse_value, parse_list,
}
use amidb.Sql.Parser.Grammar.{
  Word, kw, sym, num, name, quote, DataType, integer_type, text_type, blob_type, Literal, number,
  quoted, null, words_of_literal, words_of_list, value_of, Column, word_of_type, code_of_type,
  words_of_primary, words_of_column, column_def,
}
use amidb.Sql.Parser.Reads.{
  Reads, is_type-Is, bind-Reads, then-Reads, take-Reads, yes-Reads, no-Reads, step-Reads,
  last-Reads, return-Reads, is_keyword, match_keyword-Is, match_symbol-Is, expect_keyword-Reads,
  expect_identifier-Reads,
}

parse_data_type-Reads :
    (t : DataType) (rest : List Word)
    → Reads parse_data_type (word_of_type t ∷ []) rest (code_of_type t)
unfolding parse_data_type
parse_data_type-Reads integer_type rest =
    yes-Reads _ (λ p h. is_type-Is keyword (kw 19) p h.0)
      (yes-Reads _ (λ p h. ap (λ (n : ℕ). n == 19) h.0.1)
        (last-Reads (λ _. sql_type_integer) (step-Reads (kw 19) _)))
parse_data_type-Reads text_type rest =
    yes-Reads _ (λ p h. is_type-Is keyword (kw 20) p h.0)
      (no-Reads _ (λ p h. ap (λ (n : ℕ). n == 19) h.0.1)
        (yes-Reads _ (λ p h. ap (λ (n : ℕ). n == 20) h.0.1)
          (last-Reads (λ _. sql_type_text) (step-Reads (kw 20) _))))
parse_data_type-Reads blob_type rest =
    yes-Reads _ (λ p h. is_type-Is keyword (kw 21) p h.0)
      (no-Reads _ (λ p h. ap (λ (n : ℕ). n == 19) h.0.1)
        (no-Reads _ (λ p h. ap (λ (n : ℕ). n == 20) h.0.1)
          (yes-Reads _ (λ p h. ap (λ (n : ℕ). n == 21) h.0.1)
            (last-Reads (λ _. sql_type_blob) (step-Reads (kw 21) _)))))

-- What follows is no keyword `id`.
abbrev pub Unlike : ℕ → List Word → Type 0
Unlike id [] = ⊥
Unlike id (w ∷ ws) = is_keyword id w ≡ false

parse_primary_key-Reads :
    (primary : Bool) (rest : List Word)
    → Unlike 17 rest
    → Reads parse_primary_key (words_of_primary primary) rest primary
unfolding parse_primary_key
parse_primary_key-Reads true rest other =
    yes-Reads _ (λ p h. match_keyword-Is 17 (kw 17) p h.0)
      (then-Reads (kw 17 ∷ []) (kw 18 ∷ []) (step-Reads _ _)
        (last-Reads _ (expect_keyword-Reads 18 _)))
parse_primary_key-Reads false [] other = absurd other
parse_primary_key-Reads false (w ∷ rest) other =
    no-Reads _ (λ p h. match_keyword-Is 17 w p h.0 ∙ other) (return-Reads _ _)

pub parse_column_def-Reads :
    (c : Column) (k : ℕ) (rest : List Word)
    → Reads parse_column_def (words_of_column c) (sym k ∷ rest) (column_def c)
unfolding parse_column_def
parse_column_def-Reads c k rest =
    bind-Reads _ (name c.label ∷ []) _ (expect_identifier-Reads c.label _) (
      bind-Reads _ (word_of_type c.type ∷ []) _ (parse_data_type-Reads c.type _)
        (last-Reads _ (parse_primary_key-Reads c.primary _ refl)))

pub parse_value-Reads :
    (v : Literal) (rest : List Word) → Reads parse_value (words_of_literal v) rest (value_of v)
unfolding parse_value
parse_value-Reads (number n) rest =
    yes-Reads _ (λ p h. is_type-Is integer (num n) p h.0)
      (take-Reads _ (num n) _ λ t e. rw e.1 refl)
parse_value-Reads (quoted s) rest =
    no-Reads _ (λ p h. is_type-Is integer (quote s) p h.0)
      (yes-Reads _ (λ p h. is_type-Is string (quote s) p h.0)
        (take-Reads _ (quote s) _ λ t e. rw e.1 refl))
parse_value-Reads null rest =
    no-Reads _ (λ p h. is_type-Is integer (kw 22) p h.0)
      (no-Reads _ (λ p h. is_type-Is string (kw 22) p h.0)
        (yes-Reads _ (λ p h. match_keyword-Is 22 (kw 22) p h.0)
          (last-Reads (λ _. value_of null) (step-Reads (kw 22) _))))

module _ {A B : Type 0} (item : Op SqlParser B) (too_many expected : String) (words : A → List Word)
    (value : A → B)
    (item-Reads : (x : A) (k : ℕ) (rest : List Word)
      → Reads item (words x) (sym k ∷ rest) (value x)) where
  pub parse_list-Reads :
      (n : ℕ) (x : A) (xs : List A) (rest : List Word)
      → length xs < n
      → Reads
          (parse_list item too_many expected n)
          (words_of_list words x xs)
          rest
          (map value (x ∷ xs))
  unfolding parse_list
  parse_list-Reads zero x xs rest h = absurd (omega arith)
  parse_list-Reads (suc n) x [] rest h = bind-Reads _ (words x) (sym 41 ∷ []) (item-Reads x _ _) (
      no-Reads _ (λ p h. match_symbol-Is 44 (sym 41) p h.0)
        (yes-Reads _ (λ p h. match_symbol-Is 41 (sym 41) p h.0)
          (last-Reads (λ _. value x ∷ []) (step-Reads (sym 41) _))))
  parse_list-Reads (suc n) x (y ∷ ys) rest h =
      bind-Reads _ (words x) (sym 44 ∷ words_of_list words y ys) (item-Reads x _ _) (
        yes-Reads _ (λ p h. match_symbol-Is 44 (sym 44) p h.0)
          (then-Reads (sym 44 ∷ []) (words_of_list words y ys) (step-Reads _ _)
            (last-Reads _ (parse_list-Reads n y ys rest (omega arith)))))
