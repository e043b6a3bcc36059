-- ===== src/Sql/Parser/Sound.antt =====
-- What the parser accepts of a statement's parts is in the grammar.
use Prim.Native.String.{String}
use amidb.Base.{ℕ, zero, suc, ◌≤◌, ◌≡◌, refl, ap, true, false, List, [], ◌∷◌, arith, length, map}
use amidb.Base.Effect.{Op}
use amidb.Sql.Lexer.Defs.{integer, string}
use amidb.Sql.Parser.State.{SqlParser, branch}
use amidb.Sql.Parser.Statements.{
  parse_data_type, parse_primary_key, parse_column_def, parse_value, parse_list,
}
use amidb.Sql.Parser.Grammar.{
  Word, kw, sym, num, quote, DataType, integer_type, text_type, blob_type, number, quoted, null,
  word_of_type, code_of_type, words_of_primary, words_of_column, column_def, words_of_literal,
  value_of, words_of_list,
}
use amidb.Sql.Parser.Takes.{
  Takes, bind-At, then-At, return-At, refuse-At, step-At, if-At, map-At, done-At, Means, Name,
  same_type-eq, match_keyword-true, match_symbol-true, keyword_id-Is, expect_keyword-At,
  expect_identifier-At,
}

words_of_type : DataType → List Word
words_of_type t = word_of_type t ∷ []

parse_data_type-At : Takes parse_data_type (Means words_of_type code_of_type)
unfolding parse_data_type words_of_type branch
parse_data_type-At p =
    if-At _ _ _
      (λ k.
        if-At _ _ _ (λ h. done-At _ (kw 19) _ (keyword_id-Is 19 p k h) (integer_type, refl, refl))
          (λ _.
            if-At _ _ _ (λ h. done-At _ (kw 20) _ (keyword_id-Is 20 p k h) (text_type, refl, refl))
              (λ _.
                if-At _ _ _
                  (λ h. done-At _ (kw 21) _ (keyword_id-Is 21 p k h) (blob_type, refl, refl))
                  (λ _. refuse-At _ _))))
      (λ _. refuse-At _ _)

parse_primary_key-At : Takes parse_primary_key (Means words_of_primary (λ primary. primary))
unfolding parse_primary_key branch
parse_primary_key-At p =
    if-At _ _ _
      (λ h. then-At _ (kw 17) (step-At (kw 17) (match_keyword-true 17 p h)) λ q.
        map-At (λ _. true) _ (expect_keyword-At 18 q) λ ws a e. (true, ap (λ l. kw 17 ∷ l) e, refl))
      (λ h. return-At _ _ (false, refl, refl))

pub parse_column_def-At : Takes parse_column_def (Means words_of_column column_def)
unfolding parse_column_def words_of_type
parse_column_def-At p = bind-At _ Name (expect_identifier-At p) λ ws name (s, e, e'). λ q.
    bind-At _ (Means words_of_type code_of_type) (parse_data_type-At q) λ vs type (t, f, f'). λ q'.
      map-At _ (Means words_of_primary (λ primary. primary)) (parse_primary_key-At q')
        λ us primary (k, g, g').
          (record { label = s; type = t; primary = k }, rw (e, f, g) refl, rw (e', f', g') refl)

pub parse_value-At : Takes parse_value (Means words_of_literal value_of)
unfolding parse_value branch
parse_value-At p =
    if-At _ _ _
      (λ h.
        done-At _ (num p.current.int_value) _ (same_type-eq p.current.type integer h, refl)
          (number p.current.int_value, refl, refl))
      (λ _.
        if-At _ _ _
          (λ h.
            done-At _ (quote p.current.text) _ (same_type-eq p.current.type string h, refl)
              (quoted p.current.text, refl, refl))
          (λ _.
            if-At _ _ _ (λ h. done-At _ (kw 22) _ (match_keyword-true 22 p h) (null, refl, refl))
              (λ _. refuse-At _ _)))

-- A list in parentheses of at most `n` items.
abbrev pub Listed : {Q A : Type 0} → (Q → List Word) → (Q → A) → ℕ → List Word → List A → Type 0
Listed {Q} words f n ws l =
    (x : Q) × (xs : List Q) × (ws ≡ words_of_list words x xs)
    × (l ≡ map f (x ∷ xs))
    × length (x ∷ xs) ≤ n

module _ {Q A : Type 0} (item : Op SqlParser A) (too_many expected : String) (words : Q → List Word)
    (f : Q → A) (item-At : Takes item (Means words f)) where
  pub parse_list-At : (n : ℕ) → Takes (parse_list item too_many expected n) (Listed words f n)
  unfolding parse_list branch
  parse_list-At zero p = refuse-At _ _
  parse_list-At (suc n) p = bind-At _ (Means words f) (item-At p) λ ws a (x, e, e'). λ q.
      if-At _ _ _
        (λ h. then-At _ (sym 44) (step-At (sym 44) (match_symbol-true 44 q h)) λ q'.
          map-At (λ l. a ∷ l) (Listed words f n) (parse_list-At n q')
            λ vs l (y, ys, g, g', short).
              (x, y ∷ ys, rw (e, g) refl, rw (e', g') refl, omega arith))
        (λ _.
          if-At _ _ _
            (λ h.
              done-At _ (sym 41) _ (match_symbol-true 41 q h)
                (x, [], rw e refl, rw e' refl, omega arith))
            (λ _. refuse-At _ _))
