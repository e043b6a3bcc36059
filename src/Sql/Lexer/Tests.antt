-- ===== src/Sql/Lexer/Tests.antt =====
-- The lexer at concrete inputs.
use amidb.Base.{ℕ, ◌≡◌, refl, List, [], ◌∷◌, ◌++◌, arith}
use amidb.Sql.Lexer.Keywords.{same_text}
use amidb.Sql.Lexer.Defs.{keyword, integer, string, lexer_init, lexer_next}
use amidb.Sql.Lexer.Quoted.{quoted, lexer_next-quoted}

-- "-- a", a new line, and "Select -12".
abbrev text : List ℕ
text = 45 ∷ 45 ∷ 32 ∷ 97 ∷ 10 ∷ 83 ∷ 101 ∷ 108 ∷ 101 ∷ 99 ∷ 116 ∷ 32 ∷ 45 ∷ 49 ∷ 50 ∷ []

first_token :
    ((lexer_next (lexer_init text)).1.type ≡ keyword)
    × ((lexer_next (lexer_init text)).1.keyword_id ≡ 1)
    × ((lexer_next (lexer_init text)).1.line ≡ 2)
unfolding lexer_next lexer_init same_text
first_token = (refl, refl, refl)

second_token :
    ((lexer_next (lexer_next (lexer_init text)).0).1.type ≡ integer)
    × ((lexer_next (lexer_next (lexer_init text)).0).1.int_value ≡ 4294967284)
unfolding lexer_next lexer_init same_text
second_token = (refl, refl)

-- The literal 'a''b' and a comma.
lexer_next-quoted_example :
    let r = lexer_next (record {
      current = 39 ∷ (quoted (97 ∷ 39 ∷ 98 ∷ []) ++ (39 ∷ (44 ∷ [])));
      line = 1;
      column = 1;
    }) in
    (r.1.type ≡ string) × (r.1.text ≡ 97 ∷ 39 ∷ 98 ∷ []) × (r.0.current ≡ 44 ∷ [])
lexer_next-quoted_example =
    lexer_next-quoted (97 ∷ 39 ∷ 98 ∷ []) (44 ∷ []) 1 1
      (omega arith, (omega arith, (omega arith, tt))) (omega arith) (λ e. omega arith)
