-- ===== src/Sql/Lexer/Progress.antt =====
-- `lexer_next` of src/sql/lexer.c comes to an end.
use amidb.Base.{◌≤◌, ◌<◌, ◌≡◌, [], length}
use amidb.Sql.Lexer.Defs.{Token, eof, Lexer}

-- The outcome of a step at a character: something is read, and the text fits its array.
record Taken (a : Lexer) (r : Lexer × Token) : Type 0 where
  less : length r.0.current < length a.current
  bounded : length r.1.text ≤ 255

-- At the end of the input, or at a character before the lexer's end.
pub data Outcome (lex : Lexer) (r : Lexer × Token) : Type 0 where
  ended : r.1.type ≡ eof → r.0.current ≡ [] → Outcome lex r
  took : length r.0.current < length lex.current → length r.1.text ≤ 255 → Outcome lex r
