-- ===== src/Sql/Lexer/Defs.antt =====
-- The lexer of src/sql/lexer.c.
-- `current` is the list of the characters from there on, without the zero at the end; `input` is
-- never read. A loop takes that list as its fuel, since each round advances. `int_value` is given by
-- its bit pattern. Every return value is 0.
use amidb.Base.{
  ℕ, ◌+◌, ◌-◌, ◌*◌, ◌%◌, ◌^◌, Bool, not, ◌&&◌, ◌||◌, List, [], ◌∷◌, if◌then◌else◌, ltb, leb, ◌==◌,
}
use amidb.Sql.Lexer.Keywords.{lexer_keyword_id}

pub data TokenType : Type 0 where
  eof keyword identifier integer string symbol : TokenType

pub record Token : Type 0 where
  pub type : TokenType
  pub text : List ℕ
  pub int_value : ℕ
  pub keyword_id : ℕ
  pub symbol_id : ℕ
  pub line : ℕ
  pub column : ℕ

pub record Lexer : Type 0 where
  pub current : List ℕ
  pub line : ℕ
  pub column : ℕ

unfoldable pub lexer_init : List ℕ → Lexer
lexer_init input = record { current = input; line = 1; column = 1 }

-- The classes of characters in the C locale.
abbrev pub isdigit : ℕ → Bool
isdigit c = leb 48 c && leb c 57

abbrev pub isalpha : ℕ → Bool
isalpha c = leb 65 c && leb c 90 || leb 97 c && leb c 122

abbrev pub is_word : ℕ → Bool
is_word c = isalpha c || isdigit c || c == 95

abbrev pub is_space : ℕ → Bool
is_space c = c == 32 || c == 9 || c == 10 || c == 13

-- The character at the head, or the zero.
abbrev pub head : List ℕ → ℕ
head [] = 0
head (c ∷ cs) = c

abbrev pub tail : List ℕ → List ℕ
tail [] = []
tail (c ∷ cs) = cs

abbrev pub peek : Lexer → ℕ
peek lex = head lex.current

abbrev pub peek_next : Lexer → ℕ
peek_next lex = head (tail lex.current)

-- The position behind a character.
abbrev pub move_on : List ℕ → Lexer → Lexer
move_on [] lex = lex
move_on (c ∷ cs) lex = record {
  current = cs;
  line = if c == 10 then (lex.line + 1) % 2 ^ 32 else lex.line;
  column = if c == 10 then 1 else (lex.column + 1) % 2 ^ 32;
}

unfoldable pub advance : Lexer → Lexer
advance lex = move_on lex.current lex

-- Loops that advance while a test holds.
unfoldable pub skip_while : (ℕ → Bool) → List ℕ → Lexer → Lexer
skip_while p [] lex = lex
skip_while p (c ∷ cs) lex =
    let rest = skip_while p cs (advance lex) in if p (peek lex) then rest else lex

unfoldable pub skip_whitespace : Lexer → Lexer
unfolding skip_while
skip_whitespace lex = skip_while is_space lex.current lex

unfoldable pub skip_comment : Lexer → Lexer
unfolding skip_while advance
skip_comment lex =
    let behind = advance (advance lex) in skip_while (λ c. not (c == 10)) behind.current behind

abbrev pub is_comment : Lexer → Bool
is_comment lex = peek lex == 45 && peek_next lex == 45

-- The loop at the start of `lexer_next`.
unfoldable pub skip_blanks : List ℕ → Lexer → Lexer
unfolding skip_whitespace skip_comment
skip_blanks [] lex = skip_whitespace lex
skip_blanks (c ∷ cs) lex =
    let spaced = skip_whitespace lex in
    let rest = skip_blanks cs (skip_comment spaced) in if is_comment spaced then rest else spaced

-- `text` from index `i` on, and where the word ends.
unfoldable pub read_word : List ℕ → ℕ → Lexer → Lexer × List ℕ
read_word [] i lex = (lex, [])
read_word (c ∷ cs) i lex =
    let (behind, text) = read_word cs (i + 1) (advance lex) in
    if is_word (peek lex) && ltb i 255 then (behind, peek lex ∷ text) else (lex, [])

unfoldable pub read_identifier_or_keyword : Token → Lexer → Lexer × Token
unfolding read_word lexer_keyword_id
read_identifier_or_keyword token lex =
    let (behind, text) = read_word lex.current 0 lex in
    let id = lexer_keyword_id text in
    (
      behind,
      record token {
        type = (if id == 0 then identifier else keyword);
        text = text;
        keyword_id = id;
      },
    )

unfoldable pub read_digits : List ℕ → ℕ → ℕ → Lexer → Lexer × List ℕ × ℕ
read_digits [] i value lex = (lex, [], value)
read_digits (c ∷ cs) i value lex =
    let (behind, text, result) =
      read_digits cs (i + 1) ((value * 10 + (peek lex - 48)) % 2 ^ 32) (advance lex) in
    if isdigit (peek lex) && ltb i 255 then (behind, peek lex ∷ text, result) else (lex, [], value)

unfoldable pub read_number : Token → Lexer → Lexer × Token
unfolding read_digits
read_number token lex =
    let negative = peek lex == 45 in
    let start = if negative then advance lex else lex in
    let (behind, text, value) = read_digits start.current (if negative then 1 else 0) 0 start in
    (
      behind,
      record token {
        type = integer;
        text = (if negative then 45 ∷ text else text);
        int_value = (if negative then (2 ^ 32 - value) % 2 ^ 32 else value);
      },
    )

-- From behind the opening quote.
unfoldable pub read_quoted : List ℕ → ℕ → Lexer → Lexer × List ℕ
read_quoted [] i lex = (lex, [])
read_quoted (c ∷ cs) i lex =
    let pair = peek lex == 39 && peek_next lex == 39 in
    let (behind, text) =
      read_quoted cs (i + 1) (if pair then advance (advance lex) else advance lex) in
    if not (peek lex == 0) && ltb i 255
    then (if peek lex == 39 && not pair then (advance lex, []) else (behind, peek lex ∷ text))
    else (lex, [])

unfoldable pub read_string : Token → Lexer → Lexer × Token
unfolding read_quoted
read_string token lex =
    let start = advance lex in
    let (behind, text) = read_quoted start.current 0 start in
    (behind, record token { type = string; text = text })

abbrev pub symbol_token : Token → ℕ → List ℕ → Token
symbol_token token id text = record token { type = symbol; text = text; symbol_id = id }

unfoldable pub read_symbol : Token → Lexer → Lexer × Token
unfolding advance
read_symbol token lex =
    let ch = peek lex in
    let next = peek_next lex in
    if ch == 60 && next == 61
    then (advance (advance lex), symbol_token token 256 (60 ∷ 61 ∷ []))
    else if ch == 62 && next == 61
    then (advance (advance lex), symbol_token token 257 (62 ∷ 61 ∷ []))
    else if ch == 33 && next == 61
    then (advance (advance lex), symbol_token token 258 (33 ∷ 61 ∷ []))
    else if ch == 60 && next == 62
    then (advance (advance lex), symbol_token token 258 (60 ∷ 62 ∷ []))
    else (advance lex, symbol_token token ch (ch ∷ []))

-- The token before its kind is known; "<EOF>" is the text at the end of the input.
unfoldable pub token_at : Lexer → Token
token_at lex = record {
  type = eof;
  text = [];
  int_value = 0;
  keyword_id = 0;
  symbol_id = 0;
  line = lex.line;
  column = lex.column;
}

-- The token that begins at the lexer's position.
unfoldable pub read_token : Lexer → Lexer × Token
unfolding token_at read_identifier_or_keyword read_number read_string read_symbol
read_token lex =
    let token = token_at lex in
    if peek lex == 0
    then (lex, record token { text = 60 ∷ 69 ∷ 79 ∷ 70 ∷ 62 ∷ [] })
    else if isalpha (peek lex) || peek lex == 95
    then read_identifier_or_keyword token lex
    else if isdigit (peek lex) || peek lex == 45 && isdigit (peek_next lex)
    then read_number token lex
    else if peek lex == 39
    then read_string token lex
    else read_symbol token lex

unfoldable pub lexer_next : Lexer → Lexer × Token
unfolding skip_blanks read_token
lexer_next lex = read_token (skip_blanks lex.current lex)

unfoldable pub lexer_peek : Lexer → Lexer × Token
unfolding lexer_next
lexer_peek lex = (lex, (lexer_next lex).1)
