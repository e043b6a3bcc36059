-- ===== src/Sql/Parser/State.antt =====
-- The state of the parser of src/sql/parser.c and its helper functions.
-- The state holds the lexer that the parser's pointer names. Messages are lists of characters, cut to
-- the 255 that `error_msg` has room for.
use Prim.Native.Char.{code}
use Prim.Native.String.{String}
use amidb.Base.{
  ℕ, Bool, true, false, ◌&&◌, none, some, List, [], ◌∷◌, ◌++◌, if◌then◌else◌, ◌==◌, take,
}
use amidb.Base.Effect.{Op, modifies}
use amidb.Sql.Lexer.Defs.{
  TokenType, eof, keyword, identifier, integer, string, symbol, Token, Lexer, lexer_next,
}

-- The characters of a text of ASCII.
abbrev pub codes : String → List ℕ
codes String.[] = []
codes (String.◌∷◌ c s) = code c ∷ codes s

pub record SqlParser : Type 0 where
  pub lexer : Lexer
  pub current : Token
  pub next : Token
  pub error_msg : List ℕ
  pub has_error : Bool

unfoldable pub parser_init : Lexer → SqlParser
unfolding lexer_next
parser_init lex =
    let (behind, first) = lexer_next lex in
    let (rest, second) = lexer_next behind in
    record { lexer = rest; current = first; next = second; error_msg = []; has_error = false }

unfoldable pub parser_advance : SqlParser → SqlParser
unfolding lexer_next
parser_advance parser =
    let (behind, token) = lexer_next parser.lexer in
    record parser { lexer = behind; current = parser.next; next = token }

abbrev pub same_type : TokenType → TokenType → Bool
same_type eof eof = true
same_type keyword keyword = true
same_type identifier identifier = true
same_type integer integer = true
same_type string string = true
same_type symbol symbol = true
same_type _ _ = false

unfoldable pub match_keyword : ℕ → SqlParser → Bool
match_keyword id parser = same_type parser.current.type keyword && parser.current.keyword_id == id

unfoldable pub match_symbol : ℕ → SqlParser → Bool
match_symbol id parser = same_type parser.current.type symbol && parser.current.symbol_id == id

unfoldable pub set_error : List ℕ → SqlParser → SqlParser
set_error message parser = record parser { error_msg = take 255 message; has_error = true }

-- "Expected ..., got '...'" of `snprintf`.
abbrev pub got : List ℕ → SqlParser → List ℕ
got expected parser = expected ++ (parser.current.text ++ (39 ∷ []))

unfoldable pub expect_keyword : ℕ → Op SqlParser (Unit {0})
unfolding match_keyword parser_advance set_error
expect_keyword id parser =
    if match_keyword id parser
    then (parser_advance parser, some tt)
    else (set_error (got (codes "Expected keyword, got '") parser) parser, none)

unfoldable pub expect_symbol : ℕ → Op SqlParser (Unit {0})
unfolding match_symbol parser_advance set_error
expect_symbol id parser =
    if match_symbol id parser
    then (parser_advance parser, some tt)
    else (set_error (got (codes "Expected symbol, got '") parser) parser, none)

unfoldable pub expect_identifier : Op SqlParser (List ℕ)
unfolding parser_advance set_error
expect_identifier parser =
    if same_type parser.current.type identifier
    then (parser_advance parser, some (take 63 parser.current.text))
    else (set_error (got (codes "Expected identifier, got '") parser) parser, none)

unfoldable pub parser_get_error : SqlParser → List ℕ
parser_get_error parser = parser.error_msg

-- `set_error`, then the return of -1.
abbrev pub refuse : {A : Type 0} → String → Op SqlParser A
refuse message parser = (set_error (codes message) parser, none)

-- A step of the parser that takes the current token.
abbrev pub step : Op SqlParser (Unit {0})
step = modifies parser_advance

-- What the current token holds, which is consumed.
abbrev pub take_current : Op SqlParser Token
take_current parser = (parser_advance parser, some parser.current)

-- A test of the current token, which is not consumed.
unfoldable pub branch :
    {A : Type 0} → (SqlParser → Bool) → Op SqlParser A → Op SqlParser A → Op SqlParser A
branch test yes_part no_part parser = (if test parser then yes_part else no_part) parser

abbrev pub is_type : TokenType → SqlParser → Bool
is_type type parser = same_type parser.current.type type
