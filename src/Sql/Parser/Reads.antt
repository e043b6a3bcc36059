-- ===== src/Sql/Parser/Reads.antt =====
-- The words that a parser has ahead of it, and the operations that read such words.
use mathlib.Core.List.{append_assoc}
use amidb.Base.{ℕ, ◌≡◌, refl, Bool, true, false, some, List, [], ◌∷◌, ◌++◌, ◌==◌, arith, take}
use amidb.Base.Effect.{Op, ◌>>=◌, ◌>>◌, return}
use amidb.Sql.Lexer.Defs.{TokenType, eof, keyword, identifier, integer, string, symbol, Token}
use amidb.Sql.Parser.State.{
  step, take_current, branch, is_type, SqlParser, parser_advance, same_type, match_keyword,
  match_symbol, expect_keyword, expect_symbol, expect_identifier,
}
use amidb.Sql.Parser.Grammar.{Word, kw, sym, num, name, quote, stop}

-- The token of a word, wherever it stands in the text.
abbrev pub Is : Word → Token → Type 0
Is (kw id) t = (t.type ≡ keyword) × t.keyword_id ≡ id
Is (sym id) t = (t.type ≡ symbol) × t.symbol_id ≡ id
Is (num n) t = (t.type ≡ integer) × t.int_value ≡ n
Is (name s) t = (t.type ≡ identifier) × t.text ≡ s
Is (quote s) t = (t.type ≡ string) × t.text ≡ s
Is stop t = t.type ≡ eof

-- The next tokens are these words.
abbrev pub Ahead : SqlParser → List Word → Type 0
Ahead p [] = Unit
Ahead p (w ∷ ws) = Is w p.current × Ahead (parser_advance p) ws

abbrev pub after : List Word → SqlParser → SqlParser
after [] p = p
after (w ∷ ws) p = after ws (parser_advance p)

pub after-append : (ws vs : List Word) (p : SqlParser) → after (ws ++ vs) p ≡ after vs (after ws p)
after-append [] vs p = refl
after-append (w ∷ ws) vs p = after-append ws vs (parser_advance p)

-- An operation reads `ws` off the input, where `rest` follows, and gives `a`.
pub record Reads {A : Type 0} (m : Op SqlParser A) (ws rest : List Word) (a : A) : Type 0 where
  pub run : (p : SqlParser) → Ahead p (ws ++ rest) → m p ≡ (after ws p, some a)

pub Ahead-append :
    (ws vs : List Word) (p : SqlParser) → Ahead p (ws ++ vs) → Ahead p ws × Ahead (after ws p) vs
Ahead-append [] vs p h = (tt, h)
Ahead-append (w ∷ ws) vs p (e, h) =
    let (h1, h2) = Ahead-append ws vs (parser_advance p) h in ((e, h1), h2)

pub bind-Reads :
    {A B : Type 0} {m : Op SqlParser A} (f : A → Op SqlParser B) {a : A} {b : B} (ws vs : List Word)
    {rest : List Word}
    → Reads m ws (vs ++ rest) a
    → Reads (f a) vs rest b
    → Reads (m >>= f) (ws ++ vs) rest b
bind-Reads f ws vs {rest} first second = record {
  run = λ p h.
      let h' : Ahead p (ws ++ (vs ++ rest)) = rw append_assoc at h in
      let e1 = first.run p h' in
      let e2 = second.run (after ws p) (Ahead-append ws (vs ++ rest) p h').1 in
      rw (e1, e2, after-append) refl;
}

-- A last step, and what is made of its value.
pub last-Reads :
    {A B : Type 0} {m : Op SqlParser A} (g : A → B) {a : A} {ws rest : List Word}
    → Reads m ws rest a
    → Reads (m >>= λ x. return (g x)) ws rest (g a)
last-Reads g first = record { run = λ p h. rw (first.run p h) refl }

-- A test that the words ahead decide.
module _ {A : Type 0} {test : SqlParser → Bool} {ws rest : List Word} {a : A} where
  pub yes-Reads :
      {m : Op SqlParser A} (n : Op SqlParser A)
      → ((p : SqlParser) → Ahead p (ws ++ rest) → test p ≡ true)
      → Reads m ws rest a
      → Reads (branch test m n) ws rest a
  unfolding branch
  yes-Reads n decided next = record { run = λ p h. rw (decided p h) (next.run p h) }

  pub no-Reads :
      (m : Op SqlParser A) {n : Op SqlParser A}
      → ((p : SqlParser) → Ahead p (ws ++ rest) → test p ≡ false)
      → Reads n ws rest a
      → Reads (branch test m n) ws rest a
  unfolding branch
  no-Reads m decided next = record { run = λ p h. rw (decided p h) (next.run p h) }

pub then-Reads :
    {A : Type 0} {m : Op SqlParser (Unit {0})} {n : Op SqlParser A} {a : A} (ws vs : List Word)
    {rest : List Word}
    → Reads m ws (vs ++ rest) tt
    → Reads n vs rest a
    → Reads (m >> n) (ws ++ vs) rest a
then-Reads {n} ws vs first second = bind-Reads (λ _. n) ws vs first second

pub return-Reads : {A : Type 0} (a : A) (rest : List Word) → Reads (return a) [] rest a
return-Reads a rest = record { run = λ p h. refl }

abbrev pub is_keyword : ℕ → Word → Bool
is_keyword id (kw k) = k == id
is_keyword id (sym _) = false
is_keyword id (num _) = false
is_keyword id (name _) = false
is_keyword id (quote _) = false
is_keyword id stop = false

abbrev pub is_symbol : ℕ → Word → Bool
is_symbol id (sym k) = k == id
is_symbol id (kw _) = false
is_symbol id (num _) = false
is_symbol id (name _) = false
is_symbol id (quote _) = false
is_symbol id stop = false

pub match_keyword-Is :
    (id : ℕ) (w : Word) (p : SqlParser) → Is w p.current → match_keyword id p ≡ is_keyword id w
unfolding match_keyword
match_keyword-Is id (kw k) p (e, e') = rw (e, e') refl
match_keyword-Is id (sym k) p (e, e') = rw e refl
match_keyword-Is id (num k) p (e, e') = rw e refl
match_keyword-Is id (name k) p (e, e') = rw e refl
match_keyword-Is id (quote k) p (e, e') = rw e refl
match_keyword-Is id stop p e = rw e refl

pub match_symbol-Is :
    (id : ℕ) (w : Word) (p : SqlParser) → Is w p.current → match_symbol id p ≡ is_symbol id w
unfolding match_symbol
match_symbol-Is id (sym k) p (e, e') = rw (e, e') refl
match_symbol-Is id (kw k) p (e, e') = rw e refl
match_symbol-Is id (num k) p (e, e') = rw e refl
match_symbol-Is id (name k) p (e, e') = rw e refl
match_symbol-Is id (quote k) p (e, e') = rw e refl
match_symbol-Is id stop p e = rw e refl

abbrev pub type_of : Word → TokenType
type_of (kw _) = keyword
type_of (sym _) = symbol
type_of (num _) = integer
type_of (name _) = identifier
type_of (quote _) = string
type_of stop = eof

pub is_type-Is :
    (type : TokenType) (w : Word) (p : SqlParser)
    → Is w p.current
    → is_type type p ≡ same_type (type_of w) type
is_type-Is type (kw k) p (e, e') = rw e refl
is_type-Is type (sym k) p (e, e') = rw e refl
is_type-Is type (num k) p (e, e') = rw e refl
is_type-Is type (name k) p (e, e') = rw e refl
is_type-Is type (quote k) p (e, e') = rw e refl
is_type-Is type stop p e = rw e refl

pub eq_self : (n : ℕ) → (n == n) ≡ true
eq_self n = ground arith

pub expect_keyword-Reads :
    (id : ℕ) (rest : List Word) → Reads (expect_keyword id) (kw id ∷ []) rest tt
unfolding expect_keyword
expect_keyword-Reads id rest = record {
  run = λ p (e, h). rw (match_keyword-Is id (kw id) p e, eq_self id) refl;
}

pub expect_symbol-Reads :
    (id : ℕ) (rest : List Word) → Reads (expect_symbol id) (sym id ∷ []) rest tt
unfolding expect_symbol
expect_symbol-Reads id rest = record {
  run = λ p (e, h). rw (match_symbol-Is id (sym id) p e, eq_self id) refl;
}

pub expect_identifier-Reads :
    (s : List ℕ) (rest : List Word) → Reads expect_identifier (name s ∷ []) rest (take 63 s)
unfolding expect_identifier
expect_identifier-Reads s rest = record { run = λ p ((e, e'), h). rw (e, e') refl }

pub take-Reads :
    {A : Type 0} (g : Token → A) (w : Word) (rest : List Word) {a : A}
    → ((t : Token) → Is w t → g t ≡ a)
    → Reads (take_current >>= λ token. return (g token)) (w ∷ []) rest a
take-Reads g w rest h = record { run = λ p (e, h'). rw (h p.current e) refl }

pub step-Reads : (w : Word) (rest : List Word) → Reads step (w ∷ []) rest tt
step-Reads w rest = record { run = λ p h. refl }
