-- ===== src/Sql/Lexer/Quoted.antt =====
-- String literals of src/sql/lexer.c, and how they are written.
use amidb.Base.{
  ℕ, ◌+◌, ◌≤◌, ◌<◌, ◌≡◌, ◌≢◌, refl, sym, ap, ◌∙◌, true, false, List, [], ◌∷◌, ◌++◌, arith,
  if◌then◌else◌, ltb, ◌==◌, ==_iff, length, length-append, Bool-cases, inl, inr,
}
use amidb.Sql.Lexer.Defs.{
  string, Lexer, head, tail, peek, peek_next, move_on, advance, skip_while, skip_whitespace,
  skip_blanks, read_quoted, read_string, read_token, lexer_next,
}
use amidb.Sql.Lexer.Loops.{IsText}

-- The characters of a literal between its quotes.
pub quoted : List ℕ → List ℕ
quoted [] = []
quoted (c ∷ cs) = if c == 39 then 39 ∷ 39 ∷ quoted cs else c ∷ quoted cs

length-quoted : (s : List ℕ) → length s ≤ length (quoted s)
unfolding quoted
length-quoted [] = omega arith
length-quoted (c ∷ cs) = elim (Bool-cases (c == 39)) [
  | inl quote ↦ rw quote (omega (arith, length-quoted cs))
  | inr other ↦ rw other (omega (arith, length-quoted cs))
]

current-advance :
    (lex : Lexer) (c : ℕ) (cs : List ℕ) → lex.current ≡ c ∷ cs → (advance lex).current ≡ cs
unfolding advance
current-advance lex c cs e = ap (λ l. (move_on l lex).current) e

-- The text and the rest of the input behind the closing quote.
record ReadBack (s rest : List ℕ) (r : Lexer × List ℕ) : Type 0 where
  text : r.1 ≡ s
  left : r.0.current ≡ rest

module _ (rest : List ℕ) (closed : head rest ≢ 39) where
  read_quoted-ReadBack :
      (fuel : List ℕ) (s : List ℕ) (i : ℕ) (lex : Lexer)
      → lex.current ≡ quoted s ++ (39 ∷ rest)
      → IsText s
      → length s + i < 255
      → length s < length fuel
      → ReadBack s rest (read_quoted fuel i lex)
  unfolding read_quoted quoted
  read_quoted-ReadBack [] s i lex at text short enough = absurd (omega arith)
  read_quoted-ReadBack (f ∷ fuel) [] i lex at text short enough =
      let room : ltb i 255 ≡ true = ground arith in
      let here : peek lex ≡ 39 = ap head at in
      let next : (peek_next lex == 39) ≡ false = ground (arith, ap (λ l. head (tail l)) at) in
      rw (here, next, room) record { text = refl; left = current-advance lex 39 rest at }
  read_quoted-ReadBack (f ∷ fuel) (c ∷ cs) i lex at (positive, text) short enough =
      let room : ltb i 255 ≡ true = ground arith in
      elim (Bool-cases (c == 39)) [
        | inl quote ↦
            let same = (==_iff c 39).0 quote in
            let whole : lex.current ≡ 39 ∷ 39 ∷ (quoted cs ++ (39 ∷ rest)) = at ∙ rw quote refl in
            let here : peek lex ≡ 39 = ap head whole in
            let next : peek_next lex ≡ 39 = ap (λ l. head (tail l)) whole in
            let behind = current-advance (advance lex) 39 _ (current-advance lex 39 _ whole) in
            let back =
              read_quoted-ReadBack fuel cs (i + 1) (advance (advance lex)) behind text (omega arith)
                (omega arith) in
            rw (here, next, room)
              record {
                text = ap (◌∷◌ 39) back.text ∙ ap (λ x. x ∷ cs) (sym same);
                left = back.left;
              }
        | inr other ↦
            let whole : lex.current ≡ c ∷ (quoted cs ++ (39 ∷ rest)) = at ∙ rw other refl in
            let here : peek lex ≡ c = ap head whole in
            let char : (c == 0) ≡ false = ground arith in
            let back =
              read_quoted-ReadBack fuel cs (i + 1) (advance lex) (current-advance lex c _ whole)
                text (omega arith) (omega arith) in
            rw (here, other, char, room) record { text = ap (◌∷◌ c) back.text; left = back.left }
      ]

-- A literal of fewer than 255 characters, its quotes doubled and quotes around it, with no quote
-- behind it: `lexer_next` returns a STRING token whose text is the literal's, and goes on behind the
-- closing quote.
pub lexer_next-quoted :
    (s rest : List ℕ) (line column : ℕ)
    → IsText s
    → length s < 255
    → head rest ≢ 39
    → let r =
        lexer_next
          (record { current = 39 ∷ (quoted s ++ (39 ∷ rest)); line = line; column = column }) in
      (r.1.type ≡ string) × (r.1.text ≡ s) × (r.0.current ≡ rest)
unfolding lexer_next skip_blanks skip_whitespace skip_while read_token read_string
lexer_next-quoted s rest line column text short closed =
    let lex : Lexer = record {
      current = 39 ∷ (quoted s ++ (39 ∷ rest));
      line = line;
      column = column;
    } in
    let start = advance lex in
    let at = current-advance lex 39 (quoted s ++ (39 ∷ rest)) refl in
    let room = length-append (quoted s) (39 ∷ rest) in
    let back =
      read_quoted-ReadBack rest closed start.current s 0 start at text (omega arith)
        (omega (arith, ap length at, room, length-quoted s)) in
    (refl, back.text, back.left)
