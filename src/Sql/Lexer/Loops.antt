-- ===== src/Sql/Lexer/Loops.antt =====
-- The loops of src/sql/lexer.c: how far they advance, and how much they read.
use mathlib.Core.Path.{subst}
use amidb.Base.{
  ℕ, ◌+◌, ◌-◌, ◌*◌, ◌%◌, ◌^◌, ◌≤◌, ◌<◌, ◌≡◌, inl, inr, refl, sym, ap, Bool, true, false, not, ◌&&◌,
  List, [], ◌∷◌, arith, if◌then◌else◌, ltb, ◌==◌, length, All, Bool-cases,
}
use amidb.Sql.Lexer.Defs.{
  head, Lexer, isdigit, is_word, is_space, peek, peek_next, move_on, advance, skip_while,
  skip_whitespace, skip_comment, is_comment, skip_blanks, read_word, read_digits, read_quoted,
}

-- No character is the zero that ends the text.
abbrev pub IsText : List ℕ → Type 0
IsText cs = All (λ c. 0 < c) cs

-- A position at or behind another.
pub record Behind (a b : Lexer) : Type 0 where
  pub left : length b.current ≤ length a.current
  pub text : IsText a.current → IsText b.current

Behind-refl : (a : Lexer) → Behind a a
Behind-refl a = record { left = omega arith; text = λ h. h }

Behind-trans : {a b c : Lexer} → Behind a b → Behind b c → Behind a c
Behind-trans p q = record { left = omega (arith, p.left, q.left); text = λ h. q.text (p.text h) }

Behind-if : (c : Bool) (a x y : Lexer) → Behind a x → Behind a y → Behind a (if c then x else y)
Behind-if true a x y p q = p
Behind-if false a x y p q = q

move_on-Behind : (cs : List ℕ) (lex : Lexer) → cs ≡ lex.current → Behind lex (move_on cs lex)
move_on-Behind [] lex e = Behind-refl lex
move_on-Behind (c ∷ cs) lex e = record {
  left = omega (arith, ap length e);
  text = λ h. (subst IsText (sym e) h).1;
}

pub advance-Behind : (lex : Lexer) → Behind lex (advance lex)
unfolding advance
advance-Behind lex = move_on-Behind lex.current lex refl

-- Where a character is left, an advance takes it.
move_on_less :
    (cs : List ℕ) (lex : Lexer)
    → cs ≡ lex.current
    → 0 < length cs
    → length (move_on cs lex).current < length lex.current
move_on_less [] lex e more = absurd (omega arith)
move_on_less (c ∷ cs) lex e more = omega (arith, ap length e)

pub advance_less :
    (lex : Lexer) → 0 < length lex.current → length (advance lex).current < length lex.current
unfolding advance
advance_less lex more = move_on_less lex.current lex refl more

skip_while-Behind : (p : ℕ → Bool) (cs : List ℕ) (lex : Lexer) → Behind lex (skip_while p cs lex)
unfolding skip_while
skip_while-Behind p [] lex = Behind-refl lex
skip_while-Behind p (c ∷ cs) lex =
    Behind-if (p (peek lex)) lex _ lex
      (Behind-trans (advance-Behind lex) (skip_while-Behind p cs (advance lex))) (Behind-refl lex)

skip_comment-Behind : (lex : Lexer) → Behind lex (skip_comment lex)
unfolding skip_comment
skip_comment-Behind lex = Behind-trans (advance-Behind lex) (
    Behind-trans (advance-Behind (advance lex)) (
      skip_while-Behind (λ c. not (c == 10)) (advance (advance lex)).current
        (advance (advance lex))))

pub skip_blanks-Behind : (cs : List ℕ) (lex : Lexer) → Behind lex (skip_blanks cs lex)
unfolding skip_blanks skip_whitespace
skip_blanks-Behind [] lex = skip_while-Behind is_space lex.current lex
skip_blanks-Behind (c ∷ cs) lex =
    let spaced = skip_whitespace lex in
    let first = skip_while-Behind is_space lex.current lex in
    Behind-if (is_comment spaced) lex _ spaced
      (Behind-trans first
        (Behind-trans (skip_comment-Behind spaced) (skip_blanks-Behind cs (skip_comment spaced))))
      first

-- What a loop gives that reads the characters of a token, at most 255 with those before it.
pub record Spelled (i : ℕ) (a b : Lexer) (text : List ℕ) : Type 0 where
  pub left : length b.current ≤ length a.current
  pub bounded : i + length text ≤ 255

pub read_word-Spelled :
    (cs : List ℕ) (i : ℕ) (lex : Lexer)
    → i ≤ 255
    → Spelled i lex (read_word cs i lex).0 (read_word cs i lex).1
unfolding read_word
read_word-Spelled [] i lex le = record { left = omega arith; bounded = omega arith }
read_word-Spelled (c ∷ cs) i lex le = elim (Bool-cases (is_word (peek lex) && ltb i 255)) [
  | inr stop ↦ rw stop record { left = omega arith; bounded = omega arith }
  | inl go ↦
      let rest = read_word-Spelled cs (i + 1) (advance lex) (ground arith) in
      let step = advance-Behind lex in
      rw go
        record { left = omega (arith, rest.left, step.left); bounded = omega (arith, rest.bounded) }
]

pub read_digits-Spelled :
    (cs : List ℕ) (i value : ℕ) (lex : Lexer)
    → i ≤ 255
    → Spelled i lex (read_digits cs i value lex).0 (read_digits cs i value lex).1
unfolding read_digits
read_digits-Spelled [] i value lex le = record { left = omega arith; bounded = omega arith }
read_digits-Spelled (c ∷ cs) i value lex le = elim (Bool-cases (isdigit (peek lex) && ltb i 255)) [
  | inr stop ↦ rw stop record { left = omega arith; bounded = omega arith }
  | inl go ↦
      let rest =
        read_digits-Spelled cs (i + 1) ((value * 10 + (peek lex - 48)) % 2 ^ 32) (advance lex)
          (ground arith) in
      let step = advance-Behind lex in
      rw go
        record { left = omega (arith, rest.left, step.left); bounded = omega (arith, rest.bounded) }
]

pub read_quoted-Spelled :
    (cs : List ℕ) (i : ℕ) (lex : Lexer)
    → i ≤ 255
    → Spelled i lex (read_quoted cs i lex).0 (read_quoted cs i lex).1
unfolding read_quoted
read_quoted-Spelled [] i lex le = record { left = omega arith; bounded = omega arith }
read_quoted-Spelled (c ∷ cs) i lex le =
    let pair = peek lex == 39 && peek_next lex == 39 in
    let next = if pair then advance (advance lex) else advance lex in
    let one = advance-Behind lex in
    let two = Behind-trans one (advance-Behind (advance lex)) in
    let step = Behind-if pair lex (advance (advance lex)) (advance lex) two one in
    elim (Bool-cases (not (peek lex == 0) && ltb i 255)) [
      | inr stop ↦ rw stop record { left = omega arith; bounded = omega arith }
      | inl go ↦ elim (Bool-cases (peek lex == 39 && not pair)) [
        | inl close ↦ rw (go, close) record { left = one.left; bounded = omega arith }
        | inr more ↦
            let rest = read_quoted-Spelled cs (i + 1) next (ground arith) in
            rw (go, more)
              record {
                left = omega (arith, rest.left, step.left);
                bounded = omega (arith, rest.bounded);
              }
      ]
    ]

-- There is a character where the head is not the zero, and only there.
pub head_left : (cs : List ℕ) → (head cs == 0) ≡ false → 0 < length cs
head_left [] e = ground arith
head_left (c ∷ cs) e = omega arith

pub head_ends : (cs : List ℕ) → IsText cs → (head cs == 0) ≡ true → cs ≡ []
head_ends [] h e = refl
head_ends (c ∷ cs) h e = let positive = h.0 in ground arith

pub read_word_less :
    (cs : List ℕ) (lex : Lexer)
    → cs ≡ lex.current
    → 0 < length cs
    → is_word (peek lex) ≡ true
    → length (read_word cs 0 lex).0.current < length lex.current
unfolding read_word
read_word_less [] lex e more word = absurd (omega arith)
read_word_less (c ∷ cs) lex e more word =
    let step = advance_less lex (omega (arith, ap length e)) in
    let rest = (read_word-Spelled cs (0 + 1) (advance lex) (omega arith)).left in
    rw word (omega arith)

pub read_digits_less :
    (cs : List ℕ) (lex : Lexer)
    → cs ≡ lex.current
    → 0 < length cs
    → isdigit (peek lex) ≡ true
    → length (read_digits cs 0 0 lex).0.current < length lex.current
unfolding read_digits
read_digits_less [] lex e more digit = absurd (omega arith)
read_digits_less (c ∷ cs) lex e more digit =
    let step = advance_less lex (omega (arith, ap length e)) in
    let rest =
      (read_digits-Spelled cs (0 + 1) ((0 * 10 + (peek lex - 48)) % 2 ^ 32) (advance lex)
        (omega arith)).left in
    rw digit (omega arith)
