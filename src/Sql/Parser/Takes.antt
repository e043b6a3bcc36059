-- ===== src/Sql/Parser/Takes.antt =====
-- Postconditions of an operation that succeeds: which words it took.
use mathlib.Core.Path.{subst}
use amidb.Base.{
  ℕ, ◌≡◌, refl, sym as flip, ◌∙◌, ap, Bool, true, false, Option, none, some, List, [], ◌∷◌, ◌++◌,
  ◌==◌, if◌then◌else◌, arith, take,
}
use amidb.Base.Effect.{Op, and_then, return}
use amidb.Sql.Lexer.Defs.{TokenType, keyword, identifier, symbol}
use amidb.Sql.Parser.State.{
  SqlParser, is_type, parser_advance, same_type, match_keyword, match_symbol, expect_keyword,
  expect_symbol, expect_identifier,
}
use amidb.Sql.Parser.Grammar.{Word, kw, sym, name}
use amidb.Sql.Parser.Reads.{Is, Ahead, after, after-append}

-- Where the result of a run from `p` has a value `a`, the run took words that `G` allows for `a`, and
-- stands behind them.
pub record At {A : Type 0} (p : SqlParser) (r : SqlParser × Option A) (G : List Word → A → Type 0)
    : Type 0 where
  pub took :
      (p' : SqlParser) (a : A)
      → r ≡ (p', some a)
      → (ws : List Word) × G ws a × Ahead p ws × p' ≡ after ws p

abbrev pub Takes : {A : Type 0} → Op SqlParser A → (List Word → A → Type 0) → Type 0
Takes m G = (p : SqlParser) → At p (m p) G

Ahead-join :
    (ws vs : List Word) (p : SqlParser) → Ahead p ws → Ahead (after ws p) vs → Ahead p (ws ++ vs)
Ahead-join [] vs p h h' = h'
Ahead-join (w ∷ ws) vs p (e, h) h' = (e, Ahead-join ws vs (parser_advance p) h h')

and_then-inv :
    {A B : Type 0} (r : SqlParser × Option A) (f : A → Op SqlParser B) (p' : SqlParser) (b : B)
    → and_then r f ≡ (p', some b)
    → (q : SqlParser) × (a : A) × (r ≡ (q, some a)) × f a q ≡ (p', some b)
and_then-inv (q, some a) f p' b e = (q, a, refl, e)
and_then-inv (q, none) f p' b e = cc

pub bind-At :
    {A B : Type 0} {r : SqlParser × Option A} (f : A → Op SqlParser B) (G : List Word → A → Type 0)
    {H : List Word → B → Type 0} {p : SqlParser}
    → At p r G
    → ((ws : List Word) (a : A) → G ws a → Takes (f a) (λ vs b. H (ws ++ vs) b))
    → At p (and_then r f) H
bind-At {r} f G {H} {p} first rest = record {
  took = λ p' b e.
      let (q, a, e1, e2) = and_then-inv r f p' b e in
      let (ws, g, h, eq) = first.took q a e1 in
      let (vs, g', h', eq') = (rest ws a g q).took p' b e2 in
      (
        ws ++ vs,
        g',
        Ahead-join ws vs p h (subst (λ x. Ahead x vs) eq h'),
        eq' ∙ (ap (after vs) eq ∙ flip (after-append ws vs p)),
      );
}

-- A step that takes a word known beforehand.
pub then-At :
    {A : Type 0} {r : SqlParser × Option (Unit {0})} (n : Op SqlParser A) (w : Word)
    {H : List Word → A → Type 0} {p : SqlParser}
    → At p r (λ ws _. ws ≡ w ∷ [])
    → Takes n (λ vs b. H (w ∷ vs) b)
    → At p (and_then r (λ _. n)) H
then-At n w {H} first rest =
    bind-At (λ _. n) (λ ws _. ws ≡ w ∷ []) first
      λ ws a e. subst (λ x. Takes n (λ vs b. H (x ++ vs) b)) (flip e) rest

pub return-At :
    {A : Type 0} (a : A) (G : List Word → A → Type 0) {p : SqlParser} → G [] a → At p (p, some a) G
return-At a G {p} g = record { took = λ p' b e. ([], subst (G []) (cc) g, tt, cc) }

pub refuse-At :
    {A : Type 0} (q : SqlParser) (G : List Word → A → Type 0) {p : SqlParser}
    → At {A = A} p (q, none) G
refuse-At message G = record { took = λ p' b e. cc }

pub step-At :
    (w : Word) {p : SqlParser}
    → Is w p.current
    → At p (parser_advance p, some tt) (λ ws _. ws ≡ w ∷ [])
step-At w h = record { took = λ p' b e. (w ∷ [], refl, (h, tt), cc) }

-- The word of a known token, and what is made of it.
pub done-At :
    {A : Type 0} (x : A) (w : Word) (G : List Word → A → Type 0) {p : SqlParser}
    → Is w p.current
    → G (w ∷ []) x
    → At p (parser_advance p, some x) G
done-At x w G h y = record { took = λ p' b e. (w ∷ [], subst (G (w ∷ [])) (cc) y, (h, tt), cc) }

pub if-At :
    {A : Type 0} (b : Bool) (m n : Op SqlParser A) {G : List Word → A → Type 0} {p q : SqlParser}
    → (b ≡ true → At p (m q) G)
    → (b ≡ false → At p (n q) G)
    → At p ((if b then m else n) q) G
if-At true m n yes_part no_part = yes_part refl
if-At false m n yes_part no_part = no_part refl

-- The same for a conditional between results.
pub choose-At :
    {A : Type 0} (b : Bool) (x y : SqlParser × Option A) {G : List Word → A → Type 0}
    {p : SqlParser}
    → (b ≡ true → At p x G)
    → (b ≡ false → At p y G)
    → At p (if b then x else y) G
choose-At true m n yes_part no_part = yes_part refl
choose-At false m n yes_part no_part = no_part refl

pub same_type-eq : (a b : TokenType) → same_type a b ≡ true → a ≡ b
same_type-eq a b h = ground arith

pub match_keyword-true : (id : ℕ) (p : SqlParser) → match_keyword id p ≡ true → Is (kw id) p.current
unfolding match_keyword
match_keyword-true id p h = (ground (arith, same_type-eq p.current.type keyword), ground arith)

pub match_symbol-true : (id : ℕ) (p : SqlParser) → match_symbol id p ≡ true → Is (sym id) p.current
unfolding match_symbol
match_symbol-true id p h = (ground (arith, same_type-eq p.current.type symbol), ground arith)

pub expect_keyword-At : (id : ℕ) → Takes (expect_keyword id) (λ ws _. ws ≡ kw id ∷ [])
unfolding expect_keyword
expect_keyword-At id p =
    choose-At _ _ _ (λ h. step-At (kw id) (match_keyword-true id p h)) (λ h. refuse-At _ _)

pub expect_symbol-At : (id : ℕ) → Takes (expect_symbol id) (λ ws _. ws ≡ sym id ∷ [])
unfolding expect_symbol
expect_symbol-At id p =
    choose-At _ _ _ (λ h. step-At (sym id) (match_symbol-true id p h)) (λ h. refuse-At _ _)

-- A name is cut to 63 characters.
abbrev pub Name : List Word → List ℕ → Type 0
Name ws a = (s : List ℕ) × (ws ≡ name s ∷ []) × a ≡ take 63 s

pub expect_identifier-At : Takes expect_identifier Name
unfolding expect_identifier
expect_identifier-At p =
    choose-At _ _ _
      (λ h.
        done-At _ (name p.current.text) Name (same_type-eq p.current.type identifier h, refl)
          (p.current.text, refl, refl))
      (λ h. refuse-At _ _)

-- A last step, and what is made of its value.
pub map-At :
    {A B : Type 0} {r : SqlParser × Option A} (g : A → B) (G : List Word → A → Type 0)
    {H : List Word → B → Type 0} {p : SqlParser}
    → At p r G
    → ((ws : List Word) (a : A) → G ws a → H ws (g a))
    → At p (and_then r (λ x. return (g x))) H
map-At {r} g G {H} {p} first f = record {
  took = λ p' b e.
      let (q, a, e1, e2) = and_then-inv r (λ x. return (g x)) p' b e in
      let (ws, x, h, eq) = first.took q a e1 in (ws, subst (H ws) (cc) (f ws a x), h, cc);
}

-- The words of some syntax tree, and what it stands for.
abbrev pub Means : {Q A : Type 0} → (Q → List Word) → (Q → A) → List Word → A → Type 0
Means {Q} words f ws a = (q : Q) × (ws ≡ words q) × a ≡ f q

pub keyword_id-Is :
    (id : ℕ) (p : SqlParser)
    → is_type keyword p ≡ true
    → (p.current.keyword_id == id) ≡ true
    → Is (kw id) p.current
keyword_id-Is id p h h' = (same_type-eq p.current.type keyword h, ground arith)

pub symbol_id-Is :
    (id : ℕ) (p : SqlParser)
    → is_type symbol p ≡ true
    → (p.current.symbol_id == id) ≡ true
    → Is (sym id) p.current
symbol_id-Is id p h h' = (same_type-eq p.current.type symbol h, ground arith)

-- The weaker of two grammars.
pub weaken-At :
    {A : Type 0} {r : SqlParser × Option A} (G : List Word → A → Type 0)
    {H : List Word → A → Type 0} {p : SqlParser}
    → At p r G
    → ((ws : List Word) (a : A) → G ws a → H ws a)
    → At p r H
weaken-At G first f = record {
  took = λ p' b e. let (ws, g, h, q) = first.took p' b e in (ws, f ws b g, h, q);
}
