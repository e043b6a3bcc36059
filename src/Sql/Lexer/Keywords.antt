-- ===== src/Sql/Lexer/Keywords.antt =====
-- The keywords of src/sql/lexer.h and src/sql/lexer.c, with their numbers, as codes of characters.
use amidb.Base.{ℕ, ◌-◌, Bool, true, false, ◌&&◌, List, [], ◌∷◌, map, if◌then◌else◌, leb, ◌==◌, take}

-- In the order of the comparisons: SELECT, INSERT, UPDATE, DELETE, CREATE, DROP, TABLE, INDEX, FROM,
-- WHERE, INTO, VALUES, SET, ORDER, BY, LIMIT, PRIMARY, KEY, INTEGER, TEXT, BLOB, NULL, AND, OR, NOT,
-- ASC, DESC, COUNT, SUM, AVG, MIN, MAX.
abbrev pub keywords : List (List ℕ × ℕ)
keywords =
    (83 ∷ 69 ∷ 76 ∷ 69 ∷ 67 ∷ 84 ∷ [], 1)
    ∷ (73 ∷ 78 ∷ 83 ∷ 69 ∷ 82 ∷ 84 ∷ [], 2)
    ∷ (85 ∷ 80 ∷ 68 ∷ 65 ∷ 84 ∷ 69 ∷ [], 3)
    ∷ (68 ∷ 69 ∷ 76 ∷ 69 ∷ 84 ∷ 69 ∷ [], 4)
    ∷ (67 ∷ 82 ∷ 69 ∷ 65 ∷ 84 ∷ 69 ∷ [], 5)
    ∷ (68 ∷ 82 ∷ 79 ∷ 80 ∷ [], 6)
    ∷ (84 ∷ 65 ∷ 66 ∷ 76 ∷ 69 ∷ [], 7)
    ∷ (73 ∷ 78 ∷ 68 ∷ 69 ∷ 88 ∷ [], 8)
    ∷ (70 ∷ 82 ∷ 79 ∷ 77 ∷ [], 9)
    ∷ (87 ∷ 72 ∷ 69 ∷ 82 ∷ 69 ∷ [], 10)
    ∷ (73 ∷ 78 ∷ 84 ∷ 79 ∷ [], 11)
    ∷ (86 ∷ 65 ∷ 76 ∷ 85 ∷ 69 ∷ 83 ∷ [], 12)
    ∷ (83 ∷ 69 ∷ 84 ∷ [], 13)
    ∷ (79 ∷ 82 ∷ 68 ∷ 69 ∷ 82 ∷ [], 14)
    ∷ (66 ∷ 89 ∷ [], 15)
    ∷ (76 ∷ 73 ∷ 77 ∷ 73 ∷ 84 ∷ [], 16)
    ∷ (80 ∷ 82 ∷ 73 ∷ 77 ∷ 65 ∷ 82 ∷ 89 ∷ [], 17)
    ∷ (75 ∷ 69 ∷ 89 ∷ [], 18)
    ∷ (73 ∷ 78 ∷ 84 ∷ 69 ∷ 71 ∷ 69 ∷ 82 ∷ [], 19)
    ∷ (84 ∷ 69 ∷ 88 ∷ 84 ∷ [], 20)
    ∷ (66 ∷ 76 ∷ 79 ∷ 66 ∷ [], 21)
    ∷ (78 ∷ 85 ∷ 76 ∷ 76 ∷ [], 22)
    ∷ (65 ∷ 78 ∷ 68 ∷ [], 23)
    ∷ (79 ∷ 82 ∷ [], 24)
    ∷ (78 ∷ 79 ∷ 84 ∷ [], 25)
    ∷ (65 ∷ 83 ∷ 67 ∷ [], 26)
    ∷ (68 ∷ 69 ∷ 83 ∷ 67 ∷ [], 27)
    ∷ (67 ∷ 79 ∷ 85 ∷ 78 ∷ 84 ∷ [], 28)
    ∷ (83 ∷ 85 ∷ 77 ∷ [], 29)
    ∷ (65 ∷ 86 ∷ 71 ∷ [], 30)
    ∷ (77 ∷ 73 ∷ 78 ∷ [], 31)
    ∷ (77 ∷ 65 ∷ 88 ∷ [], 32)
    ∷ []

-- `strcmp(a, b) == 0`.
unfoldable pub same_text : List ℕ → List ℕ → Bool
same_text [] [] = true
same_text [] (y ∷ ys) = false
same_text (x ∷ xs) [] = false
same_text (x ∷ xs) (y ∷ ys) = let rest = same_text xs ys in x == y && rest

-- `toupper` of the C library, in the C locale.
abbrev pub toupper : ℕ → ℕ
toupper c = if leb 97 c && leb c 122 then c - 32 else c

unfoldable pub find_keyword : List ℕ → List (List ℕ × ℕ) → ℕ
find_keyword text [] = 0
find_keyword text ((word, id) ∷ words) =
    let rest = find_keyword text words in if same_text text word then id else rest

unfoldable pub lexer_keyword_id : List ℕ → ℕ
unfolding find_keyword
lexer_keyword_id text = find_keyword (map toupper (take 255 text)) keywords
