-- ===== src/Util/Hash.antt =====
-- src/util/hash.c: the DJB2 hash. A C string is the list of its bytes before the NUL.
-- `char` is signed, so `int c = *str++` makes a byte from 128 on negative.
use amidb.Base.{
  ℕ, ◌+◌, ◌*◌, ◌-◌, ◌%◌, ◌^◌, ◌≡◌, refl, List, [], ◌∷◌, map, if◌then◌else◌, ltb, leb, ◌&&◌,
}

-- The bit pattern of the int that a `char` stands for.
abbrev int_of_char : ℕ → ℕ
int_of_char c = if ltb c 128 then c else c + 2 ^ 32 - 256

-- `((hash << 5) + hash) + c` on uint32_t.
abbrev mix : ℕ → ℕ → ℕ
mix hash c = ((hash * 2 ^ 5 + hash) + c) % 2 ^ 32

pub hash_loop : ℕ → List ℕ → ℕ
hash_loop hash [] = hash
hash_loop hash (c ∷ cs) = hash_loop (mix hash c) cs

unfoldable pub hash_chars : ℕ → List ℕ → ℕ
hash_chars hash [] = hash
hash_chars hash (c ∷ cs) = hash_chars (mix hash (int_of_char c)) cs

pub hash_string : List ℕ → ℕ
unfolding hash_chars
hash_string str = hash_chars 5381 str

-- `tolower` of the C locale, which leaves what is no letter.
unfoldable pub tolower : ℕ → ℕ
tolower c = if leb b'A' c && leb c b'Z' then c + 32 else c

pub hash_loop_ci : ℕ → List ℕ → ℕ
unfolding tolower
hash_loop_ci hash [] = hash
hash_loop_ci hash (c ∷ cs) = hash_loop_ci (mix hash (int_of_char (tolower c))) cs

pub hash_string_ci : List ℕ → ℕ
unfolding hash_loop_ci
hash_string_ci str = hash_loop_ci 5381 str

pub hash_buffer : List ℕ → ℕ
unfolding hash_loop
hash_buffer bytes = hash_loop 5381 bytes

hash_loop_ci-map :
    (hash : ℕ) (str : List ℕ) → hash_loop_ci hash str ≡ hash_chars hash (map tolower str)
unfolding hash_loop_ci hash_chars
hash_loop_ci-map hash [] = refl
hash_loop_ci-map hash (c ∷ cs) = hash_loop_ci-map (mix hash (int_of_char (tolower c))) cs

-- The case-insensitive hash of a text is the hash of the text in lower case, for every text; so
-- texts that differ in the case of letters alone hash alike.
pub hash_string_ci-map : (str : List ℕ) → hash_string_ci str ≡ hash_string (map tolower str)
unfolding hash_string_ci hash_string
hash_string_ci-map str = hash_loop_ci-map 5381 str
