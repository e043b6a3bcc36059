-- ===== src/Util/Endian.antt =====
-- src/util/endian.h, and the static functions of the same names in src/storage/row.c: numbers as
-- little-endian bytes. A pointer is the list of the bytes from it on.
-- The shifted bytes of `get_u32` share no bit, so `|` is `+`.
use amidb.Base.{ℕ, ◌+◌, ◌*◌, ◌/◌, ◌%◌, ◌^◌, ◌<◌, ◌≡◌, List, [], ◌∷◌, ◌++◌, arith, get_or}

abbrev pub IsByte : ℕ → Type 0
IsByte b = b < 256

unfoldable pub put_u16 : ℕ → List ℕ
put_u16 v = (v % 256) ∷ (v / 2 ^ 8 % 256) ∷ []

unfoldable pub get_u16 : List ℕ → ℕ
get_u16 p = get_or p 0 0 + get_or p 1 0 * 2 ^ 8

unfoldable pub put_u32 : ℕ → List ℕ
put_u32 v = (v % 256) ∷ (v / 2 ^ 8 % 256) ∷ (v / 2 ^ 16 % 256) ∷ (v / 2 ^ 24 % 256) ∷ []

unfoldable pub get_u32 : List ℕ → ℕ
get_u32 p = get_or p 0 0 + get_or p 1 0 * 2 ^ 8 + get_or p 2 0 * 2 ^ 16 + get_or p 3 0 * 2 ^ 24

pub put_u64 : ℕ → List ℕ
put_u64 v =
    (v % 256)
    ∷ (v / 2 ^ 8 % 256)
    ∷ (v / 2 ^ 16 % 256)
    ∷ (v / 2 ^ 24 % 256)
    ∷ (v / 2 ^ 32 % 256)
    ∷ (v / 2 ^ 40 % 256)
    ∷ (v / 2 ^ 48 % 256)
    ∷ (v / 2 ^ 56 % 256)
    ∷ []

pub get_u64 : List ℕ → ℕ
get_u64 p =
    get_or p 0 0
    + get_or p 1 0 * 2 ^ 8
    + get_or p 2 0 * 2 ^ 16
    + get_or p 3 0 * 2 ^ 24
    + get_or p 4 0 * 2 ^ 32
    + get_or p 5 0 * 2 ^ 40
    + get_or p 6 0 * 2 ^ 48
    + get_or p 7 0 * 2 ^ 56

pub get_u16-put_u16 : (v : ℕ) (rest : List ℕ) → v < 2 ^ 16 → get_u16 (put_u16 v ++ rest) ≡ v
unfolding get_u16 put_u16
get_u16-put_u16 v rest h = omega arith

pub get_u32-put_u32 : (v : ℕ) (rest : List ℕ) → v < 2 ^ 32 → get_u32 (put_u32 v ++ rest) ≡ v
unfolding get_u32 put_u32
get_u32-put_u32 v rest h = omega arith

-- Four bytes are what `put_u32` writes for the number that `get_u32` reads from them.
pub put_u32-get_u32 :
    (a b c d : ℕ) (rest : List ℕ)
    → IsByte a
    → IsByte b
    → IsByte c
    → IsByte d
    → put_u32 (get_u32 (a ∷ b ∷ c ∷ d ∷ rest)) ≡ a ∷ b ∷ c ∷ d ∷ []
unfolding get_u32 put_u32
put_u32-get_u32 a b c d rest ha hb hc hd = ground arith

-- For every v below 2^64, `get_u64` reads v back from what `put_u64` wrote, whatever follows it.
pub get_u64-put_u64 : (v : ℕ) (rest : List ℕ) → v < 2 ^ 64 → get_u64 (put_u64 v ++ rest) ≡ v
unfolding get_u64 put_u64
get_u64-put_u64 v rest h = omega arith
