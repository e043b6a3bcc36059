-- ===== src/Storage/Pager/Bitmap.antt =====
-- The bitmap helpers of src/storage/pager.c.
use Prim.Native.Nat.{bit_and, bit_or}
use amidb.Base.{
  ℕ, zero, suc, ◌-◌, ◌/◌, ◌%◌, ◌^◌, ◌<◌, ◌≡◌, refl, Bool, true, false, not, ◌&&◌, ◌||◌, List, arith,
  ltb, ltb→lt, [], ◌∷◌, get_or, set, get_or-set_self, get_or-set_ne, All, length, ◌==◌,
}
use amidb.Util.Endian.{IsByte}

-- `bitmap[bit / 8] |= 1 << (bit % 8)`.
unfoldable pub bitmap_set : List ℕ → ℕ → List ℕ
bitmap_set bitmap bit = set bitmap (bit / 8) (bit_or (get_or bitmap (bit / 8) 0) (2 ^ (bit % 8)))

-- `bitmap[bit / 8] &= ~(1 << (bit % 8))`; the complement of a byte is taken from 255.
unfoldable pub bitmap_clear : List ℕ → ℕ → List ℕ
bitmap_clear bitmap bit =
    set bitmap (bit / 8) (bit_and (get_or bitmap (bit / 8) 0) (255 - 2 ^ (bit % 8)))

-- `(bitmap[bit / 8] & (1 << (bit % 8))) != 0`.
unfoldable pub bitmap_test : List ℕ → ℕ → Bool
bitmap_test bitmap bit = not (bit_and (get_or bitmap (bit / 8) 0) (2 ^ (bit % 8)) == 0)

-- Every value below a bound, by evaluation.
every : ℕ → (ℕ → Bool) → Bool
every zero test = true
every (suc bound) test = every bound test && test bound

every_lem :
    (bound : ℕ) (test : ℕ → Bool) (i : ℕ) → every bound test ≡ true → i < bound → test i ≡ true
unfolding every
every_lem zero test i passed lt = absurd (omega arith)
every_lem (suc bound) test i passed lt = ground (arith, every_lem bound test i)

abbrev test_bit : ℕ → ℕ → Bool
test_bit b k = not (bit_and b (2 ^ k) == 0)

abbrev same : Bool → Bool → Bool
same true b = b
same false b = not b

set_ok : ℕ → ℕ → ℕ → Bool
set_ok b k j = same (test_bit (bit_or b (2 ^ k)) j) (k == j || test_bit b j)

clear_ok : ℕ → ℕ → ℕ → Bool
clear_ok b k j = same (test_bit (bit_and b (255 - 2 ^ k)) j) (not (k == j) && test_bit b j)

set_table : every 256 (λ b. every 8 (λ k. every 8 (set_ok b k))) ≡ true
unfolding every set_ok
set_table = refl

clear_table : every 256 (λ b. every 8 (λ k. every 8 (clear_ok b k))) ≡ true
unfolding every clear_ok
clear_table = refl

or_byte_table : every 256 (λ b. every 8 (λ k. ltb (bit_or b (2 ^ k)) 256)) ≡ true
unfolding every
or_byte_table = refl

and_byte_table : every 256 (λ b. every 8 (λ k. ltb (bit_and b (255 - 2 ^ k)) 256)) ≡ true
unfolding every
and_byte_table = refl

-- A table of three indices, read at one entry.
entry :
    (p : ℕ → ℕ → ℕ → Bool) (b k j : ℕ)
    → every 256 (λ b. every 8 (λ k. every 8 (p b k))) ≡ true
    → b < 256
    → k < 8
    → j < 8
    → p b k j ≡ true
entry p b k j t hb hk hj =
    every_lem 8 (p b k) j
      (every_lem 8 (λ k. every 8 (p b k)) k
        (every_lem 256 (λ b. every 8 (λ k. every 8 (p b k))) b t hb) hk)
      hj

same→eq : (a b : Bool) → same a b ≡ true → a ≡ b
same→eq true b h = ground arith
same→eq false b h = ground arith

test_bit-set :
    (b k j : ℕ) → b < 256 → k < 8 → j < 8 → test_bit (bit_or b (2 ^ k)) j ≡ (k == j || test_bit b j)
test_bit-set b k j hb hk hj = same→eq _ _ (unfold set_ok in entry set_ok b k j set_table hb hk hj)

test_bit-clear :
    (b k j : ℕ)
    → b < 256
    → k < 8
    → j < 8
    → test_bit (bit_and b (255 - 2 ^ k)) j ≡ (not (k == j) && test_bit b j)
test_bit-clear b k j hb hk hj =
    same→eq _ _ (unfold clear_ok in entry clear_ok b k j clear_table hb hk hj)

get_or-IsByte : (bs : List ℕ) (i : ℕ) → All IsByte bs → IsByte (get_or bs i 0)
get_or-IsByte [] i h = omega arith
get_or-IsByte (b ∷ bs) zero h = h.0
get_or-IsByte (b ∷ bs) (suc i) h = get_or-IsByte bs i h.1

set-IsByte : (bs : List ℕ) (i v : ℕ) → All IsByte bs → IsByte v → All IsByte (set bs i v)
set-IsByte [] i v h hv = tt
set-IsByte (b ∷ bs) zero v h hv = (hv, h.1)
set-IsByte (b ∷ bs) (suc i) v h hv = (h.0, set-IsByte bs i v h.1 hv)

module _ (bitmap : List ℕ) (i : ℕ) (bytes : All IsByte bitmap) where
  pub bitmap_set-IsByte : All IsByte (bitmap_set bitmap i)
  unfolding bitmap_set
  bitmap_set-IsByte = set-IsByte bitmap (i / 8) _ bytes (
      ltb→lt _ 256 (
        every_lem 8 (λ k. ltb (bit_or (get_or bitmap (i / 8) 0) (2 ^ k)) 256) (i % 8)
          (every_lem 256 (λ b. every 8 (λ k. ltb (bit_or b (2 ^ k)) 256)) _ or_byte_table
            (get_or-IsByte bitmap (i / 8) bytes))
          (omega arith)))

  pub bitmap_clear-IsByte : All IsByte (bitmap_clear bitmap i)
  unfolding bitmap_clear
  bitmap_clear-IsByte = set-IsByte bitmap (i / 8) _ bytes (
      ltb→lt _ 256 (
        every_lem 8 (λ k. ltb (bit_and (get_or bitmap (i / 8) 0) (255 - 2 ^ k)) 256) (i % 8)
          (every_lem 256 (λ b. every 8 (λ k. ltb (bit_and b (255 - 2 ^ k)) 256)) _ and_byte_table
            (get_or-IsByte bitmap (i / 8) bytes))
          (omega arith)))

  pub bitmap_test-bitmap_set :
      (j : ℕ)
      → i / 8 < length bitmap
      → bitmap_test (bitmap_set bitmap i) j ≡ (i == j || bitmap_test bitmap j)
  unfolding bitmap_set bitmap_test
  bitmap_test-bitmap_set j lt =
      let b = get_or bitmap (i / 8) 0 in
      ground (
        arith,
        get_or-set_self bitmap (i / 8) (bit_or b (2 ^ (i % 8))) 0 lt,
        get_or-set_ne bitmap (i / 8) (j / 8) (bit_or b (2 ^ (i % 8))) 0,
        test_bit-set b (i % 8) (j % 8) (get_or-IsByte bitmap (i / 8) bytes) (omega arith)
            (omega arith),
      )

  pub bitmap_test-bitmap_clear :
      (j : ℕ)
      → i / 8 < length bitmap
      → bitmap_test (bitmap_clear bitmap i) j ≡ (not (i == j) && bitmap_test bitmap j)
  unfolding bitmap_clear bitmap_test
  bitmap_test-bitmap_clear j lt =
      let b = get_or bitmap (i / 8) 0 in
      ground (
        arith,
        get_or-set_self bitmap (i / 8) (bit_and b (255 - 2 ^ (i % 8))) 0 lt,
        get_or-set_ne bitmap (i / 8) (j / 8) (bit_and b (255 - 2 ^ (i % 8))) 0,
        test_bit-clear b (i % 8) (j % 8) (get_or-IsByte bitmap (i / 8) bytes) (omega arith)
            (omega arith),
      )
