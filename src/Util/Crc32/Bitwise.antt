-- ===== src/Util/Crc32/Bitwise.antt =====
-- The table of src/util/crc32.c against the bit-at-a-time CRC-32, and checksums of parts.
use Prim.Native.Nat.{bit_xor}
use amidb.Base.{
  ℕ, zero, suc, ◌+◌, ◌*◌, ◌/◌, ◌%◌, ◌^◌, ◌<◌, ◌≡◌, refl, sym, ap, ◌∙◌, List, [], ◌∷◌, ◌++◌, arith,
  get_or, All, bit_xor_step, bit_xor-half, bit_xor-lt, bit_xor_assoc, bit_xor_comm, bit_xor_cancel,
  bit_xor_fields,
}
use native.Mathlib.Nat.{pow-suc}
use amidb.Util.Endian.{IsByte}
use amidb.Util.Crc32.{
  shift_bit, shift_bits, fill_table, crc32_table, update_byte, update_loop, crc32_update,
}

-- The specification: each byte is added to the register, which is then shifted bit by bit.
unfoldable pub crc32_bitwise : ℕ → List ℕ → ℕ
crc32_bitwise crc [] = crc
crc32_bitwise crc (byte ∷ rest) = crc32_bitwise (shift_bits 8 (bit_xor crc byte)) rest

xor_swap : (p a b : ℕ) → bit_xor p (bit_xor a b) ≡ bit_xor a (bit_xor p b)
xor_swap p a b =
    sym (bit_xor_assoc p a b) ∙ ap (λ t. bit_xor t b) (bit_xor_comm p a) ∙ bit_xor_assoc a p b

xor_twice : (p a b : ℕ) → bit_xor (bit_xor p a) (bit_xor p b) ≡ bit_xor a b
xor_twice p a b =
    bit_xor_assoc p a (bit_xor p b)
    ∙ ap (bit_xor p) (xor_swap a p b)
    ∙ bit_xor_comm p _
    ∙ ap (λ t. bit_xor t p) (bit_xor_comm p _)
    ∙ bit_xor_cancel _ p

shift_bit-bit_xor : (a b : ℕ) → shift_bit (bit_xor a b) ≡ bit_xor (shift_bit a) (shift_bit b)
unfolding shift_bit
shift_bit-bit_xor a b = ground (
  arith,
  bit_xor_step a b,
  bit_xor-half a b,
  bit_xor_assoc 0xEDB88320 (a / 2) (b / 2),
  xor_swap 0xEDB88320 (a / 2) (b / 2),
  xor_twice 0xEDB88320 (a / 2) (b / 2),
)

shift_bits-bit_xor :
    (n a b : ℕ) → shift_bits n (bit_xor a b) ≡ bit_xor (shift_bits n a) (shift_bits n b)
unfolding shift_bits
shift_bits-bit_xor zero a b = refl
shift_bits-bit_xor (suc n) a b =
    ap (shift_bits n) (shift_bit-bit_xor a b) ∙ shift_bits-bit_xor n (shift_bit a) (shift_bit b)

shift_bits-lt : (n c : ℕ) → c < 2 ^ 32 → shift_bits n c < 2 ^ 32
unfolding shift_bits
shift_bits-lt zero c h = h
shift_bits-lt (suc n) c h = shift_bits-lt n (shift_bit c) (
    unfold shift_bit in
    ground (arith, bit_xor-lt 32 0xEDB88320 (c / 2) (omega arith) (omega arith)))

shift_bits-mul : (n q : ℕ) → shift_bits n (q * 2 ^ n) ≡ q
unfolding shift_bits
shift_bits-mul zero q = omega arith
shift_bits-mul (suc n) q =
    let even : shift_bit (q * 2 ^ suc n) ≡ q * 2 ^ n =
      unfold shift_bit in ground (arith, ap (λ (t : ℕ). q * t) (pow-suc 2 n)) in
    ap (shift_bits n) even ∙ shift_bits-mul n q

-- Eight shifts at once: the low byte through its own shifts, and the others moved down.
shift_byte : (c : ℕ) → shift_bits 8 c ≡ bit_xor (shift_bits 8 (c % 256)) (c / 256)
shift_byte c =
    ap (shift_bits 8) (omega (arith, bit_xor_fields 8 (c / 256) (c % 256) (omega arith)))
    ∙ shift_bits-bit_xor 8 (c / 256 * 2 ^ 8) (c % 256)
    ∙ ap (λ t. bit_xor t (shift_bits 8 (c % 256))) (shift_bits-mul 8 (c / 256))
    ∙ bit_xor_comm _ _

get_or-fill_table : (n i j : ℕ) → j < n → get_or (fill_table n i) j 0 ≡ shift_bits 8 (i + j)
unfolding fill_table
get_or-fill_table zero i j h = elim h [ ]
get_or-fill_table (suc n) i zero h = ap (shift_bits 8) (omega arith)
get_or-fill_table (suc n) i (suc j) h =
    get_or-fill_table n (i + 1) j (omega arith) ∙ ap (shift_bits 8) (omega arith)

high_byte : (c byte : ℕ) → IsByte byte → bit_xor c byte / 256 ≡ c / 256
high_byte c byte h =
    let low = bit_xor (c % 256) byte in
    let small : low < 2 ^ 8 = bit_xor-lt 8 (c % 256) byte (omega arith) h in
    let parts : bit_xor c byte ≡ bit_xor (c / 256 * 2 ^ 8) low =
      ap (λ t. bit_xor t byte) (omega (arith, bit_xor_fields 8 (c / 256) (c % 256) (omega arith)))
      ∙ bit_xor_assoc (c / 256 * 2 ^ 8) (c % 256) byte in
    omega (arith, parts, bit_xor_fields 8 (c / 256) low small)

update_byte-shift_bits :
    (crc byte : ℕ) → IsByte byte → update_byte crc byte ≡ shift_bits 8 (bit_xor crc byte)
unfolding update_byte
update_byte-shift_bits crc byte h =
    let c = bit_xor crc byte in
    let entry : get_or crc32_table (c % 256) 0 ≡ shift_bits 8 (c % 256) =
      unfold crc32_table in
      get_or-fill_table 256 0 (c % 256) (omega arith) ∙ ap (shift_bits 8) (omega arith) in
    ap (λ t. bit_xor t (crc / 2 ^ 8)) entry
    ∙ ap (bit_xor (shift_bits 8 (c % 256))) (sym (high_byte crc byte h))
    ∙ sym (shift_byte c)

update_loop-crc32_bitwise :
    (crc : ℕ) (bytes : List ℕ) → All IsByte bytes → update_loop crc bytes ≡ crc32_bitwise crc bytes
unfolding update_loop crc32_bitwise
update_loop-crc32_bitwise crc [] h = refl
update_loop-crc32_bitwise crc (byte ∷ rest) (h, hs) =
    update_loop-crc32_bitwise (update_byte crc byte) rest hs
    ∙ ap (λ t. crc32_bitwise t rest) (update_byte-shift_bits crc byte h)

-- On bytes, the table-driven `crc32_update` is the bit-at-a-time CRC-32 with the reflected
-- polynomial 0xEDB88320, between the two complements of the register.
pub crc32_update-crc32_bitwise :
    (crc : ℕ) (bytes : List ℕ)
    → All IsByte bytes
    → crc32_update crc bytes ≡ bit_xor (crc32_bitwise (bit_xor crc 0xFFFFFFFF) bytes) 0xFFFFFFFF
unfolding crc32_update
crc32_update-crc32_bitwise crc bytes h =
    ap (λ t. bit_xor t 0xFFFFFFFF) (update_loop-crc32_bitwise (bit_xor crc 0xFFFFFFFF) bytes h)

update_loop-append :
    (crc : ℕ) (xs ys : List ℕ) → update_loop crc (xs ++ ys) ≡ update_loop (update_loop crc xs) ys
unfolding update_loop
update_loop-append crc [] ys = refl
update_loop-append crc (x ∷ xs) ys = update_loop-append (update_byte crc x) xs ys

-- The checksum of two parts one after the other, as the log computes it for a header and its
-- payload, is the checksum of the parts joined.
pub crc32_update-append :
    (crc : ℕ) (xs ys : List ℕ) → crc32_update (crc32_update crc xs) ys ≡ crc32_update crc (xs ++ ys)
unfolding crc32_update
crc32_update-append crc xs ys =
    ap (λ t. bit_xor (update_loop t ys) 0xFFFFFFFF) (bit_xor_cancel _ 0xFFFFFFFF)
    ∙ ap (λ t. bit_xor t 0xFFFFFFFF) (sym (update_loop-append (bit_xor crc 0xFFFFFFFF) xs ys))

crc32_bitwise-lt :
    (crc : ℕ) (bytes : List ℕ) → crc < 2 ^ 32 → All IsByte bytes → crc32_bitwise crc bytes < 2 ^ 32
unfolding crc32_bitwise
crc32_bitwise-lt crc [] lt h = lt
crc32_bitwise-lt crc (byte ∷ rest) lt h =
    crc32_bitwise-lt (shift_bits 8 (bit_xor crc byte)) rest
      (shift_bits-lt 8 (bit_xor crc byte) (bit_xor-lt 32 crc byte lt (omega (arith, h.0)))) h.1

-- A checksum of bytes is a 32-bit number.
pub crc32_update-lt :
    (crc : ℕ) (bytes : List ℕ) → crc < 2 ^ 32 → All IsByte bytes → crc32_update crc bytes < 2 ^ 32
crc32_update-lt crc bytes lt h = rw (crc32_update-crc32_bitwise crc bytes h) (
    bit_xor-lt 32 _ 0xFFFFFFFF
      (crc32_bitwise-lt (bit_xor crc 0xFFFFFFFF) bytes
        (bit_xor-lt 32 crc 0xFFFFFFFF lt (omega arith)) h)
      (omega arith))
