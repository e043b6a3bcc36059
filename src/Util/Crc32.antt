-- ===== src/Util/Crc32.antt =====
-- src/util/crc32.c: the table-driven CRC-32. `c & 1` is `c % 2` and `& 0xFF` is `% 256`.
pub mod Bitwise
use Prim.Native.Nat.{bit_xor}
use amidb.Base.{ℕ, zero, suc, ◌+◌, ◌-◌, ◌/◌, ◌%◌, ◌^◌, List, [], ◌∷◌, if◌then◌else◌, ◌==◌, get_or}

-- One round of the inner loop of `crc32_init`.
unfoldable pub shift_bit : ℕ → ℕ
shift_bit c = if c % 2 == 1 then bit_xor 0xEDB88320 (c / 2) else c / 2

-- `rounds` rounds of it.
unfoldable pub shift_bits : ℕ → ℕ → ℕ
unfolding shift_bit
shift_bits zero c = c
shift_bits (suc rounds) c = shift_bits rounds (shift_bit c)

-- `crc32_init`: the entries from `i` on, `left` of them.
unfoldable pub fill_table : ℕ → ℕ → List ℕ
unfolding shift_bits
fill_table zero i = []
fill_table (suc left) i = shift_bits 8 i ∷ fill_table left (i + 1)

-- The table is a static array; `crc32_init` fills it before every use.
unfoldable pub crc32_table : List ℕ
unfolding fill_table
crc32_table = fill_table 256 0

-- The body of the loop of `crc32_update`, and the loop.
unfoldable pub update_byte : ℕ → ℕ → ℕ
unfolding crc32_table
update_byte crc byte = bit_xor (get_or crc32_table (bit_xor crc byte % 256) 0) (crc / 2 ^ 8)

unfoldable pub update_loop : ℕ → List ℕ → ℕ
unfolding update_byte
update_loop crc [] = crc
update_loop crc (byte ∷ rest) = update_loop (update_byte crc byte) rest

unfoldable pub crc32_update : ℕ → List ℕ → ℕ
unfolding update_loop
crc32_update crc bytes = bit_xor (update_loop (bit_xor crc 0xFFFFFFFF) bytes) 0xFFFFFFFF

unfoldable pub crc32_compute : List ℕ → ℕ
unfolding crc32_update
crc32_compute bytes = crc32_update 0 bytes
