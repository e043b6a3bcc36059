-- ===== src/Util/Tests.antt =====
-- The checksum and the hash at concrete inputs.
use amidb.Base.{◌≡◌, refl, [], ◌∷◌, arith}
use amidb.Util.Crc32.{crc32_compute, crc32_update}
use Prim.Native.Nat.{bit_xor}
use amidb.Util.Crc32.Bitwise.{crc32_bitwise, crc32_update-crc32_bitwise}

-- The check value of CRC-32 at "123456789".
crc32_check :
    crc32_compute (b'1' ∷ b'2' ∷ b'3' ∷ b'4' ∷ b'5' ∷ b'6' ∷ b'7' ∷ b'8' ∷ b'9' ∷ []) ≡ 0xCBF43926
unfolding crc32_compute
crc32_check = refl

crc32_update-crc32_bitwise_example :
    crc32_update 0 (b'1' ∷ b'2' ∷ [])
    ≡ bit_xor (crc32_bitwise (bit_xor 0 0xFFFFFFFF) (b'1' ∷ b'2' ∷ [])) 0xFFFFFFFF
crc32_update-crc32_bitwise_example =
    crc32_update-crc32_bitwise 0 (b'1' ∷ b'2' ∷ []) (omega arith, (omega arith, tt))
