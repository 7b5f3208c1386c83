-- ===== src/Record/Crc.antt =====
-- crc32.Checksum with the Castagnoli table (Go's hash/crc32), bit by bit: the reflected polynomial
-- 0x82f63b78, all ones at the start and at the end. A uint32 result is below 2 ^ 32.
use Prim.Native.Nat.{bit_xor}
use logship.Prelude.{ℕ, ◌/◌, ◌%◌, ◌^◌, ◌<◌, ◌≡◌, refl, [], ◌∷◌, arith, ◌==◌, if◌then◌else◌, Bytes}

abbrev crc_bit : ℕ → ℕ
crc_bit c = if c % 2 == 1 then bit_xor (c / 2) 0x82f6_3b78 else c / 2

crc_byte : ℕ → ℕ → ℕ
crc_byte c b =
    crc_bit (crc_bit (crc_bit (crc_bit (crc_bit (crc_bit (crc_bit (crc_bit (bit_xor c b))))))))

crc_from : ℕ → Bytes → ℕ
crc_from c [] = c
crc_from c (b ∷ bs) = crc_from (crc_byte c b) bs

unfoldable pub crc32c : Bytes → ℕ
unfolding crc_from crc_byte
crc32c bs = bit_xor (crc_from 0xffff_ffff bs) 0xffff_ffff % 2 ^ 32

pub crc32c-lt : (bs : Bytes) → crc32c bs < 2 ^ 32
unfolding crc32c
crc32c-lt bs = omega arith

-- The check value of CRC-32C: that of the text "123456789".
check_value : crc32c (49 ∷ 50 ∷ 51 ∷ 52 ∷ 53 ∷ 54 ∷ 55 ∷ 56 ∷ 57 ∷ []) ≡ 0xe306_9283
unfolding crc32c
check_value = refl
