-- ===== src/Utility/Crc/Reference.antt =====
-- The checksum bit by bit: division by the reflected polynomial 0x04c11db7.
use littlefs_v.Base.{ℕ, zero, suc, ◌/◌, ◌%◌, bit_xor, List, [], ◌∷◌, if◌then◌else◌, ◌==◌}

abbrev pub polynomial : ℕ
polynomial = 0xedb88320

unfoldable pub shift_bit : ℕ → ℕ
shift_bit c = if c % 2 == 0 then c / 2 else bit_xor (c / 2) polynomial

unfoldable pub shift_bits : ℕ → ℕ → ℕ
shift_bits zero c = c
shift_bits (suc n) c = shift_bits n (shift_bit c)

unfoldable pub crc_bitwise : ℕ → List ℕ → ℕ
crc_bitwise crc [] = crc
crc_bitwise crc (byte ∷ rest) = crc_bitwise (shift_bits 8 (bit_xor crc byte)) rest
