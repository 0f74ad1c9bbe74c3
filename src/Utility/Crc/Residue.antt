-- ===== src/Utility/Crc/Residue.antt =====
-- A checksum over bytes and their own checksum.
use littlefs_v.Base.{ℕ, ◌+◌, ◌*◌, ◌/◌, ◌%◌, ◌^◌, ◌<◌, ◌≡◌, ap₂, ◌∙◌, arith, bit_and, bit_xor, ◌>>◌}
use littlefs_v.Base.Bits.{bit_and_low, bit_xor_parts, bit_xor_self, bit_xor-zero}
use littlefs_v.Utility.Endian.{bytes_of}
use littlefs_v.Utility.Crc.{crc_nibble, crc_byte, lfs_crc}

crc_nibble_same : (a b : ℕ) → a % 16 ≡ b % 16 → crc_nibble a b ≡ a / 16
unfolding crc_nibble
crc_nibble_same a b same =
    let ea : a / 16 * 2 ^ 4 + a % 16 ≡ a = omega arith in
    let eb : b / 16 * 2 ^ 4 + a % 16 ≡ b = omega arith in
    let parts = bit_xor_parts 4 (a / 16) (a % 16) (b / 16) (a % 16) (omega arith) (omega arith) in
    let low : bit_xor a b % 2 ^ 4 ≡ 0 =
      omega (arith, ap₂ bit_xor ea eb, parts, bit_xor_self (a % 16)) in
    let index : bit_and (bit_xor a b) 0xf ≡ 0 = bit_and_low 4 (bit_xor a b) ∙ low in
    rw (crc_nibble, index) (bit_xor-zero (a / 16))

pub crc_byte_same : (c : ℕ) → crc_byte c (c % 256) ≡ c / 256
unfolding crc_byte
crc_byte_same c =
    let first = crc_nibble_same c (c % 256) (omega arith) in
    let second = crc_nibble_same (c / 16) ((c % 256) >> 4) (omega arith) in
    rw (crc_byte, first, second) (omega arith)

-- The bytes of a 32-bit checksum leave nothing of it.
pub lfs_crc_residue : (c : ℕ) → c < 2 ^ 32 → lfs_crc c (bytes_of 4 c) ≡ 0
unfolding lfs_crc bytes_of
lfs_crc_residue c h =
    rw
      (
        lfs_crc,
        crc_byte_same c,
        crc_byte_same (c / 256),
        crc_byte_same (c / 256 / 256),
        crc_byte_same (c / 256 / 256 / 256),
      )
      (omega arith)
