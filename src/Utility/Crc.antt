-- ===== src/Utility/Crc.antt =====
-- `lfs_crc` of include/lfs_utility.h: the checksum by a table of sixteen entries, two lookups to a
-- byte.
pub mod Reference
pub mod Table
pub mod Residue
use littlefs_v.Base.{ℕ, ◌/◌, ◌^◌, bit_and, bit_xor, List, [], ◌∷◌, get_or, ◌>>◌}

abbrev pub rtable : List ℕ
rtable =
    0x00000000 ∷ 0x1db71064 ∷ 0x3b6e20c8 ∷ 0x26d930ac ∷ 0x76dc4190 ∷ 0x6b6b51f4 ∷ 0x4db26158
    ∷ 0x5005713c ∷ 0xedb88320 ∷ 0xf00f9344 ∷ 0xd6d6a3e8 ∷ 0xcb61b38c ∷ 0x9b64c2b0 ∷ 0x86d3d2d4
    ∷ 0xa00ae278 ∷ 0xbdbdf21c ∷ []

-- One line of the loop's body, at `data[i] >> 0` or `data[i] >> 4`. The index is below 16.
unfoldable pub crc_nibble : ℕ → ℕ → ℕ
crc_nibble crc part = bit_xor (crc >> 4) (get_or rtable (bit_and (bit_xor crc part) 0xf) 0)

unfoldable pub crc_byte : ℕ → ℕ → ℕ
crc_byte crc byte = crc_nibble (crc_nibble crc byte) (byte >> 4)

unfoldable pub lfs_crc : ℕ → List ℕ → ℕ
lfs_crc crc [] = crc
lfs_crc crc (byte ∷ rest) = lfs_crc (crc_byte crc byte) rest
