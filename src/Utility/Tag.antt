-- ===== src/Utility/Tag.antt =====
-- The 32-bit metadata tags of include/lfs_utility.h: `LFS_MKTAG` and the `lfs_tag_*` readers.
-- From the top: a validity bit and 11 bits of type, 10 bits of id, 10 bits of size.
pub mod Fields
pub mod Roundtrip
use littlefs_v.Base.{
  ℕ, ◌+◌, ◌-◌, ◌*◌, ◌/◌, ◌%◌, ◌^◌, ◌≤◌, ◌<◌, bit_and, bit_or, Bool, true, false, not, ◌≡◌, arith,
  ltb, ◌==◌, if◌then◌else◌, u32, ◌<<◌, ◌>>◌,
}

-- LFS_MKTAG
unfoldable pub mktag : ℕ → ℕ → ℕ → ℕ
mktag type id size = bit_or (bit_or (u32 (type << 20)) (u32 (id << 10))) (u32 size)

-- LFS_FROM_NOOP
abbrev pub from_noop : ℕ
from_noop = 0x000

-- LFS_MKTAG_IF
unfoldable pub mktag_if : Bool → ℕ → ℕ → ℕ → ℕ
mktag_if cond type id size = if cond then mktag type id size else from_noop

unfoldable pub tag_type1 : ℕ → ℕ
tag_type1 tag = bit_and (tag >> 20) 0xf00

unfoldable pub tag_type2 : ℕ → ℕ
tag_type2 tag = bit_and (tag >> 20) 0x0ff

unfoldable pub tag_type3 : ℕ → ℕ
tag_type3 tag = bit_and (tag >> 20) 0xfff

unfoldable pub tag_id : ℕ → ℕ
tag_id tag = bit_and (tag >> 10) 0x3ff

unfoldable pub tag_size : ℕ → ℕ
tag_size tag = bit_and tag 0x3ff

unfoldable pub tag_isvalid : ℕ → Bool
tag_isvalid tag = bit_and tag 0x80000000 == 0

-- The shift to the right of an `int32_t`, on bit patterns: the sign bit fills in from the top.
unfoldable pub shift_right_signed : ℕ → ℕ → ℕ
shift_right_signed w k = if ltb w (2 ^ 31) then w >> k else (w >> k) + (2 ^ 32 - 2 ^ (32 - k))

-- -1 is the pattern of 32 ones.
unfoldable pub tag_isdelete : ℕ → Bool
unfolding shift_right_signed
tag_isdelete tag = shift_right_signed (u32 (tag << 22)) 22 == 2 ^ 32 - 1

unfoldable pub tag_chunk : ℕ → ℕ
tag_chunk tag = (bit_and tag 0x0ff00000 >> 20) % 2 ^ 8

-- lfs_tag_splice: an `int8_t`, as the `uint32_t` that is made of it.
unfoldable pub tag_splice : ℕ → ℕ
tag_splice tag = let n = tag_chunk tag in if ltb n (2 ^ 7) then n else 2 ^ 32 - 2 ^ 8 + n

-- `sizeof(tag)` is 4; the Boolean is added as 0 or 1.
unfoldable pub tag_dsize : ℕ → ℕ
tag_dsize tag = 4 + tag_size (u32 (tag + (if tag_isdelete tag then 1 else 0)))
