-- ===== src/Gstate.antt =====
-- The global state: `lfs_gstate_t` and the `lfs_gstate_*` helpers of include/lfs_utility.h, with
-- `lfs_fs_preporphans` and `lfs_fs_prepmove` of src/littlefs_v2/lfs_operations.cpp. The tag counts
-- the orphans in its size field, and names a pending move by its type and id.
pub mod Xor
pub mod Moves
use littlefs_v.Base.{
  ℕ, ◌+◌, ◌-◌, ◌*◌, ◌%◌, ◌^◌, bit_and, bit_or, bit_xor, Bool, true, false, not, ◌&&◌, ◌==◌,
  if◌then◌else◌, u32, ◌<<◌, ltb, leb, ◌||◌, Option, some, none,
}
use littlefs_v.Utility.Pair.{Pair, pair_cmp}
use littlefs_v.Utility.Tag.{mktag, tag_type1, tag_size}

pub record Gstate : Type 0 where
  pub tag : ℕ
  pub pair : Pair

-- `{ 0 }`
abbrev pub zero_gstate : Gstate
zero_gstate = record { tag = 0; pair = record { first = 0; second = 0 } }

unfoldable pub gstate_iszero : Gstate → Bool
gstate_iszero a = a.tag == 0 && (a.pair.first == 0 && a.pair.second == 0)

unfoldable pub gstate_hasorphans : Gstate → Bool
gstate_hasorphans a = not (tag_size a.tag == 0)

-- The cast to `uint8_t` keeps eight of the ten bits.
unfoldable pub gstate_getorphans : Gstate → ℕ
gstate_getorphans a = tag_size a.tag % 2 ^ 8

unfoldable pub gstate_hasmove : Gstate → Bool
gstate_hasmove a = not (tag_type1 a.tag == 0)

unfoldable pub gstate_hasmovehere : Gstate → Pair → Bool
gstate_hasmovehere a pair = not (tag_type1 a.tag == 0) && not (pair_cmp a.pair pair)

unfoldable pub gstate_xor : Gstate → Gstate → Gstate
gstate_xor a b = record {
  tag = bit_xor a.tag b.tag;
  pair = record {
    first = bit_xor a.pair.first b.pair.first;
    second = bit_xor a.pair.second b.pair.second;
  };
}

-- `~m` on 32 bits.
abbrev pub complement32 : ℕ → ℕ
complement32 m = 2 ^ 32 - 1 - m

-- LFS_TYPE_HAS_ORPHANS, LFS_TYPE_MOVESTATE, LFS_TYPE_DELETE
abbrev pub type_has_orphans : ℕ
type_has_orphans = 0x800

abbrev pub type_movestate : ℕ
type_movestate = 0x7ff

abbrev pub type_delete : ℕ
type_delete = 0x4ff

-- An `int8_t` as the way it goes and how far.
pub data Change : Type 0 where
  more : ℕ → Change
  less : ℕ → Change

-- The addition to the `uint32_t`.
unfoldable pub add_change : ℕ → Change → ℕ
add_change tag (more n) = (tag + n) % 2 ^ 32
add_change tag (less n) = (tag + 2 ^ 32 - n) % 2 ^ 32

abbrev pub is_more : Change → Bool
is_more (more n) = true
is_more (less n) = n == 0

-- The new global state; `none` is a failed assertion.
unfoldable pub fs_preporphans : Gstate → Change → Option Gstate
fs_preporphans g orphans =
    let g' : Gstate = record g { tag = add_change g.tag orphans } in
    if ltb 0 (tag_size g.tag) || is_more orphans
    then some (record g {
      tag =
          bit_or (bit_and g'.tag (complement32 (mktag type_has_orphans 0 0)))
            ((if gstate_hasorphans g' then 1 else 0) << 31);
    })
    else none

-- `pair` is read only where `id` is not 0x3ff, so a null pointer may stand there.
unfoldable pub fs_prepmove : Gstate → ℕ → Pair → Gstate
fs_prepmove g id pair = record {
  tag =
      bit_or (bit_and g.tag (complement32 (mktag type_movestate 0x3ff 0)))
        (if id == 0x3ff then 0 else mktag type_delete id 0);
  pair = record {
    first = if id == 0x3ff then 0 else pair.first;
    second = if id == 0x3ff then 0 else pair.second;
  };
}
