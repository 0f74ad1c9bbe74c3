-- ===== src/Metadata/Filter.antt =====
-- `lfs_dir_traverse_filter`: a tag that has been written, against a later one of the log. It goes
-- where the later one has its place, and moves where that is a splice.
pub mod Redundant
pub mod Kept
pub mod Dropped
use native.Mathlib.Decide.{ℕ_discrete}
use littlefs_v.Base.{
  ℕ, zero, suc, ◌+◌, ◌-◌, ◌*◌, ◌/◌, ◌%◌, ◌^◌, ◌≤◌, ◌<◌, Bool, true, false, not, ◌&&◌, ◌||◌, leb,
  ltb, ◌==◌, if◌then◌else◌, add32, bit_and, bit_or, Option, some, ◌≡◌, ◌≢◌, refl, sym, ap, ◌∙◌,
  arith, Bool-cases, ◌⊎◌, inl, inr,
}
use littlefs_v.Base.Bits.{
  bit_and_comm, bit_and_low, bit_or_disjoint, zero-bit_and, bit, bit_and_pow, bit_and_high,
}
use littlefs_v.Utility.Tag.{
  mktag, from_noop, tag_id, tag_size, tag_type1, tag_type3, tag_splice, tag_isdelete,
}
use littlefs_v.Utility.Tag.Fields.{
  mktag_sum, tag_id_sum, tag_size_sum, tag_type1_sum, tag_type3_sum, tag_chunk_sum,
}
use littlefs_v.Gstate.{type_delete, type_movestate}
use littlefs_v.Metadata.{type_from, type_globals, type_splice, type_create}
use littlefs_v.Metadata.Files.{IsLogged, after_entry, after_create, after_delete, after_set}
use littlefs_v.Metadata.Get.Search.{Entry}
use littlefs_v.Metadata.Get.See.{masked_eq, masked_parts, mask_top}

-- which mask depends on unique bit in tag structure
unfoldable pub filter_mask : ℕ → ℕ
filter_mask tag =
    if bit_and tag (mktag type_from 0 0) == 0
    then mktag type_globals 0x3ff 0
    else mktag type_movestate 0x3ff 0

-- check for redundancy
unfoldable pub is_redundant : ℕ → ℕ → Bool
unfolding filter_mask
is_redundant tag filtertag =
    bit_and (filter_mask tag) tag == bit_and (filter_mask tag) filtertag
    || (tag_isdelete filtertag
        || bit_and (mktag type_movestate 0x3ff 0) tag
          == bit_or (mktag type_delete 0 0) (bit_and (mktag 0 0x3ff 0) filtertag))

-- Whether the earlier tag is to go, and what it has become.
unfoldable pub traverse_filter : ℕ → ℕ → Bool × ℕ
traverse_filter tag filtertag =
    if is_redundant tag filtertag
    then (true, mktag from_noop 0 0)
    else if tag_type1 tag == type_splice && leb (tag_id tag) (tag_id filtertag)
    then (false, add32 filtertag (mktag 0 (tag_splice tag) 0))
    else (false, filtertag)

-- The types that count as the same kind as a tag's own: its `type1`, or all of the type.
abbrev pub kind_mask : ℕ → ℕ
kind_mask tag = if tag_type3 tag / 256 % 2 == 0 then type_globals else type_movestate
