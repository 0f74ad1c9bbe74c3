-- ===== src/Tests/Utility.antt =====
-- Checksums, tags, block pairs and alignment of include/lfs_utility.h at concrete arguments.
use littlefs_v.Base.{ℕ, ◌-◌, ◌^◌, ◌<◌, List, [], ◌∷◌, ◌≡◌, ◌↔◌, ◌⊎◌, refl, arith, true, false}
use littlefs_v.Utility.Pair.{Pair, pair_swap, pair_cmp, pair_sync, pair_sync_iff, pair_cmp_iff}
use littlefs_v.Utility.Crc.{lfs_crc, crc_byte, crc_nibble}
use littlefs_v.Utility.Crc.Reference.{crc_bitwise}
use littlefs_v.Utility.Crc.Table.{IsBytes, lfs_crc-eq-crc_bitwise, lfs_crc-lt}
use littlefs_v.Utility.Tag.{
  mktag, tag_type1, tag_type2, tag_type3, tag_id, tag_size, tag_isvalid, tag_isdelete, tag_chunk,
  tag_dsize,
}
use littlefs_v.Utility.Tag.Roundtrip.{read-mktag}

abbrev digits : List ℕ
digits = 0x31 ∷ 0x32 ∷ 0x33 ∷ 0x34 ∷ 0x35 ∷ 0x36 ∷ 0x37 ∷ 0x38 ∷ 0x39 ∷ []

-- The check value of this checksum, before its last complement.
lfs_crc_computed : lfs_crc 0xffffffff digits ≡ 0xffffffff - 0xcbf43926
unfolding lfs_crc crc_byte crc_nibble
lfs_crc_computed = refl

digits-IsBytes : IsBytes digits
digits-IsBytes = omega arith

lfs_crc-eq-crc_bitwise_example : lfs_crc 0xffffffff digits ≡ crc_bitwise 0xffffffff digits
lfs_crc-eq-crc_bitwise_example = lfs_crc-eq-crc_bitwise 0xffffffff digits digits-IsBytes

lfs_crc-lt_example : lfs_crc 0xffffffff digits < 2 ^ 32
lfs_crc-lt_example = lfs_crc-lt 0xffffffff digits (omega arith)

read-mktag_example :
    let tag = mktag 0x401 5 12 in
    (tag < 2 ^ 32)
    × (tag_type3 tag ≡ 0x401)
    × (tag_id tag ≡ 5)
    × (tag_size tag ≡ 12)
    × (tag_type1 tag ≡ 0x400)
    × (tag_type2 tag ≡ 1)
    × (tag_chunk tag ≡ 1)
    × ((tag_isvalid tag ≡ true) ↔ (0x401 < 0x800))
    × ((tag_isdelete tag ≡ true) ↔ (◌≡◌ {A = ℕ} 12 0x3ff))
    × (tag_dsize tag ≡ 16)
read-mktag_example = read-mktag 0x401 5 12 (omega arith) (omega arith) (omega arith)

abbrev left : Pair
left = record { first = 4; second = 9 }

abbrev right : Pair
right = record { first = 9; second = 7 }

pair_sync_iff_example : (pair_sync left right ≡ true) ↔ ((left ≡ right) ⊎ (left ≡ pair_swap right))
pair_sync_iff_example = pair_sync_iff left right

pair_cmp_iff_example :
    (pair_cmp left right ≡ false)
    ↔ (((left.first ≡ 9) ⊎ (left.first ≡ 7)) ⊎ ((left.second ≡ 9) ⊎ (left.second ≡ 7)))
pair_cmp_iff_example = pair_cmp_iff left right
