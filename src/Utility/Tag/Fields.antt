-- ===== src/Utility/Tag/Fields.antt =====
-- What the readers of a tag return, as arithmetic, and what `LFS_MKTAG` puts together.
use littlefs_v.Base.{
  ℕ, ◌+◌, ◌*◌, ◌/◌, ◌%◌, ◌^◌, ◌<◌, ◌≤◌, bit_and, true, ◌≡◌, ◌↔◌, arith, ◌==◌, if◌then◌else◌, u32,
  ◌<<◌,
}
use littlefs_v.Base.Bits.{bit_or_disjoint, bit_and_low, bit_and_high}
use littlefs_v.Utility.Tag.{
  mktag, tag_type1, tag_type2, tag_type3, tag_id, tag_size, tag_isvalid, tag_isdelete, tag_chunk,
  tag_dsize,
}

pub mktag_sum :
    (type id size : ℕ)
    → type < 2 ^ 12
    → id < 2 ^ 10
    → size < 2 ^ 10
    → mktag type id size ≡ type * 2 ^ 20 + id * 2 ^ 10 + size
unfolding mktag
mktag_sum type id size ht hi hs =
    let high : u32 (type << 20) ≡ type * 2 ^ 20 = omega arith in
    let middle : u32 (id << 10) ≡ id * 2 ^ 10 = omega arith in
    let low : u32 size ≡ size = omega arith in
    let both : type * 2 ^ 20 + id * 2 ^ 10 ≡ (type * 1024 + id) * 2 ^ 10 = omega arith in
    rw (high, middle, low, bit_or_disjoint 20 type (id * 2 ^ 10) (omega arith), both)
      (omega (arith, bit_or_disjoint 10 (type * 1024 + id) size hs))

pub tag_type1_sum : (tag : ℕ) → tag_type1 tag ≡ tag / 2 ^ 28 % 16 * 256
unfolding tag_type1
tag_type1_sum tag =
    omega (arith, bit_and_high 8 (tag / 2 ^ 20) 15, bit_and_low 4 (tag / 2 ^ 20 / 2 ^ 8))

pub tag_type2_sum : (tag : ℕ) → tag_type2 tag ≡ tag / 2 ^ 20 % 256
unfolding tag_type2
tag_type2_sum tag = bit_and_low 8 (tag / 2 ^ 20)

pub tag_type3_sum : (tag : ℕ) → tag_type3 tag ≡ tag / 2 ^ 20 % 4096
unfolding tag_type3
tag_type3_sum tag = bit_and_low 12 (tag / 2 ^ 20)

pub tag_id_sum : (tag : ℕ) → tag_id tag ≡ tag / 2 ^ 10 % 1024
unfolding tag_id
tag_id_sum tag = bit_and_low 10 (tag / 2 ^ 10)

pub tag_size_sum : (tag : ℕ) → tag_size tag ≡ tag % 1024
unfolding tag_size
tag_size_sum tag = bit_and_low 10 tag

pub tag_chunk_sum : (tag : ℕ) → tag_chunk tag ≡ tag / 2 ^ 20 % 256
unfolding tag_chunk
tag_chunk_sum tag = omega (arith, bit_and_high 20 tag 255, bit_and_low 8 (tag / 2 ^ 20))

pub top_bit : (tag : ℕ) → bit_and tag 0x80000000 ≡ tag / 2 ^ 31 % 2 * 2 ^ 31
top_bit tag = omega (arith, bit_and_high 31 tag 1, bit_and_low 1 (tag / 2 ^ 31))

pub tag_isvalid_iff : (tag : ℕ) → tag < 2 ^ 32 → (tag_isvalid tag ≡ true) ↔ (tag < 2 ^ 31)
unfolding tag_isvalid
tag_isvalid_iff tag h = ground (arith, top_bit tag)

pub tag_isdelete_iff : (tag : ℕ) → (tag_isdelete tag ≡ true) ↔ (tag % 1024 ≡ 0x3ff)
unfolding tag_isdelete
tag_isdelete_iff tag = ground arith

pub tag_dsize_sum :
    (tag : ℕ) → tag < 2 ^ 32 → tag_dsize tag ≡ (if tag % 1024 == 0x3ff then 4 else 4 + tag % 1024)
unfolding tag_dsize
tag_dsize_sum tag h =
    ground (arith, tag_isdelete_iff tag, tag_size_sum (u32 (tag + 1)), tag_size_sum (u32 (tag + 0)))

pub tag_dsize_bounds : (tag : ℕ) → (4 ≤ tag_dsize tag) × (tag_dsize tag < 2 ^ 11)
unfolding tag_dsize
tag_dsize_bounds tag = ground (arith, tag_size_sum (u32 (tag + 1)), tag_size_sum (u32 (tag + 0)))
