-- ===== src/Utility/Tag/Roundtrip.antt =====
-- `LFS_MKTAG` against the readers of a tag.
use littlefs_v.Base.{
  ℕ, ◌+◌, ◌*◌, ◌/◌, ◌%◌, ◌^◌, ◌<◌, true, ◌≡◌, ◌↔◌, ap, ◌∙◌, arith, ◌==◌, if◌then◌else◌,
}
use littlefs_v.Utility.Tag.{
  mktag, tag_type1, tag_type2, tag_type3, tag_id, tag_size, tag_isvalid, tag_isdelete, tag_chunk,
  tag_dsize,
}
use littlefs_v.Utility.Tag.Fields.{
  mktag_sum, tag_type1_sum, tag_type2_sum, tag_type3_sum, tag_id_sum, tag_size_sum, tag_chunk_sum,
  tag_isvalid_iff, tag_isdelete_iff, tag_dsize_sum,
}

-- For a type below 2 ^ 12, an id below 2 ^ 10 and a size below 2 ^ 10, each reader gives back its
-- part of a tag that `LFS_MKTAG` made: `type3`, `id` and `size` the three arguments, `type1` the
-- four top bits of the type in place, `type2` and `chunk` its eight low bits. The tag fits 32 bits,
-- is valid exactly when the type is below 0x800, is a delete exactly when the size is 0x3ff, and
-- takes 4 bytes on disk then, else 4 more than the size.
pub read-mktag :
    (type id size : ℕ)
    → type < 2 ^ 12
    → id < 2 ^ 10
    → size < 2 ^ 10
    → let tag = mktag type id size in
      (tag < 2 ^ 32)
      × (tag_type3 tag ≡ type)
      × (tag_id tag ≡ id)
      × (tag_size tag ≡ size)
      × (tag_type1 tag ≡ type / 256 * 256)
      × (tag_type2 tag ≡ type % 256)
      × (tag_chunk tag ≡ type % 256)
      × ((tag_isvalid tag ≡ true) ↔ (type < 0x800))
      × ((tag_isdelete tag ≡ true) ↔ (size ≡ 0x3ff))
      × (tag_dsize tag ≡ (if size == 0x3ff then 4 else 4 + size))
read-mktag type id size ht hi hs =
    let tag = mktag type id size in
    let sum = mktag_sum type id size ht hi hs in
    let fits : tag < 2 ^ 32 = omega arith in
    let low : tag % 1024 ≡ size = omega arith in
    (
      fits,
      omega (arith, tag_type3_sum tag),
      omega (arith, tag_id_sum tag),
      omega (arith, tag_size_sum tag),
      omega (arith, tag_type1_sum tag),
      omega (arith, tag_type2_sum tag),
      omega (arith, tag_chunk_sum tag),
      (
        λ v. omega (arith, (tag_isvalid_iff tag fits).0 v),
        λ h. (tag_isvalid_iff tag fits).1 (omega arith),
      ),
      (λ d. omega (arith, (tag_isdelete_iff tag).0 d), λ e. (tag_isdelete_iff tag).1 (omega arith)),
      tag_dsize_sum tag fits ∙ ap (λ t. if t == 0x3ff then 4 else 4 + t) low,
    )

-- Every 32-bit tag is the `LFS_MKTAG` of its own type, id and size.
pub mktag-read : (tag : ℕ) → tag < 2 ^ 32 → mktag (tag_type3 tag) (tag_id tag) (tag_size tag) ≡ tag
mktag-read tag h =
    rw (tag_type3_sum tag, tag_id_sum tag, tag_size_sum tag)
      (omega (
        arith,
        mktag_sum (tag / 2 ^ 20 % 4096) (tag / 2 ^ 10 % 1024) (tag % 1024) (omega arith)
            (omega arith) (omega arith),
      ))
