-- ===== src/Commit/Padding.antt =====
-- The footers of a commit: what each pads, and what the check of them comes to.
use littlefs_v.Base.{
  ℕ, ◌+◌, ◌-◌, ◌^◌, ◌<◌, ◌≤◌, List, ◌++◌, true, false, ltb, ◌≡◌, ◌⊎◌, inl, inr, refl, sym, ap, ◌∙◌,
  arith, add64, sub64, bit_and, bit_xor, Bool-cases,
}
use littlefs_v.Base.Bits.{bit_and_low}
use littlefs_v.Utility.Align.{lfs_min}
use littlefs_v.Utility.Endian.{bytes_of, tobe32, tole32}
use littlefs_v.Utility.Crc.{lfs_crc}
use littlefs_v.Utility.Crc.Table.{lfs_crc-append, lfs_crc-lt}
use littlefs_v.Utility.Crc.Residue.{lfs_crc_residue}
use littlefs_v.Utility.Tag.{mktag, tag_size, tag_type1, tag_isdelete, tag_isvalid, tag_chunk}
use littlefs_v.Utility.Tag.Fields.{
  mktag_sum, tag_size_sum, tag_type1_sum, tag_isdelete_iff, tag_isvalid_iff, tag_chunk_sum,
}
use littlefs_v.Metadata.{type_crc}
use littlefs_v.Commit.{Commit}
use littlefs_v.Commit.Footer.{padding_end, crc_tag, footer_crc, footer, after_footer}

-- Where a footer has 16 bytes of room before the end of the commit, its padding goes up to the end or
-- leaves as much room for another, and has from 4 to 1022 bytes.
padding_end_bounds :
    (limit offset : ℕ)
    → limit < 2 ^ 63
    → offset + 16 ≤ limit
    → let noff = padding_end limit (offset + 4) in
      ((noff ≡ limit) ⊎ (noff + 16 ≤ limit)) × (offset + 8 ≤ noff) × (noff ≤ offset + 4 + 0x3fe)
unfolding padding_end lfs_min
padding_end_bounds limit offset low room =
    let left : sub64 limit (offset + 4) ≡ limit - (offset + 4) = omega arith in
    let before : sub64 limit 16 ≡ limit - 16 = omega arith in
    elim (Bool-cases (ltb (limit - (offset + 4)) 0x3fe)) [
      | inl e ↦
          (let to_end : add64 (limit - (offset + 4)) (offset + 4) ≡ limit = ground arith in
            let done : ltb limit limit ≡ false = ground arith in
            rw (padding_end, lfs_min, left, e, to_end, done) (inl refl, ground arith, ground arith))
      | inr e ↦
          (let far : add64 0x3fe (offset + 4) ≡ 0x3fe + (offset + 4) = ground arith in
            rw (padding_end, lfs_min, left, e, far, before) (ground arith))
    ]

-- With 16 bytes of room: the footer's tag is a valid checksum of no more than 1022 bytes, no
-- deletion, and says whether the top bit is to be reset; behind it the commit stands where the check
-- of the footers goes on, at the end or with 16 bytes of room again.
pub after_footer_lem :
    (limit reset : ℕ) (c : Commit)
    → limit < 2 ^ 63
    → c.offset + 16 ≤ limit
    → reset < 2
    → let noff = padding_end limit (add64 c.offset 4) in
      let tag = crc_tag reset (add64 c.offset 4) noff in
      let c' = after_footer tag reset c in
      (c'.offset ≡ noff)
      × ((noff ≡ limit) ⊎ (noff + 16 ≤ limit))
      × (c.offset + 8 ≤ noff)
      × (tag_isvalid tag ≡ true)
      × (tag_type1 tag ≡ type_crc)
      × (tag_isdelete tag ≡ false)
      × (bit_and (tag_chunk tag) 1 ≡ reset)
unfolding crc_tag after_footer
after_footer_lem limit reset c low room bit =
    let start : add64 c.offset 4 ≡ c.offset + 4 = omega arith in
    let noff : ℕ = padding_end limit (c.offset + 4) in
    let bounds = padding_end_bounds limit c.offset low room in
    let below : noff ≤ limit = ground (arith, bounds) in
    let pad : sub64 noff (c.offset + 4) ≡ noff - (c.offset + 4) =
      omega (arith, bounds.1, bounds.2) in
    let made =
      mktag_sum (type_crc + reset) 0x3ff (noff - (c.offset + 4)) (omega arith) (omega arith)
        (omega (arith, bounds.1, bounds.2)) in
    let tag : ℕ = mktag (type_crc + reset) 0x3ff (noff - (c.offset + 4)) in
    let size : tag_size tag ≡ noff - (c.offset + 4) =
      omega (arith, tag_size_sum tag, made, bounds.1, bounds.2) in
    rw (crc_tag, after_footer, start, pad, size)
      (
        omega (arith, bounds.1, bounds.2),
        bounds.0,
        bounds.1,
        ground (
          arith,
          tag_isvalid_iff tag (omega (arith, made, bounds.1, bounds.2)),
          made,
          bounds.1,
          bounds.2,
        ),
        omega (arith, tag_type1_sum tag, made, bounds.1, bounds.2),
        ground (arith, tag_isdelete_iff tag, made, bounds.1, bounds.2),
        bit_and_low 1 (tag_chunk tag) ∙ omega (arith, tag_chunk_sum tag, made, bounds.1, bounds.2),
      )

-- Over whatever has been committed with its checksum, and the footer behind it, the checksum that is
-- read back is 0, as `lfs_dir_commit_crc` demands.
pub lfs_crc-footer :
    (bytes : List ℕ) (tag : ℕ) (c : Commit)
    → c.crc ≡ lfs_crc 0xffffffff bytes
    → lfs_crc 0xffffffff (bytes ++ footer tag c) ≡ 0
unfolding footer footer_crc tole32
lfs_crc-footer bytes tag c is =
    let word : List ℕ = bytes_of 4 (tobe32 (bit_xor tag c.ptag)) in
    let before : lfs_crc 0xffffffff bytes < 2 ^ 32 = lfs_crc-lt 0xffffffff bytes (omega arith) in
    lfs_crc-append 0xffffffff bytes (footer tag c)
    ∙ ap (λ t. lfs_crc t (footer tag c)) (sym is)
    ∙ lfs_crc-append c.crc word (bytes_of 4 (lfs_crc c.crc word))
    ∙ lfs_crc_residue (lfs_crc c.crc word) (lfs_crc-lt c.crc word (omega (arith, is, before)))
