-- ===== src/Metadata/Filter/Redundant.antt =====
-- When `lfs_dir_traverse_filter` takes a tag for redundant, by the parts of both tags.
use native.Mathlib.Decide.{ℕ_discrete}
use littlefs_v.Base.{
  ap, ℕ, ◌+◌, ◌*◌, ◌/◌, ◌%◌, ◌^◌, ◌<◌, Bool, ◌&&◌, ◌||◌, ◌==◌, add32, bit_and, bit_or, ◌≡◌, refl,
  ◌∙◌, arith,
}
use littlefs_v.Base.Bits.{bit_and_comm, bit_and_low, bit_or_disjoint, zero-bit_and, bit_and_pow}
use littlefs_v.Utility.Tag.{mktag, tag_id, tag_size, tag_type3, tag_isdelete}
use littlefs_v.Utility.Tag.Fields.{tag_id_sum, tag_size_sum, tag_type3_sum}
use littlefs_v.Gstate.{type_delete, type_movestate}
use littlefs_v.Metadata.{type_from}
use littlefs_v.Metadata.Files.{}
use littlefs_v.Metadata.Get.See.{masked_eq, masked_parts, mask_top}
use littlefs_v.Metadata.Filter.{filter_mask, is_redundant, kind_mask}

pub filter_mask-eq : (tag : ℕ) → tag < 2 ^ 31 → filter_mask tag ≡ mktag (kind_mask tag) 0x3ff 0
unfolding filter_mask
filter_mask-eq tag h =
    let one : mktag type_from 0 0 ≡ 2 ^ 28 = unfold mktag in refl in
    ground (arith, one, bit_and_pow 28 tag, tag_type3_sum tag)

-- Whether the later tag deletes the file, by the bits of its type without the highest.
pub deletes_masked :
    (tag filtertag : ℕ)
    → tag < 2 ^ 32
    → filtertag < 2 ^ 32
    → (bit_and (mktag type_movestate 0x3ff 0) tag
        == bit_or (mktag type_delete 0 0) (bit_and (mktag 0 0x3ff 0) filtertag))
      ≡ ((tag / 2 ^ 20 % 2 ^ 11 == type_delete) && (tag_id tag == tag_id filtertag))
deletes_masked tag filtertag fits fits' =
    let id = filtertag / 2 ^ 10 % 1024 in
    let made : mktag type_delete 0 0 ≡ type_delete * 2 ^ 20 = unfold mktag in refl in
    let right : bit_and (mktag 0 0x3ff 0) filtertag ≡ id * 2 ^ 10 =
      masked_parts 0 filtertag (omega arith) fits'
      ∙ omega (arith, zero-bit_and (filtertag / 2 ^ 20)) in
    let all : bit_and type_movestate (tag / 2 ^ 20) ≡ tag / 2 ^ 20 % 2 ^ 11 =
      bit_and_comm type_movestate (tag / 2 ^ 20) ∙ bit_and_low 11 (tag / 2 ^ 20) in
    let left : bit_and (mktag type_movestate 0x3ff 0) tag
        ≡ tag / 2 ^ 20 % 2 ^ 11 * 2 ^ 20 + tag / 2 ^ 10 % 1024 * 2 ^ 10 =
      masked_parts type_movestate tag (omega arith) fits ∙ omega (arith, all) in
    rw (made, right, left, bit_or_disjoint 20 type_delete (id * 2 ^ 10) (omega arith))
      (ground (arith, tag_id_sum tag, tag_id_sum filtertag))

module _ (tag filtertag : ℕ) (fits : tag < 2 ^ 31) (fits' : filtertag < 2 ^ 31) where
  -- The kind of the later tag, under its own mask.
  unfoldable pub same_kind : Bool
  same_kind =
      bit_and (kind_mask tag) (tag_type3 tag) == bit_and (kind_mask tag) (tag_type3 filtertag)

  deletes_file :
      (bit_and (mktag type_movestate 0x3ff 0) tag
        == bit_or (mktag type_delete 0 0) (bit_and (mktag 0 0x3ff 0) filtertag))
      ≡ ((tag_type3 tag == type_delete) && (tag_id tag == tag_id filtertag))
  deletes_file =
      deletes_masked tag filtertag (omega arith) (omega arith)
      ∙ ap (λ ty. (ty == type_delete) && (tag_id tag == tag_id filtertag))
          (omega (arith, tag_type3_sum tag))

  pub is_redundant-eq : is_redundant tag filtertag ≡ (
      (same_kind && (tag_id tag == tag_id filtertag))
      || (tag_isdelete filtertag
          || ((tag_type3 tag == type_delete) && (tag_id tag == tag_id filtertag))))
  unfolding is_redundant same_kind
  is_redundant-eq =
      let mask : kind_mask tag < 2 ^ 11 = ground arith in
      let ty : tag / 2 ^ 20 ≡ tag_type3 tag = omega (arith, tag_type3_sum tag) in
      let ty' : filtertag / 2 ^ 20 ≡ tag_type3 filtertag = omega (arith, tag_type3_sum filtertag) in
      let id : tag / 2 ^ 10 % 1024 ≡ tag_id tag = omega (arith, tag_id_sum tag) in
      let id' : filtertag / 2 ^ 10 % 1024 ≡ tag_id filtertag =
        omega (arith, tag_id_sum filtertag) in
      let kinds = masked_eq (kind_mask tag) tag filtertag mask (omega arith) (omega arith) in
      rw (is_redundant, filter_mask-eq tag fits, kinds, ty, ty', id, id', deletes_file) refl

  -- Tags of a kind under the mask of either are of a kind under that of the other.
  pub kind_sym :
      (bit_and (kind_mask filtertag) (tag_type3 tag)
        == bit_and (kind_mask filtertag) (tag_type3 filtertag))
      ≡ same_kind
  unfolding same_kind
  kind_sym =
      let low : tag_type3 tag < 2 ^ 12 = omega (arith, tag_type3_sum tag) in
      let low' : tag_type3 filtertag < 2 ^ 12 = omega (arith, tag_type3_sum filtertag) in
      elim (ℕ_discrete (tag_type3 tag / 256) (tag_type3 filtertag / 256)) [
        | yes e ↦ rw e refl
        | no ne ↦ ground (
          arith,
          mask_top (kind_mask tag) (tag_type3 tag) (ground arith) low,
          mask_top (kind_mask tag) (tag_type3 filtertag) (ground arith) low',
          mask_top (kind_mask filtertag) (tag_type3 tag) (ground arith) low,
          mask_top (kind_mask filtertag) (tag_type3 filtertag) (ground arith) low',
        )
      ]

  -- Where a splice before it has moved the file's tag.
  abbrev pub Moved : ℕ → ℕ → Type 0
  Moved ft i =
      (tag_type3 ft ≡ tag_type3 filtertag) × (tag_size ft ≡ tag_size filtertag) × (tag_id ft ≡ i)

  pub add-Moved :
      (n : ℕ) (i : ℕ)
      → i < 2 ^ 10
      → n < 2 ^ 32
      → add32 filtertag n ≡ tag_type3 filtertag * 2 ^ 20 + i * 2 ^ 10 + tag_size filtertag
      → Moved (add32 filtertag n) i
  add-Moved n i low wraps e = (
    omega
        (arith, tag_type3_sum (add32 filtertag n), tag_type3_sum filtertag, tag_size_sum filtertag),
    omega (arith, tag_size_sum (add32 filtertag n), tag_size_sum filtertag),
    omega (arith, tag_id_sum (add32 filtertag n), tag_size_sum filtertag),
  )
