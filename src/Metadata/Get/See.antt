-- ===== src/Metadata/Get/See.antt =====
-- What one tag does to the search of `lfs_dir_getslice`, by what it does to the files.
use littlefs_v.Base.{
  ℕ, ◌+◌, ◌-◌, ◌*◌, ◌/◌, ◌%◌, ◌^◌, ◌<◌, true, false, ◌&&◌, leb, ◌==◌, if◌then◌else◌, add32, sub32,
  bit_and, bit_or, ◌≡◌, ◌≢◌, refl, ap, ap₂, ◌∙◌, arith, Bool-cases, sym, inl, inr,
}
use littlefs_v.Base.Bits.{
  bit_and_parts, bit_and_comm, bit_and-le, bit_and_low, bit_or_disjoint, zero-bit_and,
}
use littlefs_v.Utility.Tag.{mktag, tag_id, tag_size, tag_type1, tag_type3, tag_splice}
use littlefs_v.Utility.Tag.Fields.{
  mktag_sum, tag_id_sum, tag_size_sum, tag_type1_sum, tag_type3_sum, tag_chunk_sum,
}
use littlefs_v.Gstate.{type_delete}
use littlefs_v.Metadata.{type_splice, type_create}
use littlefs_v.Metadata.Files.{IsKind}
use littlefs_v.Metadata.Get.{created, found, passed, see}

pub masked_parts :
    (mask a : ℕ)
    → mask < 2 ^ 11
    → a < 2 ^ 32
    → bit_and (mktag mask 0x3ff 0) a
      ≡ bit_and mask (a / 2 ^ 20) * 2 ^ 20 + a / 2 ^ 10 % 1024 * 2 ^ 10
masked_parts mask a hm ha =
    let r : ℕ = a % 2 ^ 20 in
    let sum : mktag mask 0x3ff 0 ≡ mask * 2 ^ 20 + 1023 * 2 ^ 10 =
      omega (arith, mktag_sum mask 0x3ff 0 (omega arith) (omega arith) (omega arith)) in
    let whole : a / 2 ^ 20 * 2 ^ 20 + r ≡ a = omega arith in
    let low : r / 2 ^ 10 * 2 ^ 10 + r % 2 ^ 10 ≡ r = omega arith in
    let high = bit_and_parts 20 mask (1023 * 2 ^ 10) (a / 2 ^ 20) r (omega arith) (omega arith) in
    let middle = bit_and_parts 10 1023 0 (r / 2 ^ 10) (r % 2 ^ 10) (omega arith) (omega arith) in
    let id : bit_and 1023 (r / 2 ^ 10) ≡ r / 2 ^ 10 % 1024 =
      bit_and_comm 1023 (r / 2 ^ 10) ∙ bit_and_low 10 (r / 2 ^ 10) in
    let ids : bit_and (1023 * 2 ^ 10) r ≡ a / 2 ^ 10 % 1024 * 2 ^ 10 =
      ap (λ t. bit_and (1023 * 2 ^ 10) t) (sym low)
      ∙ middle
      ∙ omega (arith, id, zero-bit_and (r % 2 ^ 10)) in
    ap₂ bit_and sum (sym whole) ∙ high ∙ omega (arith, ids)

-- Only the type under the mask and the id count.
pub masked_eq :
    (mask a b : ℕ)
    → mask < 2 ^ 11
    → a < 2 ^ 32
    → b < 2 ^ 32
    → (bit_and (mktag mask 0x3ff 0) a == bit_and (mktag mask 0x3ff 0) b) ≡ (
        (bit_and mask (a / 2 ^ 20) == bit_and mask (b / 2 ^ 20))
        && (a / 2 ^ 10 % 1024 == b / 2 ^ 10 % 1024))
masked_eq mask a b hm ha hb =
    rw (masked_parts mask a hm ha, masked_parts mask b hm hb) (ground arith)

-- A type's top bits are among those that the mask keeps.
pub mask_top : (mask a : ℕ) → mask / 256 ≡ 7 → a < 2 ^ 12 → bit_and mask a / 256 ≡ a / 256 % 8
mask_top mask a hm ha =
    let em : 7 * 2 ^ 8 + mask % 256 ≡ mask = omega arith in
    let ea : a / 256 * 2 ^ 8 + a % 256 ≡ a = omega arith in
    let parts = bit_and_parts 8 7 (mask % 256) (a / 256) (a % 256) (omega arith) (omega arith) in
    let high : bit_and 7 (a / 256) ≡ a / 256 % 8 =
      bit_and_comm 7 (a / 256) ∙ bit_and_low 3 (a / 256) in
    omega (arith, ap₂ bit_and em ea, parts, high, bit_and-le (mask % 256) (a % 256))

module _ (mask type : ℕ) (k : IsKind mask type) (gtag gdiff cur size tag : ℕ) (fits : tag < 2 ^ 32)
    (low : size < 2 ^ 10) (wraps : gdiff < 2 ^ 32)
    (now : sub32 gtag gdiff ≡ type * 2 ^ 20 + cur * 2 ^ 10 + size) where
  -- The tag against the one that is looked for, `back` files before.
  matches :
      (gdiff' other : ℕ)
      → sub32 gtag gdiff' ≡ type * 2 ^ 20 + other * 2 ^ 10 + size
      → other < 2 ^ 10
      → (bit_and (mktag mask 0x3ff 0) tag == bit_and (mktag mask 0x3ff 0) (sub32 gtag gdiff'))
        ≡ ((bit_and mask (tag_type3 tag) == bit_and mask type) && (tag_id tag == other))
  matches gdiff' other e small =
      let hm : mask < 2 ^ 11 = omega (arith, k.mask_top) in
      let wanted : ℕ = type * 2 ^ 20 + other * 2 ^ 10 + size in
      let fits' : wanted < 2 ^ 32 = omega (arith, k.type_top) in
      let ty : wanted / 2 ^ 20 ≡ type = omega arith in
      let idw : wanted / 2 ^ 10 % 1024 ≡ other = omega arith in
      let ty3 : tag / 2 ^ 20 ≡ tag_type3 tag = omega (arith, tag_type3_sum tag) in
      let idt : tag / 2 ^ 10 % 1024 ≡ tag_id tag = omega (arith, tag_id_sum tag) in
      ap (λ t. bit_and (mktag mask 0x3ff 0) tag == bit_and (mktag mask 0x3ff 0) t) e
      ∙ masked_eq mask tag wanted hm (omega arith) fits'
      ∙ rw (ty, idw, ty3, idt) refl

  asks_id : (tag_id (mktag mask 0x3ff 0) == 0) ≡ false
  asks_id =
      let sum = mktag_sum mask 0x3ff 0 (omega (arith, k.mask_top)) (omega arith) (omega arith) in
      ground (arith, tag_id_sum (mktag mask 0x3ff 0))

  -- A splice is not of the kind.
  no_match :
      tag_type1 tag ≡ type_splice → (bit_and mask (tag_type3 tag) == bit_and mask type) ≡ false
  no_match splice = ground (
    arith,
    k.no_splice,
    k.type_top,
    mask_top mask (tag_type3 tag) k.mask_top (omega (arith, tag_type3_sum tag)),
    mask_top mask type k.mask_top (omega (arith, k.type_top)),
    tag_type1_sum tag,
    tag_type3_sum tag,
  )

  -- Any other tag than a splice is the one that is looked for, or is passed.
  pub see_set :
      tag_type1 tag ≢ type_splice
      → cur < 2 ^ 10
      → see (mktag mask 0x3ff 0) gtag tag gdiff ≡ (
          if (bit_and mask (tag_type3 tag) == bit_and mask type) && (tag_id tag == cur)
          then found gdiff
          else passed gdiff)
  unfolding see
  see_set other small =
      let stop : (tag_type1 tag == type_splice) ≡ false = ground arith in
      rw (see, asks_id, stop, matches gdiff cur now small) refl

  id_now : cur < 2 ^ 10 → tag_id (sub32 gtag gdiff) ≡ cur
  id_now small = ap tag_id now ∙ omega (arith, tag_id_sum (type * 2 ^ 20 + cur * 2 ^ 10 + size))

  -- The tag that would have created the file.
  creation :
      cur < 2 ^ 10
      → bit_or (mktag type_create 0 0) (bit_and (mktag 0 0x3ff 0) (sub32 gtag gdiff))
        ≡ type_create * 2 ^ 20 + cur * 2 ^ 10
  creation small =
      let wanted : ℕ = type * 2 ^ 20 + cur * 2 ^ 10 + size in
      let sum = mktag_sum type_create 0 0 (omega arith) (omega arith) (omega arith) in
      let parts = masked_parts 0 wanted (omega arith) (omega (arith, k.type_top)) in
      let id : bit_and (mktag 0 0x3ff 0) (sub32 gtag gdiff) ≡ cur * 2 ^ 10 =
        ap (λ t. bit_and (mktag 0 0x3ff 0) t) now
        ∙ parts
        ∙ omega (arith, zero-bit_and (wanted / 2 ^ 20)) in
      let made : mktag type_create 0 0 ≡ type_create * 2 ^ 20 = omega arith in
      rw (made, id) (bit_or_disjoint 20 type_create (cur * 2 ^ 10) (omega arith))

  -- Whether a splice is the one that created the file.
  created_iff :
      cur < 2 ^ 10
      → tag_type3 tag ≡ type_create
      → tag_size tag ≡ 0
      → (tag == bit_or (mktag type_create 0 0) (bit_and (mktag 0 0x3ff 0) (sub32 gtag gdiff)))
        ≡ (tag_id tag == cur)
  created_iff small is empty =
      rw (creation small) (ground (arith, tag_type3_sum tag, tag_id_sum tag, tag_size_sum tag))

  not_created :
      cur < 2 ^ 10
      → tag_type3 tag ≢ type_create
      → (tag == bit_or (mktag type_create 0 0) (bit_and (mktag 0 0x3ff 0) (sub32 gtag gdiff)))
        ≡ false
  not_created small other = rw (creation small) (ground (arith, tag_type3_sum tag))

  is_splice : (type3 : ℕ) → tag_type3 tag ≡ type3 → type3 / 256 ≡ 4 → tag_type1 tag ≡ type_splice
  is_splice type3 e h = omega (arith, tag_type1_sum tag, tag_type3_sum tag)

  -- A splice before the file moves it.
  pub see_delete :
      tag_type3 tag ≡ type_delete
      → cur < 2 ^ 10 - 1
      → see (mktag mask 0x3ff 0) gtag tag gdiff
        ≡ (if leb (tag_id tag) cur then passed (add32 gdiff (2 ^ 32 - 2 ^ 10)) else passed gdiff)
  unfolding see
  see_delete is small =
      let splice = is_splice type_delete is (omega arith) in
      let one : (tag_type1 tag == type_splice) ≡ true = ground arith in
      let less : tag_splice tag ≡ 2 ^ 32 - 1 =
        unfold tag_splice in ground (arith, tag_chunk_sum tag, tag_type3_sum tag) in
      let back : mktag 0 (2 ^ 32 - 1) 0 ≡ 2 ^ 32 - 2 ^ 10 = unfold mktag in refl in
      let next : sub32 gtag (add32 gdiff (2 ^ 32 - 2 ^ 10))
          ≡ type * 2 ^ 20 + (cur + 1) * 2 ^ 10 + size =
        omega (arith, k.type_top) in
      elim (Bool-cases (leb (tag_id tag) cur)) [
        | inl e ↦
            rw
              (
                see,
                asks_id,
                one,
                id_now (omega arith),
                e,
                less,
                back,
                not_created (omega arith) (omega arith),
                matches _ (cur + 1) next (omega arith),
                no_match splice,
              )
              refl
        | inr e ↦
            rw
              (
                see,
                asks_id,
                one,
                id_now (omega arith),
                e,
                matches gdiff cur now (omega arith),
                no_match splice,
              )
              refl
      ]

  pub see_create :
      tag_type3 tag ≡ type_create
      → tag_size tag ≡ 0
      → cur < 2 ^ 10
      → see (mktag mask 0x3ff 0) gtag tag gdiff ≡ (
          if leb (tag_id tag) cur
          then if tag_id tag == cur then created else passed (add32 gdiff (2 ^ 10))
          else passed gdiff)
  unfolding see
  see_create is empty small =
      let splice = is_splice type_create is (omega arith) in
      let one : (tag_type1 tag == type_splice) ≡ true = ground arith in
      let more : tag_splice tag ≡ 1 =
        unfold tag_splice in ground (arith, tag_chunk_sum tag, tag_type3_sum tag) in
      let step : mktag 0 1 0 ≡ 2 ^ 10 = unfold mktag in refl in
      elim (Bool-cases (leb (tag_id tag) cur)) [
        | inl e ↦ elim (Bool-cases (tag_id tag == cur)) [
          | inl here ↦
              rw (see, asks_id, one, id_now small, e, created_iff small is empty, here) refl
          | inr there ↦
              (let next : sub32 gtag (add32 gdiff (2 ^ 10))
                    ≡ type * 2 ^ 20 + (cur - 1) * 2 ^ 10 + size =
                  ground (arith, k.type_top) in
                rw
                  (
                    see,
                    asks_id,
                    one,
                    id_now small,
                    e,
                    more,
                    step,
                    created_iff small is empty,
                    there,
                    matches _ (cur - 1) next (omega arith),
                    no_match splice,
                  )
                  refl)
        ]
        | inr e ↦
            rw (see, asks_id, one, id_now small, e, matches gdiff cur now small, no_match splice)
              refl
      ]
