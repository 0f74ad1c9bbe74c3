-- ===== src/Metadata/Filter/Dropped.antt =====
-- What `lfs_dir_traverse_filter` lets go, and what it puts in the wrong place.
use littlefs_v.Base.{
  ℕ, ◌+◌, ◌-◌, ◌/◌, ◌%◌, ◌^◌, ◌≤◌, ◌<◌, true, false, ◌&&◌, leb, ltb, ◌==◌, bit_and, if◌then◌else◌,
  Option, some, ◌≡◌, ◌≢◌, refl, sym, ◌∙◌, arith, Bool-cases, ◌⊎◌, inl, inr,
}
use littlefs_v.Utility.Tag.{mktag, from_noop, tag_id, tag_type1, tag_type3, tag_isdelete}
use littlefs_v.Utility.Tag.Fields.{tag_id_sum, tag_type1_sum, tag_type3_sum}
use littlefs_v.Gstate.{type_delete}
use littlefs_v.Metadata.{type_splice, type_create}
use littlefs_v.Metadata.Files.{IsLogged, after_entry, after_create, after_delete, after_set}
use littlefs_v.Metadata.Get.Search.{Entry}
use littlefs_v.Metadata.Get.See.{mask_top}
use littlefs_v.Metadata.Filter.{is_redundant, traverse_filter, kind_mask}
use littlefs_v.Metadata.Filter.Redundant.{same_kind, is_redundant-eq, kind_sym, deletes_masked}

-- A tag that the filter lets go becomes LFS_FROM_NOOP, and for a reason: it is a deletion itself, or
-- the later tag, a create or delete or no splice, has its id and deletes the file, or is what any
-- files have afterwards as that file's entry of the kind.
pub filter-drops :
    (later : Entry) (filtertag : ℕ) (fs : ℕ → Option Entry)
    → IsLogged later
    → later.tag < 2 ^ 31
    → filtertag < 2 ^ 31
    → tag_type1 filtertag ≢ type_splice
    → (traverse_filter later.tag filtertag).0 ≡ true
    → ((traverse_filter later.tag filtertag).1 ≡ 0)
      × ((tag_isdelete filtertag ≡ true)
          ⊎ ((tag_id later.tag ≡ tag_id filtertag)
              × ((tag_type3 later.tag ≡ type_delete)
                  ⊎ (after_entry
                        (kind_mask filtertag)
                        (tag_type3 filtertag)
                        later
                        fs
                        (tag_id filtertag)
                      ≡ some later))))
unfolding traverse_filter
filter-drops later filtertag fs logged valid fits other drops =
    elim (Bool-cases (is_redundant later.tag filtertag)) [
      | inl gone ↦
          (let noop : mktag from_noop 0 0 ≡ 0 = unfold mktag in refl in rw gone (noop, reason gone))
      | inr needed ↦ absurd (kept needed)
    ]
  where
    kept : is_redundant later.tag filtertag ≡ false → ⊥
    kept needed =
        elim (Bool-cases
          ((tag_type1 later.tag == type_splice) && leb (tag_id later.tag) (tag_id filtertag))) [
            | inl e ↦ cc (rw (needed, e) at drops)
            | inr e ↦ cc (rw (needed, e) at drops)
          ]

    sets :
        same_kind later.tag filtertag valid fits ≡ true
        → (bit_and (kind_mask filtertag) (tag_type3 later.tag)
            == bit_and (kind_mask filtertag) (tag_type3 filtertag))
          ≡ true
        → tag_id later.tag ≡ tag_id filtertag
        → after_entry (kind_mask filtertag) (tag_type3 filtertag) later fs (tag_id filtertag)
          ≡ some later
    sets of kind here =
        let km = kind_mask filtertag in
        let tops : tag_type3 later.tag / 256 ≡ tag_type3 filtertag / 256 = ground (
          arith,
          mask_top km (tag_type3 later.tag) (ground arith) (omega (arith, tag_type3_sum later.tag)),
          mask_top km (tag_type3 filtertag) (ground arith) (omega (arith, tag_type3_sum filtertag)),
          tag_type3_sum later.tag,
          tag_type3_sum filtertag,
        ) in
        let no_create : (tag_type3 later.tag == type_create) ≡ false =
          ground (arith, tag_type1_sum filtertag, tag_type3_sum filtertag) in
        let no_delete : (tag_type3 later.tag == type_delete) ≡ false =
          ground (arith, tag_type1_sum filtertag, tag_type3_sum filtertag) in
        let same : (tag_id filtertag == tag_id later.tag) ≡ true = ground arith in
        unfold after_entry after_set in rw (no_create, no_delete, kind, same) refl

    reason :
        is_redundant later.tag filtertag ≡ true
        → (tag_isdelete filtertag ≡ true)
          ⊎ ((tag_id later.tag ≡ tag_id filtertag)
              × ((tag_type3 later.tag ≡ type_delete)
                  ⊎ (after_entry
                        (kind_mask filtertag)
                        (tag_type3 filtertag)
                        later
                        fs
                        (tag_id filtertag)
                      ≡ some later)))
    reason gone =
        let which = sym (is_redundant-eq later.tag filtertag valid fits) ∙ gone in
        let kind = kind_sym later.tag filtertag valid fits in
        elim (Bool-cases (tag_isdelete filtertag)) [
          | inl e ↦ inl e
          | inr e ↦
              elim (Bool-cases
                ((tag_type3 later.tag == type_delete) && (tag_id later.tag == tag_id filtertag))) [
                  | inl d ↦ inr (ground arith, inl (ground arith))
                  | inr nd ↦
                      (let both : (same_kind later.tag filtertag valid fits
                              && (tag_id later.tag == tag_id filtertag))
                            ≡ true =
                          ground arith in
                        let of : same_kind later.tag filtertag valid fits ≡ true = ground arith in
                        let here : tag_id later.tag ≡ tag_id filtertag = ground arith in
                        inr (here, inr (sets of (kind ∙ of) here)))
                ]
        ]

-- The number that a file behind a create or delete has afterwards.
abbrev pub renumbered : ℕ → ℕ → ℕ
renumbered type i = if type == type_create then i + 1 else i - 1

-- `lfs_dir_traverse` sets the highest bit of each tag that it reads from the device, and with it no
-- tag passes for a splice. So where such a tag creates or deletes a file at or before the place of an
-- earlier tag's file, and the filter keeps the earlier tag, it keeps it with its id unchanged: but what
-- any files had under that id they have under the next number after a create, and under the one before
-- after a delete.
pub filter_misplaces :
    (later : Entry) (filtertag : ℕ) (fs : ℕ → Option Entry)
    → later.tag < 2 ^ 31
    → filtertag < 2 ^ 32
    → (tag_type3 later.tag ≡ type_create) ⊎ (tag_type3 later.tag ≡ type_delete)
    → tag_id later.tag ≤ tag_id filtertag
    → is_redundant (later.tag + 2 ^ 31) filtertag ≡ false
    → (traverse_filter (later.tag + 2 ^ 31) filtertag ≡ (false, filtertag))
      × (after_entry
            (kind_mask filtertag)
            (tag_type3 filtertag)
            later
            fs
            (renumbered (tag_type3 later.tag) (tag_id filtertag))
          ≡ fs (tag_id filtertag))
      × (renumbered (tag_type3 later.tag) (tag_id filtertag) ≢ tag_id filtertag)
unfolding traverse_filter after_entry after_create after_delete
filter_misplaces later filtertag fs valid fits which before needed =
    let i : ℕ = tag_id filtertag in
    let no_splice : (tag_type1 (later.tag + 2 ^ 31) == type_splice) ≡ false =
      ground (arith, tag_type1_sum (later.tag + 2 ^ 31)) in
    let kept : traverse_filter (later.tag + 2 ^ 31) filtertag ≡ (false, filtertag) =
      rw (needed, no_splice) refl in
    elim which [
      | inl is ↦
          (let this : (tag_type3 later.tag == type_create) ≡ true = ground arith in
            let past : ltb (i + 1) (tag_id later.tag) ≡ false = ground arith in
            let behind : (i + 1 == tag_id later.tag) ≡ false = ground arith in
            let back : i + 1 - 1 ≡ i = omega arith in
            rw this (kept, rw (past, behind, back) refl, λ h. omega (arith, h)))
      | inr is ↦
          (let other : (tag_type3 later.tag == type_create) ≡ false = ground arith in
            let this : (tag_type3 later.tag == type_delete) ≡ true = ground arith in
            let apart : tag_id later.tag ≢ i = apart_from is in
            let pos : 0 < i = omega arith in
            let past : ltb (i - 1) (tag_id later.tag) ≡ false = ground arith in
            let back : i - 1 + 1 ≡ i = omega arith in
            rw other (kept, rw (this, past, back) refl, λ h. omega (arith, h)))
    ]
  where
    -- A delete of the file itself would make the earlier tag redundant.
    apart_from : tag_type3 later.tag ≡ type_delete → tag_id later.tag ≢ tag_id filtertag
    apart_from is same =
        let deletes = deletes_masked (later.tag + 2 ^ 31) filtertag (omega arith) fits in
        let id : tag_id (later.tag + 2 ^ 31) ≡ tag_id filtertag =
          omega (arith, tag_id_sum later.tag, tag_id_sum (later.tag + 2 ^ 31), same) in
        let type : (later.tag + 2 ^ 31) / 2 ^ 20 % 2 ^ 11 ≡ type_delete =
          omega (arith, tag_type3_sum later.tag, is) in
        unfold is_redundant in ground (arith, deletes, id, type, needed)
