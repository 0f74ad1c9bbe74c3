-- ===== src/Metadata/Filter/Kept.antt =====
-- What `lfs_dir_traverse_filter` keeps.
use native.Mathlib.Decide.{ℕ_discrete}
use littlefs_v.Base.{
  ℕ, ◌+◌, ◌-◌, ◌^◌, ◌<◌, true, false, leb, ltb, ◌==◌, add32, Option, ◌≡◌, ◌≢◌, refl, ap, ◌∙◌, arith,
  Bool-cases, inl, inr,
}
use littlefs_v.Utility.Tag.{mktag, tag_id, tag_size, tag_type1, tag_type3, tag_splice}
use littlefs_v.Utility.Tag.Fields.{
  tag_id_sum, tag_size_sum, tag_type1_sum, tag_type3_sum, tag_chunk_sum,
}
use littlefs_v.Gstate.{type_delete}
use littlefs_v.Metadata.{type_splice, type_create}
use littlefs_v.Metadata.Files.{IsLogged, after_entry, after_create, after_delete, after_set}
use littlefs_v.Metadata.Get.Search.{Entry}
use littlefs_v.Metadata.Filter.{is_redundant, traverse_filter, kind_mask}
use littlefs_v.Metadata.Filter.Redundant.{same_kind, is_redundant-eq, kind_sym, Moved, add-Moved}

module _ (later : Entry) (filtertag : ℕ) (fs : ℕ → Option Entry) (entry : Option Entry)
    (logged : IsLogged later) (valid : later.tag < 2 ^ 31) (fits : filtertag < 2 ^ 31)
    (low : tag_id filtertag < 1022) (has : fs (tag_id filtertag) ≡ entry)
    (needed : is_redundant later.tag filtertag ≡ false) where
  abbrev Kept : ℕ → Type 0
  Kept kept =
      (after_entry (kind_mask filtertag) (tag_type3 filtertag) later fs (tag_id kept) ≡ entry)
      × (tag_type3 kept ≡ tag_type3 filtertag)
      × (tag_size kept ≡ tag_size filtertag)

  -- A splice of so much, before the file or behind it.
  spliced :
      (n i : ℕ)
      → tag_type1 later.tag ≡ type_splice
      → mktag 0 (tag_splice later.tag) 0 ≡ n
      → (leb (tag_id later.tag) (tag_id filtertag) ≡ true
          → Moved later.tag filtertag valid fits (add32 filtertag n) i)
      → (leb (tag_id later.tag) (tag_id filtertag) ≡ true
          → after_entry (kind_mask filtertag) (tag_type3 filtertag) later fs i ≡ entry)
      → (leb (tag_id later.tag) (tag_id filtertag) ≡ false
          → after_entry (kind_mask filtertag) (tag_type3 filtertag) later fs (tag_id filtertag)
            ≡ entry)
      → Kept (traverse_filter later.tag filtertag).1
  unfolding traverse_filter
  spliced n i is by there before behind =
      let splice : (tag_type1 later.tag == type_splice) ≡ true = ground arith in
      elim (Bool-cases (leb (tag_id later.tag) (tag_id filtertag))) [
        | inl e ↦ (let m = there e in rw (needed, splice, e, by) (rw m.2 (before e), m.0, m.1))
        | inr e ↦ rw (needed, splice, e) (behind e, refl, refl)
      ]

  keeps_create : tag_type3 later.tag ≡ type_create → Kept (traverse_filter later.tag filtertag).1
  unfolding after_entry after_create
  keeps_create is =
      let this : (tag_type3 later.tag == type_create) ≡ true = ground arith in
      let i : ℕ = tag_id filtertag in
      let more : mktag 0 (tag_splice later.tag) 0 ≡ 2 ^ 10 =
        (let one : tag_splice later.tag ≡ 1 =
            unfold tag_splice in ground (arith, tag_chunk_sum later.tag, tag_type3_sum later.tag) in
          ap (λ t. mktag 0 t 0) one ∙ unfold mktag in refl) in
      spliced (2 ^ 10) (i + 1) (omega (arith, tag_type1_sum later.tag, tag_type3_sum later.tag))
        more
        (λ e.
          add-Moved later.tag filtertag valid fits (2 ^ 10) (i + 1) (omega arith) (omega arith)
            (omega (arith, tag_type3_sum filtertag, tag_id_sum filtertag, tag_size_sum filtertag)))
        (λ e.
          let past : ltb (i + 1) (tag_id later.tag) ≡ false = ground arith in
          let behind : (i + 1 == tag_id later.tag) ≡ false = ground arith in
          let back : i + 1 - 1 ≡ i = omega arith in rw (this, past, behind, back) has)
        (λ e. let before : ltb i (tag_id later.tag) ≡ true = ground arith in rw (this, before) has)

  keeps_delete : tag_type3 later.tag ≡ type_delete → Kept (traverse_filter later.tag filtertag).1
  unfolding after_entry after_delete
  keeps_delete is =
      let this : (tag_type3 later.tag == type_delete) ≡ true = ground arith in
      let no_create : (tag_type3 later.tag == type_create) ≡ false = ground arith in
      let i : ℕ = tag_id filtertag in
      let apart : tag_id later.tag ≢ i =
        ground (arith, is_redundant-eq later.tag filtertag valid fits) in
      let less : mktag 0 (tag_splice later.tag) 0 ≡ 2 ^ 32 - 2 ^ 10 =
        (let one : tag_splice later.tag ≡ 2 ^ 32 - 1 =
            unfold tag_splice in ground (arith, tag_chunk_sum later.tag, tag_type3_sum later.tag) in
          ap (λ t. mktag 0 t 0) one ∙ unfold mktag in refl) in
      spliced (2 ^ 32 - 2 ^ 10) (i - 1)
        (omega (arith, tag_type1_sum later.tag, tag_type3_sum later.tag)) less
        (λ e.
          let pos : 0 < i = ground arith in
          add-Moved later.tag filtertag valid fits (2 ^ 32 - 2 ^ 10) (i - 1) (omega arith)
            (omega arith)
            (omega (arith, tag_type3_sum filtertag, tag_id_sum filtertag, tag_size_sum filtertag)))
        (λ e.
          let pos : 0 < i = ground arith in
          let past : ltb (i - 1) (tag_id later.tag) ≡ false = ground arith in
          let back : i - 1 + 1 ≡ i = omega arith in rw (this, no_create, past, back) has)
        (λ e.
          let before : ltb i (tag_id later.tag) ≡ true = ground arith in
          rw (this, no_create, before) has)

  keeps_set : tag_type1 later.tag ≢ type_splice → Kept (traverse_filter later.tag filtertag).1
  unfolding traverse_filter after_entry after_set
  keeps_set other =
      let no_splice : (tag_type1 later.tag == type_splice) ≡ false = ground arith in
      let no_create : (tag_type3 later.tag == type_create) ≡ false =
        ground (arith, tag_type1_sum later.tag, tag_type3_sum later.tag) in
      let no_delete : (tag_type3 later.tag == type_delete) ≡ false =
        ground (arith, tag_type1_sum later.tag, tag_type3_sum later.tag) in
      let kind = kind_sym later.tag filtertag valid fits in
      let redundant = is_redundant-eq later.tag filtertag valid fits in
      elim (Bool-cases (same_kind later.tag filtertag valid fits)) [
        | inl of ↦
            (let apart : (tag_id filtertag == tag_id later.tag) ≡ false = ground arith in
              rw (needed, no_splice, no_create, no_delete, kind, of, apart) (has, refl, refl))
        | inr other_kind ↦
            rw (needed, no_splice, no_create, no_delete, kind, other_kind) (has, refl, refl)
      ]

-- A tag that the filter keeps against a later one of the log, a create or delete or no splice, is still
-- the entry of its file, for any files that had it as the entry of its kind before the later tag: under
-- the number that its id has become, with its type and size as they were. The tag's id is below
-- 1022.
pub filter-keeps :
    (later : Entry) (filtertag : ℕ) (fs : ℕ → Option Entry) (entry : Option Entry)
    → IsLogged later
    → later.tag < 2 ^ 31
    → filtertag < 2 ^ 31
    → tag_id filtertag < 1022
    → fs (tag_id filtertag) ≡ entry
    → (traverse_filter later.tag filtertag).0 ≡ false
    → let kept = (traverse_filter later.tag filtertag).1 in
      (after_entry (kind_mask filtertag) (tag_type3 filtertag) later fs (tag_id kept) ≡ entry)
      × (tag_type3 kept ≡ tag_type3 filtertag)
      × (tag_size kept ≡ tag_size filtertag)
unfolding traverse_filter
filter-keeps later filtertag fs entry logged valid fits low has keeps =
    elim (Bool-cases (is_redundant later.tag filtertag)) [
      | inl gone ↦ absurd (cc (rw gone at keeps))
      | inr needed ↦ elim (ℕ_discrete (tag_type1 later.tag) type_splice) [
        | yes splice ↦ elim (logged.splices splice) [
          | inl create ↦
              keeps_create later filtertag fs entry logged valid fits low has needed create.0
          | inr delete ↦
              keeps_delete later filtertag fs entry logged valid fits low has needed delete
        ]
        | no other ↦ keeps_set later filtertag fs entry logged valid fits low has needed other
      ]
    ]
