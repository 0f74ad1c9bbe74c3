-- ===== src/Metadata/Get/Replay.antt =====
-- `lfs_dir_get` gives a file's entry as the log's files have it.
use native.Mathlib.Decide.{ℕ_discrete}
use littlefs_v.Base.{
  ℕ, zero, suc, ◌+◌, ◌-◌, ◌*◌, ◌^◌, ◌≤◌, ◌<◌, List, [], ◌∷◌, ◌++◌, Bool, true, false, leb, ltb,
  ◌==◌, if◌then◌else◌, add32, sub32, bit_and, replicate, tabulate, Option, none, some, ◌≡◌, ◌≢◌,
  refl, ◌∙◌, arith, Bool-cases, inl, inr,
}
use littlefs_v.Errors.{Error, Outcome, ok, err, signed_result}
use littlefs_v.Utility.Align.{lfs_min}
use littlefs_v.Utility.Tag.{mktag, tag_id, tag_size, tag_type1, tag_type3, tag_isdelete, tag_dsize}
use littlefs_v.Utility.Tag.Fields.{
  mktag_sum, tag_id_sum, tag_size_sum, tag_type1_sum, tag_type3_sum, tag_dsize_sum,
  tag_isdelete_iff,
}
use littlefs_v.Gstate.{type_delete, Gstate, gstate_hasmovehere}
use littlefs_v.Device.{Geometry, Driver}
use littlefs_v.Device.View.{Reads, IsGeometry}
use littlefs_v.Metadata.{MetadataDir, type_splice, type_create}
use littlefs_v.Metadata.Files.{
  IsKind, IsLogged, AllLogged, files, after_entry, after_create, after_delete, after_set, deletes,
  without_move,
}
use littlefs_v.Metadata.Get.{synthetic_move, dir_get}
use littlefs_v.Metadata.Get.Got.{IsGot, dir_getslice-IsGot}
use littlefs_v.Metadata.Get.Search.{Entry, entries, data_of, search_seen, search_log}
use littlefs_v.Metadata.Get.See.{see_set, see_create, see_delete, mask_top}

-- Entries whose data lies in the block.
abbrev pub AllWithin : ℕ → List Entry → Type 0
AllWithin size [] = Unit
AllWithin size (e ∷ older) = (e.at + tag_dsize e.tag ≤ size) × AllWithin size older

pub entries-AllWithin :
    (size : ℕ) (f : ℕ → ℕ) (left end tag : ℕ) → end ≤ size → AllWithin size (entries f left end tag)
unfolding entries
entries-AllWithin size f zero end tag h = tt
entries-AllWithin size f (suc left) end tag h = elim (Bool-cases (leb (4 + tag_dsize tag) end)) [
  | inl e ↦
      rw (entries, e)
        (ground arith, entries-AllWithin size f left (end - tag_dsize tag) _ (omega arith))
  | inr e ↦ rw (entries, e) tt
]

module _ (mask type : ℕ) (k : IsKind mask type) (block_size : ℕ) (f : ℕ → ℕ) (id size : ℕ)
    (small : id < 2 ^ 10) (low : size < 2 ^ 10) where
  -- The entry's tag, with the number that the file has now, and its data.
  abbrev pub answer : Option Entry → Outcome (ℕ × List ℕ)
  answer none = err Error.noent
  answer (some e) =
      if tag_isdelete e.tag
      then err Error.noent
      else ok (
        mktag (tag_type3 e.tag) id (tag_size e.tag),
        tabulate f (e.at + 4) (lfs_min (tag_size e.tag) size)
            ++ replicate (size - lfs_min (tag_size e.tag) size) 0,
      )

  data_of-eq-answer :
      (e : Entry) (gdiff : ℕ)
      → e.tag < 2 ^ 31
      → e.at + tag_dsize e.tag ≤ block_size
      → gdiff < 2 ^ 32
      → sub32 (mktag type id size) gdiff ≡ type * 2 ^ 20 + tag_id e.tag * 2 ^ 10 + size
      → data_of block_size f (mktag mask 0x3ff 0) (mktag type id size) 0 size e gdiff
        ≡ answer (some e)
  unfolding data_of signed_result
  data_of-eq-answer e gdiff fits inside wraps now = elim (Bool-cases (tag_isdelete e.tag)) [
    | inl gone ↦ rw gone refl
    | inr kept ↦
        (let long : tag_dsize e.tag ≡ 4 + tag_size e.tag =
            ground (arith, tag_dsize_sum e.tag, tag_isdelete_iff e.tag, tag_size_sum e.tag) in
          let diff : ℕ = lfs_min (tag_size e.tag) size in
          let shorter : diff ≤ tag_size e.tag = unfold lfs_min in ground arith in
          let at : e.at + 4 + 0 ≡ e.at + 4 = omega arith in
          let room : ltb block_size (e.at + 4 + diff) ≡ false = ground arith in
          let made =
            mktag_sum (tag_type3 e.tag) id (tag_size e.tag) (omega (arith, tag_type3_sum e.tag))
              small (omega (arith, tag_size_sum e.tag)) in
          let query = mktag_sum type id size (omega (arith, k.type_top)) small low in
          let renamed : add32 e.tag gdiff ≡ mktag (tag_type3 e.tag) id (tag_size e.tag) =
            omega (arith, tag_type3_sum e.tag, tag_id_sum e.tag, tag_size_sum e.tag, k.type_top) in
          let positive : ltb (mktag (tag_type3 e.tag) id (tag_size e.tag)) (2 ^ 31) ≡ true =
            ground (arith, tag_type3_sum e.tag, tag_size_sum e.tag) in
          rw (kept, at, room, renamed, positive) refl)
  ]

  abbrev search : List Entry → ℕ → Outcome (ℕ × List ℕ)
  search es gdiff =
      search_log block_size f (mktag mask 0x3ff 0) (mktag type id size) 0 size es gdiff

  abbrev Now : ℕ → ℕ → Type 0
  Now gdiff cur =
      (gdiff < 2 ^ 32) × (sub32 (mktag type id size) gdiff ≡ type * 2 ^ 20 + cur * 2 ^ 10 + size)

  -- From the older entries to one more, by what it is.
  module _ (e : Entry) (older : List Entry) (gdiff cur spare : ℕ) (logged : IsLogged e)
      (inside : e.at + tag_dsize e.tag ≤ block_size) (now : Now gdiff cur)
      (few : cur + spare < 2 ^ 10)
      (rest : (gdiff' cur' : ℕ)
        → Now gdiff' cur'
        → cur' ≤ cur + spare
        → search older gdiff' ≡ answer (files mask type older cur')) where
    set-step :
        tag_type1 e.tag ≢ type_splice
        → search (e ∷ older) gdiff ≡ answer (files mask type (e ∷ older) cur)
    unfolding search_log search_seen files after_entry after_set
    set-step other =
        let seen =
          see_set mask type k (mktag type id size) gdiff cur size e.tag logged.fits low now.0 now.1
            other (omega arith) in
        let kind : Bool = bit_and mask (tag_type3 e.tag) == bit_and mask type in
        let no_create : (tag_type3 e.tag == type_create) ≡ false =
          ground (arith, tag_type1_sum e.tag, tag_type3_sum e.tag) in
        let no_delete : (tag_type3 e.tag == type_delete) ≡ false =
          ground (arith, tag_type1_sum e.tag, tag_type3_sum e.tag) in
        elim (Bool-cases kind) [
          | inl of ↦ elim (Bool-cases (tag_id e.tag == cur)) [
            | inl here ↦
                (let same : tag_id e.tag ≡ cur = ground arith in
                  let here' : (cur == tag_id e.tag) ≡ true = ground arith in
                  let valid : e.tag < 2 ^ 31 = ground (
                    arith,
                    logged.valid,
                    k.no_crc,
                    k.type_top,
                    mask_top mask (tag_type3 e.tag) k.mask_top (omega (arith, tag_type3_sum e.tag)),
                    mask_top mask type k.mask_top (omega (arith, k.type_top)),
                  ) in
                  rw (seen, no_create, no_delete, of, here, here')
                    (data_of-eq-answer e gdiff valid inside now.0 (now.1 ∙ rw same refl)))
            | inr there ↦
                (let there' : (cur == tag_id e.tag) ≡ false = ground arith in
                  rw (seen, no_create, no_delete, of, there, there')
                    (rest gdiff cur now (omega arith)))
          ]
          | inr other_kind ↦
              rw (seen, no_create, no_delete, other_kind) (rest gdiff cur now (omega arith))
        ]

    create-step :
        tag_type3 e.tag ≡ type_create
        → tag_size e.tag ≡ 0
        → search (e ∷ older) gdiff ≡ answer (files mask type (e ∷ older) cur)
    unfolding search_log search_seen files after_entry after_create
    create-step is empty =
        let seen =
          see_create mask type k (mktag type id size) gdiff cur size e.tag logged.fits low now.0
            now.1 is empty (omega arith) in
        let this : (tag_type3 e.tag == type_create) ≡ true = ground arith in
        elim (Bool-cases (leb (tag_id e.tag) cur)) [
          | inl e' ↦ elim (Bool-cases (tag_id e.tag == cur)) [
            | inl here ↦
                (let here' : (cur == tag_id e.tag) ≡ true = ground arith in
                  let before : ltb cur (tag_id e.tag) ≡ false = ground arith in
                  rw (seen, this, e', here, before, here') refl)
            | inr there ↦
                (let there' : (cur == tag_id e.tag) ≡ false = ground arith in
                  let before : ltb cur (tag_id e.tag) ≡ false = ground arith in
                  let query = mktag_sum type id size (omega (arith, k.type_top)) small low in
                  rw (seen, this, e', there, before, there')
                    (rest (add32 gdiff (2 ^ 10)) (cur - 1) (omega arith, ground (arith, k.type_top))
                      (omega arith)))
          ]
          | inr e' ↦
              (let before : ltb cur (tag_id e.tag) ≡ true = ground arith in
                rw (seen, this, e', before) (rest gdiff cur now (omega arith)))
        ]

    delete-step :
        tag_type3 e.tag ≡ type_delete
        → 0 < spare
        → search (e ∷ older) gdiff ≡ answer (files mask type (e ∷ older) cur)
    unfolding search_log search_seen files after_entry after_delete
    delete-step is one_more =
        let seen =
          see_delete mask type k (mktag type id size) gdiff cur size e.tag logged.fits low now.0
            now.1 is (omega arith) in
        let this : (tag_type3 e.tag == type_delete) ≡ true = ground arith in
        let no_create : (tag_type3 e.tag == type_create) ≡ false = ground arith in
        elim (Bool-cases (leb (tag_id e.tag) cur)) [
          | inl e' ↦
              (let before : ltb cur (tag_id e.tag) ≡ false = ground arith in
                let query = mktag_sum type id size (omega (arith, k.type_top)) small low in
                rw (seen, this, no_create, e', before)
                  (rest (add32 gdiff (2 ^ 32 - 2 ^ 10)) (cur + 1)
                    (omega arith, omega (arith, k.type_top)) (omega arith)))
          | inr e' ↦
              (let before : ltb cur (tag_id e.tag) ≡ true = ground arith in
                rw (seen, this, no_create, e', before) (rest gdiff cur now (omega arith)))
        ]

  pub search_log-eq-files :
      (es : List Entry) (gdiff cur : ℕ)
      → AllLogged es
      → AllWithin block_size es
      → Now gdiff cur
      → cur + deletes es < 2 ^ 10
      → search es gdiff ≡ answer (files mask type es cur)
  search_log-eq-files [] gdiff cur logged within now few = unfold search_log files in refl
  search_log-eq-files (e ∷ older) gdiff cur (le, logged) (inside, within) now few =
      let spare : ℕ = deletes (e ∷ older) - deletes older in
      let rest : (gdiff' cur' : ℕ)
          → Now gdiff' cur'
          → cur' ≤ cur + spare
          → search older gdiff' ≡ answer (files mask type older cur') =
        λ gdiff' cur' now' near.
          search_log-eq-files older gdiff' cur' logged within now' (ground arith) in
      elim (ℕ_discrete (tag_type1 e.tag) type_splice) [
        | yes splice ↦ elim (le.splices splice) [
          | inl create ↦
              create-step e older gdiff cur spare le inside now (ground arith) rest create.0
                create.1
          | inr delete ↦
              delete-step e older gdiff cur spare le inside now (ground arith) rest delete
                (ground arith)
        ]
        | no other ↦ set-step e older gdiff cur spare le inside now (ground arith) rest other
      ]

  -- The search from where a pending move lets it start.
  pub search-eq-without_move :
      (gdisk : Gstate) (dir : MetadataDir) (es : List Entry)
      → AllLogged es
      → AllWithin block_size es
      → id + deletes es < 2 ^ 10 - 1
      → search es (synthetic_move gdisk dir (mktag mask 0x3ff 0) (mktag type id size))
        ≡ answer (without_move gdisk dir (files mask type es) id)
  unfolding without_move after_delete synthetic_move
  search-eq-without_move gdisk dir es logged within few =
      let query = mktag_sum type id size (omega (arith, k.type_top)) small low in
      let whole = mktag_sum mask 0x3ff 0 (omega (arith, k.mask_top)) (omega arith) (omega arith) in
      let asks : (tag_id (mktag mask 0x3ff 0) == 0) ≡ false =
        ground (arith, tag_id_sum (mktag mask 0x3ff 0)) in
      let number : tag_id (mktag type id size) ≡ id =
        omega (arith, tag_id_sum (mktag type id size)) in
      let back : sub32 0 (mktag 0 1 0) ≡ 2 ^ 32 - 2 ^ 10 = unfold mktag in refl in
      let here =
        search_log-eq-files es 0 id logged within (omega arith, omega (arith, k.type_top))
          (omega arith) in
      let next =
        search_log-eq-files es (2 ^ 32 - 2 ^ 10) (id + 1) logged within
          (omega arith, omega (arith, k.type_top)) (omega arith) in
      elim (Bool-cases (gstate_hasmovehere gdisk dir.pair)) [
        | inl moving ↦ elim (Bool-cases (leb (tag_id gdisk.tag) id)) [
          | inl before ↦
              (let before' : ltb id (tag_id gdisk.tag) ≡ false = ground arith in
                rw (moving, asks, number, before, before', back) next)
          | inr behind ↦
              (let behind' : ltb id (tag_id gdisk.tag) ≡ true = ground arith in
                rw (moving, asks, number, behind, behind') here)
        ]
        | inr still ↦ rw still here
      ]

-- On a device whose sizes fit together, with one erase unit to a block, for a pair whose first block
-- is below the count and a log that ends within it, whose splices are creates and deletes and whose
-- deletes and the number asked for come to less than 1023: `lfs_dir_get`, asked for a kind of entry of
-- a file by its number, ends with the entry that the log's files have there, the file whose move is
-- pending being gone: the entry's type and size with the file's number of now, and its data, cut or
-- filled up with zeros; with LFS_ERR_NOENT if there is none or it is a deletion; or with an error of
-- the device.
pub dir_get-file :
    {D : Type 0} (g : Geometry) (drv : Driver D) (d : D) (disk : ℕ → ℕ → ℕ) (v : IsGeometry g)
    (reads : Reads drv d disk) (mask type : ℕ) (k : IsKind mask type) (gdisk : Gstate)
    (dir : MetadataDir) (id size : ℕ) (small : id < 2 ^ 10) (low : size < 2 ^ 10)
    → dir.pair.first < g.block_count
    → dir.offset ≤ g.block_size
    → let es = entries (disk dir.pair.first) (suc dir.offset) dir.offset dir.etag in
      AllLogged es
      → id + deletes es < 2 ^ 10 - 1
      → IsGot g drv d disk v reads
          (answer mask type k g.block_size
            (disk dir.pair.first)
            id
            size
            small
            low
            (without_move gdisk dir (files mask type es) id))
          (dir_get g drv d gdisk dir (mktag mask 0x3ff 0) (mktag type id size))
unfolding dir_get
dir_get-file g drv d disk v reads mask type k gdisk dir id size small low inside below logged few =
    let f : ℕ → ℕ = disk dir.pair.first in
    let es : List Entry = entries f (suc dir.offset) dir.offset dir.etag in
    let query = mktag_sum type id size (omega (arith, k.type_top)) small low in
    let long : tag_size (mktag type id size) ≡ size =
      omega (arith, tag_size_sum (mktag type id size)) in
    rw (dir_get, long)
      (rw
        (search-eq-without_move mask type k g.block_size f id size small low gdisk dir es logged
          (entries-AllWithin g.block_size f (suc dir.offset) dir.offset dir.etag below) few)
        at
        (dir_getslice-IsGot g drv d disk v reads gdisk dir (mktag mask 0x3ff 0) (mktag type id size)
          0 size inside below (omega arith)))
