-- ===== src/Metadata/Info/Delta.antt =====
-- `lfs_dir_getgstate` by the newest delta in the log.
use littlefs_v.Base.{
  ℕ, suc, ◌+◌, ◌-◌, ◌*◌, ◌/◌, ◌%◌, ◌^◌, ◌<◌, ◌≤◌, List, [], ◌∷◌, ◌++◌, true, false, ltb, ◌==◌,
  if◌then◌else◌, Option, some, none, ◌≡◌, refl, arith, ap₂, inl, inr, sym, ◌∙◌, Bool-cases, bit_and,
  sub32, add32, tabulate, replicate,
}
use littlefs_v.Base.Bits.{bit_and_parts, bit_and_low, bit_and_comm, zero-bit_and}
use littlefs_v.Errors.{Error, Outcome, ok, err, abort, out_of_fuel, fault, signed_result}
use littlefs_v.Utility.Align.{lfs_min}
use littlefs_v.Utility.Tag.{mktag, tag_id, tag_size, tag_type3, tag_isdelete, tag_dsize}
use littlefs_v.Utility.Tag.Fields.{tag_size_sum, tag_type3_sum, tag_isdelete_iff, tag_dsize_sum}
use littlefs_v.Gstate.{Gstate, gstate_hasmovehere, type_movestate}
use littlefs_v.Device.{Geometry, Driver, Cache}
use littlefs_v.Device.View.{Reads, Fails, IsGeometry}
use littlefs_v.Device.Cached.Ends.{Ends, Ended, follow-Ended, DeviceError}
use littlefs_v.Metadata.{MetadataDir}
use littlefs_v.Metadata.Files.{IsLogged, AllLogged}
use littlefs_v.Metadata.Get.{found, passed, see, synthetic_move, dir_get}
use littlefs_v.Metadata.Get.Got.{dir_getslice-IsGot}
use littlefs_v.Metadata.Get.Search.{Entry, entries, data_of, search_seen, search_log}
use littlefs_v.Metadata.Get.Replay.{AllWithin, entries-AllWithin}
use littlefs_v.Metadata.Info.{found_or_none, find, add_delta, dir_getgstate}

-- The newest tag of a delta.
unfoldable pub newest : List Entry → Option Entry
newest [] = none
newest (e ∷ older) = if tag_type3 e.tag == type_movestate then some e else newest older

-- Its data, cut or filled up with zeros to the size of an `lfs_gstate_t`.
unfoldable pub delta_data : (ℕ → ℕ) → Entry → List ℕ
delta_data f e =
    let size = lfs_min (tag_size e.tag) 24 in tabulate f (e.at + 4) size ++ replicate (24 - size) 0

-- The tag and data, unless it is a deletion.
unfoldable pub delta : (ℕ → ℕ) → Option Entry → Option (ℕ × List ℕ)
unfolding delta_data
delta f none = none
delta f (some e) = if tag_isdelete e.tag then none else some (e.tag, delta_data f e)

or_noent : Option (ℕ × List ℕ) → Outcome (ℕ × List ℕ)
or_noent none = err Error.noent
or_noent (some a) = ok a

abbrev delta_mask : ℕ
delta_mask = mktag type_movestate 0 0

abbrev delta_tag : ℕ
delta_tag = mktag type_movestate 0 24

see_delta :
    (tag : ℕ)
    → IsLogged (record { tag = tag; at = 0 })
    → see delta_mask delta_tag tag 0
      ≡ (if tag_type3 tag == type_movestate then found 0 else passed 0)
unfolding see
see_delta tag logged =
    let no_id : (tag_id delta_mask == 0) ≡ true = unfold mktag tag_id in refl in
    let same : sub32 delta_tag 0 ≡ delta_tag = unfold mktag in refl in
    let mask : delta_mask ≡ 0x7ff * 2 ^ 20 + 0 = unfold mktag in refl in
    let own : bit_and delta_mask delta_tag ≡ 0x7ff * 2 ^ 20 = unfold mktag in refl in
    let high : bit_and 0x7ff (tag / 2 ^ 20) ≡ tag / 2 ^ 20 % 2 ^ 11 =
      bit_and_comm 0x7ff (tag / 2 ^ 20) ∙ bit_and_low 11 (tag / 2 ^ 20) in
    let parts =
      bit_and_parts 20 0x7ff 0 (tag / 2 ^ 20) (tag % 2 ^ 20) (omega arith) (omega arith) in
    let whole : tag / 2 ^ 20 * 2 ^ 20 + tag % 2 ^ 20 ≡ tag = omega arith in
    let masked : bit_and delta_mask tag ≡ tag / 2 ^ 20 % 2 ^ 11 * 2 ^ 20 =
      ap₂ bit_and mask (sym whole) ∙ parts ∙ omega (arith, high, zero-bit_and (tag % 2 ^ 20)) in
    let kind : (bit_and delta_mask tag == bit_and delta_mask delta_tag)
        ≡ (tag_type3 tag == type_movestate) =
      ground (arith, masked, own, tag_type3_sum tag, logged.fits, logged.valid) in
    rw (see, no_id, same, kind) refl

module _ (block_size : ℕ) (f : ℕ → ℕ) where
  data_of-delta :
      (e : Entry)
      → IsLogged e
      → e.at + tag_dsize e.tag ≤ block_size
      → tag_type3 e.tag ≡ type_movestate
      → data_of block_size f delta_mask delta_tag 0 24 e 0 ≡ or_noent (delta f (some e))
  unfolding data_of delta delta_data signed_result or_noent
  data_of-delta e logged inside is = elim (Bool-cases (tag_isdelete e.tag)) [
    | inl gone ↦ rw gone refl
    | inr kept ↦
        (let fits : e.tag < 2 ^ 31 = ground (arith, logged.valid) in
          let long : tag_dsize e.tag ≡ 4 + tag_size e.tag =
            ground (arith, tag_dsize_sum e.tag, tag_isdelete_iff e.tag, tag_size_sum e.tag) in
          let shorter : lfs_min (tag_size e.tag) 24 ≤ tag_size e.tag =
            unfold lfs_min in ground arith in
          let at : e.at + 4 + 0 ≡ e.at + 4 = omega arith in
          let room : ltb block_size (e.at + 4 + lfs_min (tag_size e.tag) 24) ≡ false =
            ground arith in
          let same : add32 e.tag 0 ≡ e.tag = omega arith in
          let low : ltb e.tag (2 ^ 31) ≡ true = ground arith in rw (kept, at, room, same, low) refl)
  ]

  search_log-delta :
      (es : List Entry)
      → AllLogged es
      → AllWithin block_size es
      → search_log block_size f delta_mask delta_tag 0 24 es 0 ≡ or_noent (delta f (newest es))
  unfolding search_log search_seen newest
  search_log-delta [] logged inside = unfold delta or_noent in refl
  search_log-delta (e ∷ older) logged inside =
      elim (Bool-cases (tag_type3 e.tag == type_movestate)) [
        | inl is ↦
            rw (search_log, newest, see_delta e.tag (at_start e logged.0), is)
              (data_of-delta e logged.0 inside.0 (ground arith))
        | inr other ↦
            rw (search_log, newest, see_delta e.tag (at_start e logged.0), other)
              (search_log-delta older logged.1 inside.1)
      ]
    where
      at_start : (e : Entry) → IsLogged e → IsLogged (record { tag = e.tag; at = 0 })
      at_start e l = record { fits = l.fits; valid = l.valid; splices = l.splices }

no_move : (gdisk : Gstate) (dir : MetadataDir) → synthetic_move gdisk dir delta_mask delta_tag ≡ 0
unfolding synthetic_move
no_move gdisk dir =
    let no_id : (tag_id delta_mask == 0) ≡ true = unfold mktag tag_id in refl in
    elim (Bool-cases (gstate_hasmovehere gdisk dir.pair)) [
      | inl e ↦ rw (synthetic_move, e, no_id) refl
      | inr e ↦ rw (synthetic_move, e) refl
    ]

module _ {D : Type 0} (g : Geometry) (drv : Driver D) (d : D) (disk : ℕ → ℕ → ℕ) (v : IsGeometry g)
    (reads : Reads drv d disk) (clean : (block : ℕ) → ¬ Fails drv d block Error.noent) where
  device-Ended :
      {A : Type 0} (P : Option A → Type 0) (rc : Cache) (e : Error)
      → DeviceError g drv d disk e
      → Ended g drv d disk P (λ e. ⊥) (found_or_none {A = A} (rc, err e))
  unfolding found_or_none
  device-Ended P rc Error.noent h = absurd (clean h.0 h.1)
  device-Ended P rc Error.corrupt h = inr h
  device-Ended P rc Error.io h = inr h
  device-Ended P rc Error.exist h = inr h
  device-Ended P rc Error.notdir h = inr h
  device-Ended P rc Error.isdir h = inr h
  device-Ended P rc Error.notempty h = inr h
  device-Ended P rc Error.badf h = inr h
  device-Ended P rc Error.fbig h = inr h
  device-Ended P rc Error.inval h = inr h
  device-Ended P rc Error.nospc h = inr h
  device-Ended P rc Error.nomem h = inr h
  device-Ended P rc Error.noattr h = inr h
  device-Ended P rc Error.nametoolong h = inr h
  device-Ended P rc (Error.other n) h = inr h

  found-Ended :
      (x : Option (ℕ × List ℕ)) (r : Cache × Outcome (ℕ × List ℕ))
      → Ended g drv d disk (λ a. or_noent x ≡ ok a) (λ e. or_noent x ≡ err e) r
      → Ended g drv d disk (λ y. x ≡ y) (λ e. ⊥) (found_or_none r)
  unfolding found_or_none or_noent
  found-Ended none (rc, ok a) h = absurd (cc h.0)
  found-Ended (some b) (rc, ok a) h = (cc h.0, h.1)
  found-Ended none (rc, err e) (inl h) =
      let same : Error.noent ≡ e = cc h.0 in rw (← same) (refl, h.1)
  found-Ended (some b) (rc, err e) (inl h) = absurd (cc h.0)
  found-Ended x (rc, err e) (inr h) = device-Ended (λ y. x ≡ y) rc e h
  found-Ended x (rc, abort) h = h
  found-Ended x (rc, out_of_fuel) h = h
  found-Ended x (rc, fault) h = h

  -- On a device whose sizes fit together, with one erase unit to a block, and that does not give
  -- LFS_ERR_NOENT itself, for a pair whose first block is below the count and a log that ends within
  -- it, with tags of 32 bits: `lfs_dir_getgstate` ends with the newest delta of the log xored into
  -- the state that it is given, or with that state where there is no delta or the newest is a deletion;
  -- or with an error of the device. Ids, splices and pending moves play no part.
  pub dir_getgstate-Ends :
      (gdisk gstate : Gstate) (dir : MetadataDir)
      → dir.pair.first < g.block_count
      → dir.offset ≤ g.block_size
      → let f = disk dir.pair.first in
        let es = entries f (suc dir.offset) dir.offset dir.etag in
        AllLogged es
        → Ends g drv d disk
            (λ s. s ≡ add_delta gstate (delta f (newest es)))
            (λ e. ⊥)
            (dir_getgstate g drv d gdisk dir gstate)
  unfolding dir_getgstate find dir_get
  dir_getgstate-Ends gdisk gstate dir inside below logged rc ready =
      let f : ℕ → ℕ = disk dir.pair.first in
      let es : List Entry = entries f (suc dir.offset) dir.offset dir.etag in
      let long : tag_size delta_tag ≡ 24 = unfold mktag tag_size in refl in
      let got =
        dir_getslice-IsGot g drv d disk v reads gdisk dir delta_mask delta_tag 0 24 inside below
          (omega arith) rc ready in
      let still : synthetic_move gdisk dir delta_mask delta_tag ≡ 0 = no_move gdisk dir in
      let all =
        search_log-delta g.block_size f es logged
          (entries-AllWithin g.block_size f (suc dir.offset) dir.offset dir.etag below) in
      rw (dir_getgstate, find, dir_get, long)
        (follow-Ended g drv d disk (λ y. delta f (newest es) ≡ y) _ (λ e. ⊥) _ _
          (found-Ended (delta f (newest es)) _ (rw (still, all) at got))
          (λ y h rc' ready'. (rw h refl, ready')))
