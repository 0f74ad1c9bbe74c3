-- ===== src/Metadata/Get.antt =====
-- `lfs_dir_getslice` and `lfs_dir_get`: the newest tag of a log that fits a mask, found from the
-- end backwards, with the log's later splices taken into account.
pub mod Search
pub mod Got
pub mod See
pub mod Replay
use littlefs_v.Base.{
  ℕ, zero, suc, ◌+◌, ◌-◌, ◌%◌, ◌^◌, List, ◌++◌, Bool, not, ◌&&◌, leb, ◌==◌, if◌then◌else◌, u32,
  add32, sub32, add64, sub64, bit_and, bit_or, bit_xor, replicate, Option, none, some,
}
use littlefs_v.Errors.{Error, signed_result}
use littlefs_v.Utility.Align.{lfs_min}
use littlefs_v.Utility.Endian.{frombe32}
use littlefs_v.Utility.Tag.{mktag, tag_id, tag_size, tag_type1, tag_isdelete, tag_dsize, tag_splice}
use littlefs_v.Gstate.{Gstate, gstate_hasmovehere}
use littlefs_v.Device.{Geometry, Driver, Cache}
use littlefs_v.Device.Read.{bd_read}
use littlefs_v.Device.Cached.{Cached, ◌>>=◌, pure, raise, lift, exhausted}
use littlefs_v.Index.{le64}
use littlefs_v.Metadata.{MetadataDir, type_splice, type_create}

-- The tag behind a stored word, from the tag that follows it in the search.
unfoldable pub earlier_tag : List ℕ → ℕ → ℕ
earlier_tag bytes tag = bit_and (bit_xor (frombe32 (le64 bytes)) tag) 0x7fffffff

-- The id's offset at the start: one less where a file of the pair is on its way out.
unfoldable pub synthetic_move : Gstate → MetadataDir → ℕ → ℕ → ℕ
synthetic_move gdisk dir gmask gtag =
    if gstate_hasmovehere gdisk dir.pair
      && (not (tag_id gmask == 0) && leb (tag_id gdisk.tag) (tag_id gtag))
    then sub32 0 (mktag 0 1 0)
    else 0

-- What a tag does to the search.
pub data Seen : Type 0 where
  created : Seen
  found : ℕ → Seen
  passed : ℕ → Seen

-- A splice before the id moves it, the one that created it ends the search.
unfoldable pub see : ℕ → ℕ → ℕ → ℕ → Seen
see gmask gtag tag gdiff =
    let moved =
      not (tag_id gmask == 0)
      && (tag_type1 tag == type_splice && leb (tag_id tag) (tag_id (sub32 gtag gdiff))) in
    let gdiff' = if moved then add32 gdiff (mktag 0 (tag_splice tag) 0) else gdiff in
    if moved && tag == bit_or (mktag type_create 0 0) (bit_and (mktag 0 0x3ff 0) (sub32 gtag gdiff))
    then created
    else if bit_and gmask tag == bit_and gmask (sub32 gtag gdiff')
    then found gdiff'
    else passed gdiff'

module _ {D : Type 0} (g : Geometry) (drv : Driver D) (d : D) where
  abbrev pub read : ℕ → ℕ → ℕ → ℕ → Cached (List ℕ)
  read hint block offset size rc = bd_read g drv d none hint block rc offset size

  -- The tag that was found, its id as of now, and its data filled up with zeros.
  unfoldable pub slice_data : ℕ → ℕ → ℕ → ℕ → ℕ → ℕ → Cached (ℕ × List ℕ)
  slice_data block offset goff gsize tag gdiff =
      if tag_isdelete tag
      then raise Error.noent
      else (let diff = lfs_min (tag_size tag) gsize in
          do
            bytes ← read diff block (add64 (add64 offset 4) goff) diff
            result ← lift (signed_result (add32 tag gdiff))
            pure (result, bytes ++ replicate (gsize - diff) 0))

  -- A tag that has been looked at; the search goes on with `next`.
  unfoldable pub slice_seen :
      ℕ → ℕ → ℕ → ℕ → ℕ → (ℕ → Cached (ℕ × List ℕ)) → Seen → Cached (ℕ × List ℕ)
  slice_seen block offset goff gsize tag next created = raise Error.noent
  slice_seen block offset goff gsize tag next (found gdiff) =
      slice_data block offset goff gsize tag gdiff
  slice_seen block offset goff gsize tag next (passed gdiff) = next gdiff

  -- The loop over the tags, from the last one on.
  unfoldable pub slice_loop : ℕ → ℕ → ℕ → ℕ → ℕ → ℕ → ℕ → ℕ → ℕ → Cached (ℕ × List ℕ)
  slice_loop block gmask gtag goff gsize zero offset ntag gdiff = exhausted
  slice_loop block gmask gtag goff gsize (suc left) offset ntag gdiff =
      let offset' = sub64 offset (tag_dsize ntag) in
      if leb (add64 4 (tag_dsize ntag)) offset
      then (do
        bytes ← read 4 block offset' 4
        slice_seen block offset' goff gsize ntag
            (λ gdiff'.
              slice_loop block gmask gtag goff gsize left offset' (earlier_tag bytes ntag) gdiff')
            (see gmask gtag ntag gdiff))
      else raise Error.noent

  -- lfs_dir_getslice. A tag takes four bytes at least, so the offset is enough rounds.
  unfoldable pub dir_getslice : Gstate → MetadataDir → ℕ → ℕ → ℕ → ℕ → Cached (ℕ × List ℕ)
  dir_getslice gdisk dir gmask gtag goff gsize =
      slice_loop dir.pair.first gmask gtag goff gsize (suc dir.offset) dir.offset dir.etag
        (synthetic_move gdisk dir gmask gtag)

  -- lfs_dir_get
  unfoldable pub dir_get : Gstate → MetadataDir → ℕ → ℕ → Cached (ℕ × List ℕ)
  dir_get gdisk dir gmask gtag = dir_getslice gdisk dir gmask gtag 0 (tag_size gtag)
