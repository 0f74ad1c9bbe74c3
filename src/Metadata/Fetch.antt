-- ===== src/Metadata/Fetch.antt =====
-- `lfs_dir_fetchmatch` and `lfs_dir_fetch`: the newer block of a pair is read from its start, commit
-- by commit, as far as the checksums hold, and what a caller looks for is followed on the way.
pub mod Match
pub mod Ends
pub mod Done
use littlefs_v.Base.{
  ℕ, zero, suc, ◌+◌, ◌-◌, ◌*◌, ◌%◌, ◌^◌, List, Bool, true, false, not, ◌&&◌, ◌||◌, leb, ltb, ◌==◌,
  if◌then◌else◌, u32, add32, sub32, add64, bit_and, bit_or, bit_xor, take, drop, Option, none, some,
  ◌<<◌,
}
use littlefs_v.Errors.{Error, Outcome, ok, err, abort, out_of_fuel, fault}
use littlefs_v.Utility.Align.{lfs_min}
use littlefs_v.Utility.Crc.{lfs_crc}
use littlefs_v.Utility.Endian.{frombe32, fromle32, fromle64, bytes_of}
use littlefs_v.Utility.Pair.{Pair, block_null, pair_swap}
use littlefs_v.Utility.Sequence.{is_later}
use littlefs_v.Utility.Tag.{
  mktag, tag_id, tag_size, tag_type1, tag_isvalid, tag_chunk, tag_dsize, tag_splice,
}
use littlefs_v.Gstate.{Gstate, gstate_hasmovehere, type_movestate, type_delete}
use littlefs_v.Device.{Geometry, Driver, Cache}
use littlefs_v.Device.Write.{Cmp}
use littlefs_v.Device.Cached.{Cached, ◌>>=◌, pure, raise, lift, exhausted, attempt, or_else}
use littlefs_v.Index.{le64}
use littlefs_v.Metadata.{MetadataDir, type_name, type_splice, type_crc, type_tail}
use littlefs_v.Metadata.Get.{read}

-- -1 as an `lfs_stag_t`
abbrev pub no_tag : ℕ
no_tag = 2 ^ 32 - 1

-- What outlives the pass over a block: `*dir`, `besttag` and `lfs->seed`.
pub record Fetching : Type 0 where
  pub dir : MetadataDir
  pub besttag : ℕ
  pub seed : ℕ

-- The variables of a pass.
pub record Pass : Type 0 where
  pub offset : ℕ
  pub ptag : ℕ
  pub crc : ℕ
  pub tempcount : ℕ
  pub temptail : Pair
  pub tempsplit : Bool
  pub tempbesttag : ℕ

-- What a call leaves: the directory and the seed, what `*id` is set to where the caller has one, and
-- what is returned.
pub record Fetched : Type 0 where
  pub dir : MetadataDir
  pub seed : ℕ
  pub id : Option ℕ
  pub result : Outcome ℕ

pub data Next : Type 0 where
  again : Fetching → Pass → Next
  stop : Fetching → Next

unfoldable pub set_erased : Bool → Fetching → Fetching
set_erased erased f = record f { dir = record f.dir { erased = erased } }

-- `crc != dcrc`, and the update with what's found so far.
unfoldable pub commit : ℕ → ℕ → ℕ → Fetching → Pass → Next
unfolding set_erased
commit offset tag dcrc f p =
    let ptag = bit_xor tag (bit_and (tag_chunk tag) 1 << 31) in
    if not (p.crc == dcrc)
    then stop (set_erased false f)
    else again
        (record {
          dir = record f.dir {
            offset = add64 offset (tag_dsize tag);
            etag = ptag;
            count = p.tempcount;
            tail = p.temptail;
            split = p.tempsplit;
          };
          besttag = p.tempbesttag;
          seed = lfs_crc f.seed (bytes_of 4 p.crc);
        })
        (record p { ptag = ptag; crc = 0xffffffff })

-- `tempcount` and `tempbesttag` after a name.
unfoldable pub count_name : ℕ → Pass → Pass
count_name tag p =
    if leb p.tempcount (tag_id tag) then record p { tempcount = tag_id tag + 1 } else p

-- The same after a splice.
unfoldable pub count_splice : ℕ → Pass → Pass
count_splice tag p =
    let best = p.tempbesttag in
    let best' =
      if tag == bit_or (mktag type_delete 0 0) (bit_and (mktag 0 0x3ff 0) best)
      then bit_or best 0x80000000
      else if not (best == no_tag) && leb (tag_id tag) (tag_id best)
      then add32 best (mktag 0 (tag_splice tag) 0)
      else best in
    record p { tempcount = (p.tempcount + tag_splice tag) % 2 ^ 16; tempbesttag = best' }

-- `tempbesttag` after a comparison by the callback.
unfoldable pub note_match : ℕ → Cmp → ℕ → ℕ
note_match tag Cmp.eq best = tag
note_match tag Cmp.lt best =
    if bit_and (mktag type_movestate 0x3ff 0) tag == bit_and (mktag type_movestate 0x3ff 0) best
    then no_tag
    else best
note_match tag Cmp.gt best =
    if bit_and (mktag type_movestate 0x3ff 0) tag == bit_and (mktag type_movestate 0x3ff 0) best
    then no_tag
    else if leb (tag_id tag) (tag_id best)
    then bit_or tag 0x80000000
    else best

unfoldable pub go_on : (Fetching → Pass → Cached Fetching) → Next → Cached Fetching
go_on loop (again f p) = loop f p
go_on loop (stop f) = pure f

module _ {D : Type 0} (g : Geometry) (drv : Driver D) (d : D) where
  -- The bytes of an entry into the checksum; an entry that cannot be read ends the loop alone.
  unfoldable pub crc_entry : ℕ → ℕ → ℕ → ℕ → Cached (ℕ × Bool)
  crc_entry block offset zero crc = pure (crc, true)
  crc_entry block offset (suc left) crc = do
    got ← attempt (read g drv d g.block_size block offset 1)
    or_else got (pure (crc, false))
        (λ bytes. crc_entry block (add64 offset 1) left (lfs_crc crc bytes))

  -- Two 64-bit block numbers.
  unfoldable pub read_tail : ℕ → ℕ → Cached (Option Pair)
  read_tail block offset = do
    got ← attempt (read g drv d g.block_size block offset 16)
    or_else got (pure none) (λ bytes. pure (
        some (record {
          first = fromle64 (le64 (take 8 bytes));
          second = fromle64 (le64 (drop 8 bytes));
        })))

  -- The checksum behind a tag of type LFS_TYPE_CRC.
  unfoldable pub check_crc : ℕ → ℕ → Fetching → Pass → Cached Next
  unfolding set_erased
  check_crc offset tag f p = do
    got ← attempt (read g drv d g.block_size f.dir.pair.first (add64 offset 4) 4)
    or_else got (pure (stop (set_erased false f)))
        (λ bytes. pure (commit offset tag (fromle32 (le64 bytes)) f p))

  -- Directory modification tags; nothing where the block ends the pass.
  unfoldable pub modify : ℕ → ℕ → Fetching → Pass → Cached (Option Pass)
  unfolding count_name count_splice
  modify offset tag f p =
      if tag_type1 tag == type_name
      then pure (some (count_name tag p))
      else if tag_type1 tag == type_splice
      then pure (some (count_splice tag p))
      else if tag_type1 tag == type_tail
      then (do
        got ← read_tail f.dir.pair.first (add64 offset 4)
        or_else got (pure none) (λ tail. pure (
            some (record p { tempsplit = not (bit_and (tag_chunk tag) 1 == 0); temptail = tail }))))
      else pure (some p)

  module _ (fmask ftag : ℕ) (cb : ℕ → ℕ → ℕ → Cached Cmp) where
    -- found a match for our fetcher?
    unfoldable pub compare_entry : ℕ → ℕ → Fetching → Pass → Cached Next
    unfolding note_match set_erased
    compare_entry offset tag f p =
        if bit_and fmask tag == bit_and fmask ftag
        then (do
          got ← attempt (cb tag f.dir.pair.first (add64 offset 4))
          or_else got (pure (stop (set_erased false f)))
              (λ c. pure (again f (record p { tempbesttag = note_match tag c p.tempbesttag }))))
        else pure (again f p)

    -- An entry that is no checksum. One that could not be read has set `erased` and is looked at all
    -- the same.
    unfoldable pub scan_entry : ℕ → ℕ → Fetching → Pass → Cached Next
    unfolding set_erased
    scan_entry offset tag f p = do
      (crc, whole) ← crc_entry f.dir.pair.first (add64 offset 4) (tag_dsize tag - 4) p.crc
      let f' = if whole then f else set_erased false f
      modified ← modify offset tag f' (record p { crc = crc })
      or_else modified (pure (stop (set_erased false f'))) (λ p'. compare_entry offset tag f' p')

    -- A tag that has been read, with its bytes in the checksum.
    unfoldable pub scan_tag : ℕ → ℕ → Fetching → Pass → Cached Next
    unfolding set_erased
    scan_tag offset tag f p =
        if not (tag_isvalid tag)
        then pure
            (stop (set_erased (tag_type1 p.ptag == type_crc && f.dir.offset % g.write_size == 0) f))
        else if ltb g.block_size (add64 offset (tag_dsize tag))
        then pure (stop (set_erased false f))
        else if tag_type1 tag == type_crc
        then check_crc offset tag f (record p { ptag = tag })
        else scan_entry offset tag f (record p { ptag = tag })

    -- A round of the loop over the tags of a block.
    unfoldable pub scan_round : Fetching → Pass → Cached Next
    unfolding set_erased
    scan_round f p = do
      let offset = add64 p.offset (tag_dsize p.ptag)
      got ← attempt (read g drv d g.block_size f.dir.pair.first offset 4)
      or_else got (pure (stop (set_erased false f))) (λ bytes.
          scan_tag offset (bit_xor (frombe32 (le64 bytes)) p.ptag) f
            (record p { offset = offset; crc = lfs_crc p.crc bytes }))

    -- A tag takes four bytes at least, so the size of a block is enough rounds.
    unfoldable pub scan_loop : ℕ → Fetching → Pass → Cached Fetching
    scan_loop zero f p = exhausted
    scan_loop (suc left) f p = do next ← scan_round f p; go_on (scan_loop left) next
