-- ===== src/Metadata/Fetch/Match.antt =====
-- `lfs_dir_fetchmatch` around the passes: which block comes first, and what is returned; and
-- `lfs_dir_fetch`, `lfs_dir_find_match`.
use littlefs_v.Base.{
  ℕ, suc, List, Bool, false, not, ◌&&◌, ◌||◌, leb, ltb, ◌==◌, if◌then◌else◌, sub32, bit_or, length,
  take, Option, none, some,
}
use littlefs_v.Errors.{Error, ok, err, fault}
use littlefs_v.Utility.Align.{lfs_min}
use littlefs_v.Utility.Crc.{lfs_crc}
use littlefs_v.Utility.Endian.{fromle32, tole32, bytes_of}
use littlefs_v.Utility.Pair.{Pair, block_null, pair_swap}
use littlefs_v.Utility.Sequence.{is_later}
use littlefs_v.Utility.Tag.{mktag, tag_id, tag_size, tag_isvalid}
use littlefs_v.Gstate.{Gstate, gstate_hasmovehere}
use littlefs_v.Device.{Geometry, Driver}
use littlefs_v.Device.Write.{Cmp, bd_cmp}
use littlefs_v.Device.Cached.{Cached, ◌>>=◌, pure, attempt}
use littlefs_v.Index.{le64}
use littlefs_v.Metadata.{MetadataDir}
use littlefs_v.Metadata.Get.{read}
use littlefs_v.Metadata.Fetch.{Fetching, Pass, Fetched, no_tag, scan_loop}

-- The pass over a block starts with the revision count in the checksum.
unfoldable pub first_pass : MetadataDir → Pass
first_pass dir = record {
  offset = 0;
  ptag = 0xffffffff;
  crc = lfs_crc 0xffffffff (bytes_of 4 (tole32 dir.revision_count));
  tempcount = 0;
  temptail = record { first = block_null; second = block_null };
  tempsplit = false;
  tempbesttag = no_tag;
}

-- synthetic move
unfoldable pub move_best : Gstate → MetadataDir → ℕ → ℕ
move_best gdisk dir best =
    if gstate_hasmovehere gdisk dir.pair
    then if tag_id gdisk.tag == tag_id best
      then bit_or best 0x80000000
      else if not (best == no_tag) && ltb (tag_id gdisk.tag) (tag_id best)
      then sub32 best (mktag 0 1 0)
      else best
    else best

-- found tag? or found best id?
unfoldable pub conclude : Gstate → Fetching → Fetched
unfolding move_best
conclude gdisk f =
    let best = move_best gdisk f.dir f.besttag in
    record {
      dir = f.dir;
      seed = f.seed;
      id = some (lfs_min (tag_id best) f.dir.count);
      result =
          if tag_isvalid best
          then ok best
          else if ltb (tag_id best) f.dir.count
          then err Error.noent
          else ok 0;
    }

-- The block with the later revision count comes first.
unfoldable pub choose : MetadataDir → Pair → Bool → ℕ → ℕ → MetadataDir
choose dir pair second rev0 rev1 = record dir {
  pair = if second then pair_swap pair else pair;
  revision_count = if second then rev1 else rev0;
  offset = 0;
}

-- The directory for the other block.
unfoldable pub other_block : ℕ → MetadataDir → MetadataDir
other_block rev dir = record dir { pair = pair_swap dir.pair; revision_count = rev }

-- A name against a tag's size, where the bytes they share are the same.
abbrev pub by_length : ℕ → ℕ → Cmp
by_length name_size size =
    if name_size == size then Cmp.eq else if ltb name_size size then Cmp.lt else Cmp.gt

abbrev pub compared : ℕ → ℕ → Cmp → Cmp
compared name_size size Cmp.eq = by_length name_size size
compared name_size size Cmp.lt = Cmp.lt
compared name_size size Cmp.gt = Cmp.gt

abbrev pub or_zero : Option ℕ → ℕ
or_zero none = 0
or_zero (some n) = n

-- The first count is only ever compared with 0, and leaves `r` at 0 either way.
abbrev pub second_is_later : ℕ → Option ℕ → Bool
second_is_later rev0 none = false
second_is_later rev0 (some rev1) = is_later rev1 rev0

module _ {D : Type 0} (g : Geometry) (drv : Driver D) (d : D) where
  -- A revision count; nothing where it cannot be read, and then the 0 that it was set to stands.
  unfoldable pub read_revision : ℕ → Cached (Option ℕ)
  read_revision block = attempt (do bytes ← read g drv d 4 block 0 4; pure (fromle32 (le64 bytes)))

  module _ (fmask ftag : ℕ) (cb : ℕ → ℕ → ℕ → Cached Cmp) where
    -- The pass over the block that comes first in the pair.
    unfoldable pub fetch_pass : Fetching → Cached Fetching
    unfolding first_pass
    fetch_pass f =
        scan_loop g drv d fmask ftag cb (suc g.block_size) f
          (record (first_pass f.dir) { tempbesttag = f.besttag })

    -- failed, try the other block?
    unfoldable pub fetch_other : Gstate → ℕ → Fetching → Cached Fetched
    unfolding other_block conclude
    fetch_other gdisk rev f = do
      f' ← fetch_pass (record f { dir = other_block rev f.dir })
      pure (
          if ltb 0 f'.dir.offset then conclude gdisk f' else record {
            dir = other_block rev f'.dir;
            seed = f'.seed;
            id = none;
            result = err Error.corrupt;
          })

    unfoldable pub fetch_pair : Gstate → ℕ → Fetching → Cached Fetched
    unfolding conclude
    fetch_pair gdisk rev f = do
      f' ← fetch_pass f
      if ltb 0 f'.dir.offset then pure (conclude gdisk f') else fetch_other gdisk rev f'

    -- lfs_dir_fetchmatch
    unfoldable pub dir_fetchmatch : Gstate → ℕ → MetadataDir → Pair → Cached Fetched
    unfolding choose
    dir_fetchmatch gdisk seed dir pair =
        if leb g.block_count pair.first || leb g.block_count pair.second
        then pure (record { dir = dir; seed = seed; id = none; result = err Error.corrupt })
        else (do
          got0 ← read_revision pair.first
          got1 ← read_revision pair.second
          let rev0 = or_zero got0
          let rev1 = or_zero got1
          let second = second_is_later rev0 got1
          fetch_pair gdisk (if second then rev0 else rev1)
              (record { dir = choose dir pair second rev0 rev1; besttag = no_tag; seed = seed }))

  -- lfs_dir_fetch: a null callback, with a mask and a tag that no tag fits.
  unfoldable pub dir_fetch : Gstate → ℕ → MetadataDir → Pair → Cached Fetched
  dir_fetch gdisk seed dir pair =
      dir_fetchmatch no_tag no_tag (λ tag block offset rc. (rc, fault)) gdisk seed dir pair

  -- lfs_dir_find_match
  unfoldable pub dir_find_match : List ℕ → ℕ → ℕ → ℕ → Cached Cmp
  dir_find_match name tag block offset = do
    let diff = lfs_min (length name) (tag_size tag)
    c ← λ rc. bd_cmp g drv d none diff block rc offset (take diff name)
    pure (compared (length name) (tag_size tag) c)
