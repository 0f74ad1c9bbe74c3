-- ===== src/Commit/Footer.antt =====
-- `lfs_dir_commit_crc`: checksums with padding up to the next program unit, which are then read back.
use littlefs_v.Base.{
  ℕ, zero, suc, ◌+◌, ◌-◌, List, ◌++◌, false, not, ◌&&◌, ltb, ◌==◌, if◌then◌else◌, add64, sub64,
  bit_xor, ◌<<◌, ◌>>◌,
}
use littlefs_v.Errors.{Error}
use littlefs_v.Utility.Align.{lfs_min, lfs_alignup}
use littlefs_v.Utility.Endian.{bytes_of, tobe32, tole32, frombe32}
use littlefs_v.Utility.Crc.{lfs_crc}
use littlefs_v.Utility.Tag.{mktag, tag_size}
use littlefs_v.Gstate.{complement32}
use littlefs_v.Device.{Geometry, Driver}
use littlefs_v.Device.Write.{bd_write, bd_sync}
use littlefs_v.Device.Cached.{Stateful, ◌>>=◌, pure, raise, exhausted, attempt, or_else}
use littlefs_v.Index.{le64}
use littlefs_v.Metadata.{type_crc}
use littlefs_v.Commit.{Commit, Writing, on_caches, the_commit, set_commit, read_block}

-- Where the checksum's padding ends that starts at `offset`: at the end, or so that there is room for
-- another.
unfoldable pub padding_end : ℕ → ℕ → ℕ
padding_end limit offset =
    let noff = add64 (lfs_min (sub64 limit offset) 0x3fe) offset in
    if ltb noff limit then lfs_min noff (sub64 limit 16) else noff

-- Place and value of the first checksum; the place is 0 before there is one.
pub record First : Type 0 where
  pub at : ℕ
  pub crc : ℕ

-- `bool reset`, of the word in the next program unit.
unfoldable pub reset_of : ℕ → ℕ
reset_of word = complement32 (frombe32 word) >> 31

-- build crc tag
unfoldable pub crc_tag : ℕ → ℕ → ℕ → ℕ
crc_tag reset offset noff = mktag (type_crc + reset) 0x3ff (sub64 noff offset)

-- The checksum after the footer's tag.
unfoldable pub footer_crc : ℕ → Commit → ℕ
footer_crc tag c = lfs_crc c.crc (bytes_of 4 (tobe32 (bit_xor tag c.ptag)))

unfoldable pub footer : ℕ → Commit → List ℕ
unfolding footer_crc
footer tag c = bytes_of 4 (tobe32 (bit_xor tag c.ptag)) ++ bytes_of 4 (tole32 (footer_crc tag c))

-- keep track of non-padding checksum to verify
unfoldable pub first_or : First → Commit → ℕ → First
first_or first c crc = if first.at == 0 then record { at = add64 c.offset 4; crc = crc } else first

unfoldable pub after_footer : ℕ → ℕ → Commit → Commit
after_footer tag reset c = record c {
  offset = add64 c.offset (add64 4 (tag_size tag));
  ptag = bit_xor tag (reset << 31);
  crc = 0xffffffff;
}

module _ {D : Type 0} (g : Geometry) (drv : Driver D) where
  -- A round of the first loop.
  unfoldable pub write_footer : ℕ → First → Stateful (Writing D) First
  unfolding padding_end reset_of crc_tag footer_crc footer first_or after_footer
  write_footer limit first = do
    c ← the_commit
    let offset = add64 c.offset 4
    let noff = padding_end limit offset
    got ← attempt (on_caches (read_block g drv 4 c.block noff 4))
    let reset = reset_of (or_else got 0xffffffff le64)
    let tag = crc_tag reset offset noff
    u ← on_caches (λ s. bd_write g drv false c.block s c.offset (footer tag c))
    u' ← set_commit (after_footer tag reset c)
    pure (first_or first c (footer_crc tag c))

  -- create crc tags to fill up remainder of commit. A footer takes eight bytes at least.
  unfoldable pub footer_loop : ℕ → ℕ → First → Stateful (Writing D) First
  footer_loop zero limit first = exhausted
  footer_loop (suc left) limit first = do
    c ← the_commit
    (if ltb c.offset limit
        then (do first' ← write_footer limit first; footer_loop left limit first')
        else pure first)

  -- The checksum of so many bytes from `i` on, checked against the written one on the way.
  unfoldable pub check_bytes : First → ℕ → ℕ → ℕ → Stateful (Writing D) ℕ
  check_bytes first zero i crc = pure crc
  check_bytes first (suc left) i crc = do
    c ← the_commit
    (if i == first.at && not (crc == first.crc) then raise Error.corrupt else (do
      dat ← on_caches (read_block g drv (suc left) c.block i 1)
      check_bytes first left (add64 i 1) (lfs_crc crc dat)))

  -- successful commit, check checksums to make sure
  unfoldable pub check_loop : ℕ → ℕ → First → ℕ → ℕ → Stateful (Writing D) (Unit {0})
  unfolding padding_end
  check_loop zero limit first offset noff = exhausted
  check_loop (suc left) limit first offset noff =
      if ltb offset limit
      then (do
        crc ← check_bytes first (add64 noff 4 - offset) offset 0xffffffff
        let offset' = padding_end limit noff
        (if crc == 0
            then check_loop left limit first offset' (add64 offset' 4)
            else raise Error.corrupt))
      else pure tt

  -- lfs_dir_commit_crc
  unfoldable pub commit_crc : Stateful (Writing D) (Unit {0})
  commit_crc = do
    c ← the_commit
    let limit = lfs_alignup (add64 c.offset 16) g.write_size
    first ← footer_loop (suc (limit - c.offset)) limit (record { at = 0; crc = 0 })
    u ← on_caches (bd_sync g drv false)
    check_loop (suc (limit - c.begin)) limit first c.begin first.at
