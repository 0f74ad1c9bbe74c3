-- ===== src/Tests/Commit.antt =====
-- Commits to an erased block.
use littlefs_v.Base.{
  ◌+◌, ◌^◌, ◌≤◌, ◌%◌, ◌-◌, [], ◌∷◌, ◌++◌, replicate, ◌≡◌, ◌⊎◌, refl, arith, bit_xor, bit_and, true,
  false, add64,
}
use littlefs_v.Errors.{Outcome, ok}
use littlefs_v.Utility.Endian.{frombe32, tobe32, tole32, bytes_of, bswap32}
use littlefs_v.Utility.Crc.{lfs_crc, crc_byte, crc_nibble}
use littlefs_v.Utility.Tag.{
  mktag, tag_dsize, tag_size, tag_isvalid, tag_isdelete, tag_type1, tag_chunk, shift_right_signed,
}
use littlefs_v.Device.{Cache, Geometry, rawread, rawread_loop, rawprog, rawprog_loop}
use littlefs_v.Device.Read.{
  lookup, lookup_write, cached, cached_write, place, fill_with, bypass_with, missed, round,
  read_loop, bd_read,
}
use littlefs_v.Device.Cached.{◌>>=◌, follow, caught, attempt, or_else}
use littlefs_v.Device.Write.{
  cache_zero, cache_drop, put, bd_flush, bd_sync, fits_cache, filled_with, prepared, write_loop,
  bd_write,
}
use littlefs_v.Utility.Align.{lfs_min, lfs_max, lfs_aligndown, lfs_alignup}
use littlefs_v.Index.{le64}
use littlefs_v.Metadata.{type_crc}
use littlefs_v.Metadata.Get.{earlier_tag}
use littlefs_v.Commit.{
  Commit, Writing, memory, stored_word, commit_attribute, commit_write, commit_data, grown_by,
  read_block,
}
use littlefs_v.Commit.Stored.{stored_word_read}
use littlefs_v.Commit.Footer.{
  padding_end, crc_tag, footer, after_footer, commit_crc, footer_loop, write_footer, check_loop,
  check_bytes, reset_of, footer_crc, first_or,
}
use littlefs_v.Commit.Padding.{after_footer_lem, lfs_crc-footer}
use littlefs_v.Tests.DeviceWrites.{Shelf, shelf, sizes}

abbrev roomy : Commit
roomy = record { block = 1; offset = 8; ptag = 0x7fffffff; crc = 0xffffffff; begin = 8; limit = 64 }

abbrev blank_cache : Cache
blank_cache = record { block = 2 ^ 64 - 1; offset = 0; size = 0; buffer = replicate 8 0 }

abbrev writing : Writing Shelf
writing = record {
  commit = roomy;
  caches = record { device = λ b o. 255; write_cache = blank_cache; read_cache = blank_cache };
}

stored_word_read_example :
    (bit_xor (frombe32 (le64 (stored_word 0xffffffff 0x00100002))) 0xffffffff ≡ 0x00100002)
    × (earlier_tag (stored_word 0xffffffff 0x00100002) 0x00100002 ≡ 0xffffffff % 2 ^ 31)
stored_word_read_example = stored_word_read 0xffffffff 0x00100002 (omega arith) (omega arith)

after_footer_lem_example :
    let noff = padding_end 64 (add64 8 4) in
    let tag = crc_tag 1 (add64 8 4) noff in
    let c' = after_footer tag 1 roomy in
    (c'.offset ≡ noff)
    × ((noff ≡ 64) ⊎ (noff + 16 ≤ 64))
    × (8 + 8 ≤ noff)
    × (tag_isvalid tag ≡ true)
    × (tag_type1 tag ≡ type_crc)
    × (tag_isdelete tag ≡ false)
    × (bit_and (tag_chunk tag) 1 ≡ 1)
after_footer_lem_example = after_footer_lem 64 1 roomy (omega arith) (omega arith) (omega arith)

abbrev summed : Commit
summed = record roomy { crc = lfs_crc 0xffffffff (1 ∷ 0 ∷ 0 ∷ 0 ∷ []) }

lfs_crc-footer_example : lfs_crc 0xffffffff ((1 ∷ 0 ∷ 0 ∷ 0 ∷ []) ++ footer 0x5003fc10 summed) ≡ 0
lfs_crc-footer_example = lfs_crc-footer (1 ∷ 0 ∷ 0 ∷ 0 ∷ []) 0x5003fc10 summed refl

abbrev wide : Geometry
wide = record sizes { erase_size = 64; block_size = 64 }

abbrev fresh : Writing Shelf
fresh = record writing { commit = record roomy { offset = 0; begin = 0; ptag = 0xffffffff } }

-- A header and a name, with their checksum, that are read back as they were written.
abbrev committed : Writing Shelf × Outcome (Unit {0})
committed =
    (commit_write wide shelf (1 ∷ 0 ∷ 0 ∷ 0 ∷ []) >>= λ u.
    commit_attribute wide shelf 0x00100002 (memory (97 ∷ 98 ∷ [])) >>= λ u. commit_crc wide shelf)
      fresh

committed_computed :
    (committed.1 ≡ ok tt)
    × (committed.0.commit.offset ≡ 28)
    × (committed.0.commit.ptag ≡ 0x500ffc0e)
unfolding commit_write grown_by commit_attribute commit_data stored_word commit_crc footer_loop
    write_footer check_loop check_bytes read_block padding_end reset_of crc_tag footer_crc footer
    first_or after_footer follow caught attempt or_else bd_read read_loop round missed bypass_with
    fill_with place cached_write cached lookup_write lookup bd_write bd_sync bd_flush write_loop
    fits_cache filled_with prepared put cache_zero cache_drop rawread rawread_loop rawprog
    rawprog_loop lfs_crc crc_byte crc_nibble bytes_of tobe32 tole32 frombe32 bswap32 le64 lfs_min
    lfs_max lfs_aligndown lfs_alignup mktag tag_dsize tag_size tag_isdelete shift_right_signed
committed_computed = (refl, refl, refl)
