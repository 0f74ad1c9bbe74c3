-- ===== src/Commit.antt =====
-- src/littlefs_v2/lfs_commit.cpp: what is appended to a block of a metadata pair, a tag with its data
-- at a time, and the checksums at the end.
pub mod Footer
pub mod Stored
pub mod Padding
pub mod Attribute
use littlefs_v.Base.{
  ℕ, zero, suc, ◌+◌, ◌-◌, ◌%◌, ◌^◌, List, [], ◌∷◌, ◌++◌, Bool, true, false, not, ◌&&◌, ltb, ◌==◌,
  if◌then◌else◌, add64, sub64, add32, bit_and, bit_or, bit_xor, ◌<<◌, length, take, none, ◌||◌,
}
use littlefs_v.Errors.{Error, Outcome, fault}
use littlefs_v.Utility.Endian.{bytes_of, tobe32}
use littlefs_v.Utility.Crc.{lfs_crc}
use littlefs_v.Utility.Tag.{tag_dsize}
use littlefs_v.Device.{Geometry, Driver, Cache}
use littlefs_v.Device.Read.{bd_read}
use littlefs_v.Device.Write.{Caches, bd_write}
use littlefs_v.Device.Cached.{Stateful, ◌>>=◌, pure, raise, lift}

-- `lfs_commit_t`; `end` is `limit`.
pub record Commit : Type 0 where
  pub block : ℕ
  pub offset : ℕ
  pub ptag : ℕ
  pub crc : ℕ
  pub begin : ℕ
  pub limit : ℕ

pub record Writing (D : Type 0) : Type 0 where
  pub commit : Commit
  pub caches : Caches D

-- What stands where an attribute's `buffer` points to: its data, or an `lfs_disk_offset_t`.
pub data Buffer : Type 0 where
  memory : List ℕ → Buffer
  disk : ℕ → ℕ → Buffer

module _ {D A : Type 0} where
  abbrev pub put_back : Commit → Caches D × Outcome A → Writing D × Outcome A
  put_back c (s, o) = (record { commit = c; caches = s }, o)

  -- A call of src/littlefs_v2/lfs_device.cpp.
  abbrev pub on_caches : Stateful (Caches D) A → Stateful (Writing D) A
  on_caches m w = put_back w.commit (m w.caches)

  abbrev pub with_read_cache : Caches D → Cache × Outcome A → Caches D × Outcome A
  with_read_cache s (rc, o) = (record s { read_cache = rc }, o)

module _ {D : Type 0} where
  abbrev pub the_commit : Stateful (Writing D) Commit
  the_commit w = (w, Outcome.ok w.commit)

  abbrev pub set_commit : Commit → Stateful (Writing D) (Unit {0})
  set_commit c w = (record w { commit = c }, Outcome.ok tt)

-- The tag as it is stored, from the tag before it.
unfoldable pub stored_word : ℕ → ℕ → List ℕ
stored_word ptag tag = bytes_of 4 (tobe32 (bit_xor (bit_and tag 0x7fffffff) ptag))

-- A commit with so many bytes more.
unfoldable pub grown_by : List ℕ → Commit → Commit
grown_by bytes c = record c { crc = lfs_crc c.crc bytes; offset = add64 c.offset (length bytes) }

module _ {D : Type 0} (g : Geometry) (drv : Driver D) where
  -- `lfs_bd_read` past the write cache, through the read cache.
  unfoldable pub read_block : ℕ → ℕ → ℕ → ℕ → Stateful (Caches D) (List ℕ)
  read_block hint block offset size s =
      with_read_cache s (bd_read g drv s.device none hint block s.read_cache offset size)

  -- lfs_dir_commit_write
  unfoldable pub commit_write : List ℕ → Stateful (Writing D) (Unit {0})
  unfolding grown_by
  commit_write bytes = do
    c ← the_commit
    u ← on_caches (λ s. bd_write g drv false c.block s c.offset bytes)
    set_commit (grown_by bytes c)

  -- rely on caching to make this efficient
  unfoldable pub copy_loop : ℕ → ℕ → ℕ → Stateful (Writing D) (Unit {0})
  copy_loop block zero offset = pure tt
  copy_loop block (suc left) offset = do
    dat ← on_caches (read_block (suc left) block offset 1)
    u ← commit_write dat
    copy_loop block left (add64 offset 1)

  -- The data behind the tag, from memory or from the device. A read past the buffer, or a pointer
  -- taken for another kind, is a fault.
  unfoldable pub commit_data : Bool → ℕ → Buffer → Stateful (Writing D) (Unit {0})
  commit_data from_disk size (memory bytes) =
      if from_disk || ltb (length bytes) size then lift fault else commit_write (take size bytes)
  commit_data from_disk size (disk block offset) =
      if from_disk then copy_loop block size offset else lift fault

  -- lfs_dir_commit_attribute
  unfoldable pub commit_attribute : ℕ → Buffer → Stateful (Writing D) (Unit {0})
  unfolding stored_word
  commit_attribute tag buffer = do
    c ← the_commit
    (if ltb c.limit (add64 c.offset (tag_dsize tag)) then raise Error.nospc else (do
      u ← commit_write (stored_word c.ptag tag)
      u' ← commit_data (not (bit_and tag 0x80000000 == 0)) (tag_dsize tag - 4) buffer
      c' ← the_commit
      set_commit (record c' { ptag = bit_and tag 0x7fffffff })))
