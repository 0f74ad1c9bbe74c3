-- ===== src/Commit/Attribute.antt =====
-- `lfs_dir_commit_attribute` with data from memory: what it leaves of a commit.
use littlefs_v.Base.{ℕ, ◌+◌, ◌-◌, List, ◌++◌, false, ◌≡◌, take}
use littlefs_v.Errors.{Outcome, ok, err, abort, out_of_fuel, fault}
use littlefs_v.Utility.Crc.{lfs_crc}
use littlefs_v.Utility.Tag.{tag_dsize}
use littlefs_v.Device.{Geometry, Driver}
use littlefs_v.Device.Write.{Caches, bd_write}
use littlefs_v.Commit.{Commit, Writing, stored_word}

module _ {D : Type 0} (g : Geometry) (drv : Driver D) where
  -- What some write of a few bytes of the commit has come to.
  abbrev pub Passed : Outcome (Unit {0}) → Type 0
  Passed o =
      (s : Caches D) × (block : ℕ) × (offset : ℕ) × (bytes : List ℕ) × ((bd_write g drv false block
          s offset bytes).1
        ≡ o)

  -- What a call leaves: a commit with `P`; or what a write has come to that has failed.
  abbrev pub Left : (Commit → Type 0) → Writing D × Outcome (Unit {0}) → Type 0
  Left P (w, ok u) = P w.commit
  Left P (w, err e) = Passed (err e)
  Left P (w, abort) = Passed abort
  Left P (w, out_of_fuel) = Passed out_of_fuel
  Left P (w, fault) = Passed fault

  -- What is stored for a tag with its data.
  abbrev pub stored : ℕ → ℕ → List ℕ → List ℕ
  stored ptag tag bytes = stored_word ptag tag ++ take (tag_dsize tag - 4) bytes

  -- The commit behind it.
  pub record IsAppended (c : Commit) (tag : ℕ) (bytes : List ℕ) (c' : Commit) : Type 0 where
    pub block : c'.block ≡ c.block
    pub offset : c'.offset ≡ c.offset + tag_dsize tag
    pub crc : c'.crc ≡ lfs_crc c.crc (stored c.ptag tag bytes)
    pub ptag : c'.ptag ≡ tag
