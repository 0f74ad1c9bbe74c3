-- ===== src/Metadata/Info.antt =====
-- `lfs_dir_getgstate` and `lfs_dir_getinfo`: what a pair adds to the global state, and what is known of
-- a file. Where they fail, what they have written so far is not handed on.
pub mod Delta
pub mod File
use littlefs_v.Base.{
  ℕ, zero, suc, ◌+◌, ◌%◌, ◌^◌, List, [], ◌∷◌, ◌++◌, Bool, length, take, drop, ◌==◌, if◌then◌else◌,
  Option, some, none,
}
use littlefs_v.Errors.{Error, Outcome, ok, err, abort, out_of_fuel, fault}
use littlefs_v.Utility.Endian.{fromle32, fromle64}
use littlefs_v.Utility.Tag.{mktag, tag_size, tag_type3}
use littlefs_v.Gstate.{Gstate, gstate_xor, type_movestate}
use littlefs_v.Device.{Geometry, Driver, Cache}
use littlefs_v.Device.Cached.{Cached, ◌>>=◌, pure}
use littlefs_v.Index.{le64}
use littlefs_v.Metadata.{
  MetadataDir, type_dir, type_name, type_struct, type_inlinestruct, type_ctzstruct, type_globals,
}
use littlefs_v.Metadata.Get.{dir_get}

-- LFS_ERR_NOENT as a value, where the code goes on after it.
unfoldable pub found_or_none : {A : Type 0} → Cache × Outcome A → Cache × Outcome (Option A)
found_or_none (rc, ok a) = (rc, ok (some a))
found_or_none (rc, err Error.noent) = (rc, ok none)
found_or_none (rc, err e) = (rc, err e)
found_or_none (rc, abort) = (rc, abort)
found_or_none (rc, out_of_fuel) = (rc, out_of_fuel)
found_or_none (rc, fault) = (rc, fault)

unfoldable pub find : {A : Type 0} → Cached A → Cached (Option A)
find m rc = found_or_none (m rc)

-- An `lfs_gstate_t` as it stands in memory: its two block numbers are aligned to eight bytes.
unfoldable pub gstate_of : List ℕ → Gstate
gstate_of bytes = record {
  tag = fromle32 (le64 (take 4 bytes));
  pair = record {
    first = fromle64 (le64 (take 8 (drop 8 bytes)));
    second = fromle64 (le64 (take 8 (drop 16 bytes)));
  };
}

-- xor together to find resulting gstate
unfoldable pub add_delta : Gstate → Option (ℕ × List ℕ) → Gstate
add_delta gstate none = gstate
add_delta gstate (some (tag, bytes)) = gstate_xor gstate (gstate_of bytes)

-- `lfs_info`, with the whole array of the name.
pub record Info : Type 0 where
  pub type : ℕ
  pub size : ℕ
  pub name : List ℕ

-- `strcpy_s(info->name, sizeof(info->name), "/")`
unfoldable pub root_info : Info → Info
root_info info = record info { type = type_dir; name = 47 ∷ 0 ∷ drop 2 info.name }

unfoldable pub name_info : ℕ × List ℕ → Info → Info
name_info (tag, bytes) info = record info {
  type = tag_type3 tag % 2 ^ 8;
  name = bytes ++ drop (length bytes) info.name;
}

-- The size, from an `lfs_ctz_t` or from the tag of inline data.
unfoldable pub struct_info : ℕ × List ℕ → Info → Info
struct_info (tag, bytes) info =
    if tag_type3 tag == type_ctzstruct
    then record info { size = fromle64 (le64 (take 8 (drop 8 bytes))) }
    else if tag_type3 tag == type_inlinestruct
    then record info { size = tag_size tag }
    else info

module _ {D : Type 0} (g : Geometry) (drv : Driver D) (d : D) where
  -- lfs_dir_getgstate
  unfoldable pub dir_getgstate : Gstate → MetadataDir → Gstate → Cached Gstate
  dir_getgstate gdisk dir gstate = do
    temp ← find (dir_get g drv d gdisk dir (mktag type_movestate 0 0) (mktag type_movestate 0 24))
    pure (add_delta gstate temp)

  -- lfs_dir_getinfo
  unfoldable pub dir_getinfo : Gstate → ℕ → MetadataDir → ℕ → Info → Cached Info
  dir_getinfo gdisk name_max_length dir id info = if id == 0x3ff then pure (root_info info) else (do
    name ←
        dir_get g drv d gdisk dir (mktag 0x780 0x3ff 0) (mktag type_name id (name_max_length + 1))
    ctz ← dir_get g drv d gdisk dir (mktag type_globals 0x3ff 0) (mktag type_struct id 16)
    pure (struct_info ctz (name_info name info)))
