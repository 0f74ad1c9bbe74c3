-- ===== src/Metadata.antt =====
-- The metadata log of src/littlefs_v2/lfs_metadata.cpp: tags with their data, one behind the other in
-- the newer of a pair's two blocks. Here: the types of include/lfs.h that the parts share.
pub mod Get
pub mod Files
pub mod Filter
pub mod Fetch
pub mod Names
pub mod Info
use littlefs_v.Base.{ℕ, Bool}
use littlefs_v.Utility.Pair.{Pair}

-- `lfs_metadata_dir_t`
pub record MetadataDir : Type 0 where
  pub pair : Pair
  pub revision_count : ℕ
  pub offset : ℕ
  pub etag : ℕ
  pub count : ℕ
  pub erased : Bool
  pub split : Bool
  pub tail : Pair

-- `enum lfs_type`: what the tags of the log are.
abbrev pub type_dir : ℕ
type_dir = 0x002

abbrev pub type_name : ℕ
type_name = 0x000

abbrev pub type_from : ℕ
type_from = 0x100

abbrev pub type_struct : ℕ
type_struct = 0x200

abbrev pub type_inlinestruct : ℕ
type_inlinestruct = 0x201

abbrev pub type_ctzstruct : ℕ
type_ctzstruct = 0x202

abbrev pub type_splice : ℕ
type_splice = 0x400

abbrev pub type_create : ℕ
type_create = 0x401

abbrev pub type_crc : ℕ
type_crc = 0x500

abbrev pub type_tail : ℕ
type_tail = 0x600

abbrev pub type_globals : ℕ
type_globals = 0x700
