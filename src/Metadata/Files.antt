-- ===== src/Metadata/Files.antt =====
-- What a metadata log means: a row of files, each with at most one entry of the kind that is asked
-- for. A create puts a file in, a delete takes one out, and any other tag sets a file's entry.
use littlefs_v.Base.{
  ℕ, ◌+◌, ◌-◌, ◌/◌, ◌^◌, ◌<◌, List, [], ◌∷◌, Bool, ltb, ◌==◌, if◌then◌else◌, bit_and, Option, none,
  some, ◌≡◌, ◌≢◌, ◌⊎◌,
}
use littlefs_v.Utility.Tag.{tag_type1, tag_type3, tag_id, tag_size}
use littlefs_v.Gstate.{Gstate, gstate_hasmovehere, type_delete}
use littlefs_v.Metadata.{MetadataDir, type_splice, type_create}
use littlefs_v.Metadata.Get.Search.{Entry}

-- The files after a tag, where a file is what its number finds.
unfoldable pub after_create : ℕ → (ℕ → Option Entry) → ℕ → Option Entry
after_create j before i = if ltb i j then before i else if i == j then none else before (i - 1)

unfoldable pub after_delete : ℕ → (ℕ → Option Entry) → ℕ → Option Entry
after_delete j before i = if ltb i j then before i else before (i + 1)

unfoldable pub after_set : ℕ → Option Entry → (ℕ → Option Entry) → ℕ → Option Entry
after_set j new before i = if i == j then new else before i

-- Whether a tag's type is the one that is asked for, by its bits under the mask.
abbrev pub of_kind : ℕ → ℕ → ℕ → Bool
of_kind mask type tag = bit_and mask (tag_type3 tag) == bit_and mask type

unfoldable pub after_entry : ℕ → ℕ → Entry → (ℕ → Option Entry) → ℕ → Option Entry
after_entry mask type e before =
    if tag_type3 e.tag == type_create
    then after_create (tag_id e.tag) before
    else if tag_type3 e.tag == type_delete
    then after_delete (tag_id e.tag) before
    else if of_kind mask type e.tag
    then after_set (tag_id e.tag) (some e) before
    else before

-- The files of a log whose last entry stands at the head of the list.
unfoldable pub files : ℕ → ℕ → List Entry → ℕ → Option Entry
files mask type [] i = none
files mask type (e ∷ older) i = after_entry mask type e (files mask type older) i

-- A tag of 32 bits, of which only one of type LFS_TYPE_CRC may have the highest set; the splices are
-- creates without data and deletes.
pub record IsLogged (e : Entry) : Type 0 where
  pub fits : e.tag < 2 ^ 32
  pub valid : (e.tag < 2 ^ 31) ⊎ (tag_type3 e.tag / 256 ≡ 13)
  pub splices :
      tag_type1 e.tag ≡ type_splice
      → ((tag_type3 e.tag ≡ type_create) × (tag_size e.tag ≡ 0)) ⊎ (tag_type3 e.tag ≡ type_delete)

abbrev pub AllLogged : List Entry → Type 0
AllLogged [] = Unit
AllLogged (e ∷ older) = IsLogged e × AllLogged older

-- A kind of entry that is neither a splice nor a checksum, with a mask that holds the three bits of `type1`.
pub record IsKind (mask type : ℕ) : Type 0 where
  pub mask_top : mask / 256 ≡ 7
  pub type_top : type < 2 ^ 11
  pub no_splice : type / 256 ≢ 4
  pub no_crc : type / 256 ≢ 5

-- How many files the log takes out.
abbrev pub deletes : List Entry → ℕ
deletes [] = 0
deletes (e ∷ older) = (if tag_type3 e.tag == type_delete then 1 else 0) + deletes older

-- The files without the one whose move is pending.
unfoldable pub without_move : Gstate → MetadataDir → (ℕ → Option Entry) → ℕ → Option Entry
without_move gdisk dir fs i =
    if gstate_hasmovehere gdisk dir.pair then after_delete (tag_id gdisk.tag) fs i else fs i
