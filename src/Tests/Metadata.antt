-- ===== src/Tests/Metadata.antt =====
-- A metadata log of src/littlefs_v2/lfs_metadata.cpp: one file with the name "ab" in block 0, from
-- a create and a name.
use littlefs_v.Base.{
  inr, ◌≢◌, replicate, ℕ, ◌+◌, ◌-◌, ◌^◌, ◌<◌, List, [], ◌∷◌, true, false, ◌==◌, if◌then◌else◌,
  get_or, Option, none, some, ◌≡◌, refl, arith, ◌⊎◌, inl, tabulate,
}
use littlefs_v.Errors.{Error}
use littlefs_v.Utility.Endian.{bswap32, frombe32}
use littlefs_v.Utility.Mlist.{IsApart, mlist_isopen, mlist_append, mlist_remove, mlist_lem}
use littlefs_v.Utility.Tag.{
  mktag, tag_id, tag_size, tag_type1, tag_type3, tag_isdelete, tag_dsize, tag_splice, tag_chunk,
  shift_right_signed,
}
use littlefs_v.Gstate.{type_delete, zero_gstate}
use littlefs_v.Device.View.{Fails}
use littlefs_v.Device.Write.{Cmp}
use littlefs_v.Device.Cached.{pure}
use littlefs_v.Device.Cached.Ends.{Ends}
use littlefs_v.Index.{le64}
use littlefs_v.Metadata.{MetadataDir}
use littlefs_v.Metadata.Files.{IsLogged, AllLogged, deletes, files, without_move, after_entry}
use littlefs_v.Metadata.Filter.{traverse_filter, kind_mask, is_redundant, filter_mask}
use littlefs_v.Metadata.Filter.Kept.{filter-keeps}
use littlefs_v.Metadata.Filter.Dropped.{filter-drops, renumbered, filter_misplaces}
use littlefs_v.Metadata.Fetch.Match.{dir_fetchmatch, dir_fetch, dir_find_match}
use littlefs_v.Metadata.Fetch.Done.{IsFetched, dir_fetchmatch-IsFetched, dir_fetch-IsFetched}
use littlefs_v.Metadata.Get.{dir_get, dir_getslice, earlier_tag, synthetic_move}
use littlefs_v.Metadata.Get.Search.{Entry, entries, search_log}
use littlefs_v.Metadata.Get.Got.{IsGot, dir_getslice-IsGot}
use littlefs_v.Metadata.Get.Replay.{answer, dir_get-file}
use littlefs_v.Metadata.Info.{Info, dir_getinfo, dir_getgstate, add_delta}
use littlefs_v.Metadata.Info.File.{names-IsKind, structs-IsKind, known, dir_getinfo-file}
use littlefs_v.Metadata.Info.Delta.{newest, delta, dir_getgstate-Ends}
use littlefs_v.Metadata.Names.{compare_names, dir_find_match-Ends}
use littlefs_v.Tests.DeviceWrites.{Shelf, shelf, sizes, sizes-IsGeometry, shelf-Reads}

abbrev log_bytes : List ℕ
log_bytes = 1 ∷ 0 ∷ 0 ∷ 0 ∷ 0xbf ∷ 0xef ∷ 0xff ∷ 0xff ∷ 0x40 ∷ 0 ∷ 0 ∷ 2 ∷ 97 ∷ 98 ∷ []

abbrev logs : Shelf
logs b o = if b == 0 then get_or log_bytes o 255 else 255

abbrev file_name : ℕ
file_name = 0x00100002

abbrev home : MetadataDir
home = record {
  pair = record { first = 0; second = 1 };
  revision_count = 1;
  offset = 14;
  etag = file_name;
  count = 1;
  erased = false;
  split = false;
  tail = record { first = 0; second = 0 };
}

abbrev named : Entry
named = record { tag = file_name; at = 8 }

abbrev created_file : Entry
created_file = record { tag = 0x40100000; at = 4 }

home_entries : entries (logs 0) 15 14 file_name ≡ named ∷ created_file ∷ []
unfolding entries earlier_tag frombe32 bswap32 le64 tag_dsize tag_size tag_isdelete
    shift_right_signed
home_entries = refl

home-AllLogged : AllLogged (entries (logs 0) 15 14 file_name)
unfolding tag_type1 tag_type3 tag_size
home-AllLogged = rw home_entries (
  record { fits = omega arith; valid = inl (omega arith); splices = λ h. absurd (omega arith) },
  (record { fits = omega arith; valid = inl (omega arith); splices = λ h. inl (refl, refl) }, tt),
)

home_deletes : 0 + deletes (entries (logs 0) 15 14 file_name) < 2 ^ 10 - 1
unfolding tag_type3
home_deletes = rw home_entries (omega arith)

dir_get-file_example :
    IsGot sizes shelf logs logs sizes-IsGeometry
      (shelf-Reads logs)
      (answer 0x780 0x000 names-IsKind 16
        (logs 0)
        0
        4
        (omega arith)
        (omega arith)
        (without_move zero_gstate home (files 0x780 0x000 (entries (logs 0) 15 14 file_name)) 0))
      (dir_get sizes shelf logs zero_gstate home (mktag 0x780 0x3ff 0) (mktag 0x000 0 4))
dir_get-file_example =
    dir_get-file sizes shelf logs logs sizes-IsGeometry (shelf-Reads logs) 0x780 0x000 names-IsKind
      zero_gstate home 0 4 (omega arith) (omega arith) (omega arith) (omega arith) home-AllLogged
      home_deletes

dir_getslice-IsGot_example :
    IsGot sizes shelf logs logs sizes-IsGeometry
      (shelf-Reads logs)
      (search_log 16
        (logs 0)
        (mktag 0x780 0x3ff 0)
        (mktag 0x000 0 4)
        1
        4
        (entries (logs 0) 15 14 file_name)
        (synthetic_move zero_gstate home (mktag 0x780 0x3ff 0) (mktag 0x000 0 4)))
      (dir_getslice sizes shelf logs zero_gstate home (mktag 0x780 0x3ff 0) (mktag 0x000 0 4) 1 4)
dir_getslice-IsGot_example =
    dir_getslice-IsGot sizes shelf logs logs sizes-IsGeometry (shelf-Reads logs) zero_gstate home
      (mktag 0x780 0x3ff 0) (mktag 0x000 0 4) 1 4 (omega arith) (omega arith) (omega arith)

abbrev no_info : Info
no_info = record { type = 0; size = 0; name = replicate 256 0 }

dir_getinfo-file_example :
    IsGot sizes shelf logs logs sizes-IsGeometry
      (shelf-Reads logs)
      (known
        (answer 0x780 0x000 names-IsKind 16
          (logs 0)
          0
          256
          (omega arith)
          (omega arith)
          (without_move zero_gstate home (files 0x780 0x000 (entries (logs 0) 15 14 file_name)) 0))
        (answer 0x700 0x200 structs-IsKind 16
          (logs 0)
          0
          16
          (omega arith)
          (omega arith)
          (without_move zero_gstate home (files 0x700 0x200 (entries (logs 0) 15 14 file_name)) 0))
        no_info)
      (dir_getinfo sizes shelf logs zero_gstate 255 home 0 no_info)
dir_getinfo-file_example =
    dir_getinfo-file sizes shelf logs logs sizes-IsGeometry (shelf-Reads logs) zero_gstate home 0
      255 no_info (omega arith) (omega arith) (omega arith) (omega arith) home-AllLogged
      home_deletes

shelf_present : (block : ℕ) → ¬ Fails shelf logs block Error.noent
shelf_present block (off, size, e) = cc (e)

dir_getgstate-Ends_example :
    Ends sizes shelf logs logs
      (λ s. s ≡ add_delta zero_gstate (delta (logs 0) (newest (entries (logs 0) 15 14 file_name))))
      (λ e. ⊥)
      (dir_getgstate sizes shelf logs zero_gstate home zero_gstate)
dir_getgstate-Ends_example =
    dir_getgstate-Ends sizes shelf logs logs sizes-IsGeometry (shelf-Reads logs) shelf_present
      zero_gstate zero_gstate home (omega arith) (omega arith) home-AllLogged

shelf_clean : (block : ℕ) → ¬ Fails shelf logs block Error.corrupt
shelf_clean block (off, size, e) = cc (e)

dir_fetchmatch-IsFetched_example :
    Ends sizes shelf logs logs
      (IsFetched sizes home.pair)
      (λ e. ⊥)
      (dir_fetchmatch sizes shelf logs
        (mktag 0x780 0 0)
        (mktag 0 0 2)
        (λ tag block offset. pure Cmp.eq)
        zero_gstate
        0
        home
        home.pair)
dir_fetchmatch-IsFetched_example =
    dir_fetchmatch-IsFetched sizes shelf logs logs sizes-IsGeometry (shelf-Reads logs) shelf_clean
      (mktag 0x780 0 0) (mktag 0 0 2) (λ tag block offset. pure Cmp.eq)
      (λ tag block offset fits valid inside room rc ready. (tt, ready)) (omega arith) zero_gstate 0
      home home.pair

dir_fetch-IsFetched_example :
    Ends sizes shelf logs logs
      (IsFetched sizes home.pair)
      (λ e. ⊥)
      (dir_fetch sizes shelf logs zero_gstate 0 home home.pair)
dir_fetch-IsFetched_example =
    dir_fetch-IsFetched sizes shelf logs logs sizes-IsGeometry (shelf-Reads logs) shelf_clean
      (omega arith) zero_gstate 0 home home.pair

dir_find_match-Ends_example :
    Ends sizes shelf logs logs
      (λ c. c ≡ compare_names (tabulate (logs 0) 12 (tag_size file_name)) (97 ∷ 99 ∷ []))
      (λ e. ⊥)
      (dir_find_match sizes shelf logs (97 ∷ 99 ∷ []) file_name 0 12)
unfolding tag_size
dir_find_match-Ends_example =
    dir_find_match-Ends sizes shelf logs logs sizes-IsGeometry (shelf-Reads logs) (97 ∷ 99 ∷ [])
      file_name 0 12 (omega arith) (omega arith)

abbrev short : List ℕ
short = 97 ∷ []

abbrev long : List ℕ
long = 97 ∷ 98 ∷ []

abbrev last : List ℕ
last = 98 ∷ []

-- A create before the file.
abbrev created_before : Entry
created_before = record { tag = 0x40100000; at = 0 }

-- Another name of the file.
abbrev renamed : Entry
renamed = record { tag = 0x00100003; at = 0 }

abbrev one_file : ℕ → Option Entry
one_file i = if i == 0 then some named else none

created_before-IsLogged : IsLogged created_before
unfolding tag_type1 tag_type3 tag_size
created_before-IsLogged = record {
  fits = omega arith;
  valid = inl (omega arith);
  splices = λ h. inl (refl, refl);
}

renamed-IsLogged : IsLogged renamed
unfolding tag_type1 tag_type3 tag_size
renamed-IsLogged = record {
  fits = omega arith;
  valid = inl (omega arith);
  splices = λ h. absurd (omega arith);
}

not_redundant : (traverse_filter created_before.tag file_name).0 ≡ false
unfolding traverse_filter is_redundant filter_mask mktag tag_isdelete shift_right_signed tag_type1
    tag_id tag_splice tag_chunk
not_redundant = refl

redundant : (traverse_filter renamed.tag file_name).0 ≡ true
unfolding traverse_filter is_redundant filter_mask mktag tag_isdelete shift_right_signed tag_type1
    tag_id tag_splice tag_chunk
redundant = refl

filter-keeps_example :
    (after_entry
        (kind_mask file_name)
        (tag_type3 file_name)
        created_before
        one_file
        (tag_id (traverse_filter created_before.tag file_name).1)
      ≡ some named)
    × (tag_type3 (traverse_filter created_before.tag file_name).1 ≡ tag_type3 file_name)
    × (tag_size (traverse_filter created_before.tag file_name).1 ≡ tag_size file_name)
unfolding tag_id
filter-keeps_example =
    filter-keeps created_before file_name one_file (some named) created_before-IsLogged
      (omega arith) (omega arith) (omega arith) refl not_redundant

filter-drops_example :
    ((traverse_filter renamed.tag file_name).1 ≡ 0)
    × ((tag_isdelete file_name ≡ true)
        ⊎ ((tag_id renamed.tag ≡ tag_id file_name)
            × ((tag_type3 renamed.tag ≡ type_delete)
                ⊎ (after_entry
                      (kind_mask file_name)
                      (tag_type3 file_name)
                      renamed
                      one_file
                      (tag_id file_name)
                    ≡ some renamed))))
unfolding tag_type1
filter-drops_example =
    filter-drops renamed file_name one_file renamed-IsLogged (omega arith) (omega arith)
      (omega arith) redundant

-- A file behind another, and a delete of that one.
abbrev second_name : ℕ
second_name = 0x00100402

abbrev deleted_before : Entry
deleted_before = record { tag = 0x4ff003ff; at = 0 }

abbrev second_file : ℕ → Option Entry
second_file i = if i == 1 then some (record { tag = second_name; at = 8 }) else none

on_device : is_redundant (deleted_before.tag + 2 ^ 31) second_name ≡ false
unfolding is_redundant filter_mask mktag tag_isdelete shift_right_signed tag_type1 tag_id
on_device = refl

filter_misplaces_example :
    (traverse_filter (deleted_before.tag + 2 ^ 31) second_name ≡ (false, second_name))
    × (after_entry
          (kind_mask second_name)
          (tag_type3 second_name)
          deleted_before
          second_file
          (renumbered type_delete 1)
        ≡ second_file 1)
    × (renumbered type_delete 1 ≢ 1)
unfolding tag_type3 tag_id
filter_misplaces_example =
    filter_misplaces deleted_before second_name second_file (omega arith) (omega arith) (inr refl)
      (omega arith) on_device

abbrev nodes : List ℕ
nodes = 7 ∷ 5 ∷ []

nodes-IsApart : IsApart nodes
unfolding mlist_isopen
nodes-IsApart = (refl, (refl, tt))

mlist_lem_example :
    (mlist_isopen (mlist_append nodes 5) 5 ≡ true)
    × (mlist_isopen (mlist_append nodes 5) 7 ≡ mlist_isopen nodes 7)
    × (mlist_isopen nodes 5 ≡ false → IsApart (mlist_append nodes 5))
    × (mlist_isopen (mlist_remove nodes 5) 5 ≡ false)
    × (mlist_isopen (mlist_remove nodes 5) 7 ≡ mlist_isopen nodes 7)
    × IsApart (mlist_remove nodes 5)
    × (mlist_remove (mlist_append nodes 5) 5 ≡ nodes)
mlist_lem_example = mlist_lem nodes 5 7 nodes-IsApart (omega arith)
