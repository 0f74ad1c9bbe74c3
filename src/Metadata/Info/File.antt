-- ===== src/Metadata/Info/File.antt =====
-- `lfs_dir_getinfo` by the files of the log.
use littlefs_v.Base.{ℕ, suc, ◌+◌, ◌-◌, ◌^◌, ◌<◌, ◌≤◌, List, false, ◌==◌, ◌≡◌, arith, ap, ap₂}
use littlefs_v.Errors.{Outcome, ok, err, abort, out_of_fuel, fault}
use littlefs_v.Gstate.{Gstate}
use littlefs_v.Device.{Geometry, Driver}
use littlefs_v.Device.View.{Reads, IsGeometry}
use littlefs_v.Device.Cached.{Cached, ◌>>=◌, pure}
use littlefs_v.Device.Cached.Ends.{follow-Ended, Ended-mono}
use littlefs_v.Metadata.{MetadataDir, type_name, type_struct, type_globals}
use littlefs_v.Metadata.Files.{IsKind, AllLogged, deletes, files, without_move}
use littlefs_v.Metadata.Get.Got.{IsGot}
use littlefs_v.Metadata.Get.Search.{entries}
use littlefs_v.Metadata.Get.Replay.{answer, dir_get-file}
use littlefs_v.Metadata.Info.{Info, name_info, struct_info, dir_getinfo}

pub names-IsKind : IsKind 0x780 type_name
names-IsKind = record {
  mask_top = omega arith;
  type_top = omega arith;
  no_splice = omega arith;
  no_crc = omega arith;
}

pub structs-IsKind : IsKind type_globals type_struct
structs-IsKind = record {
  mask_top = omega arith;
  type_top = omega arith;
  no_splice = omega arith;
  no_crc = omega arith;
}

-- What is known of a file by its name and its struct: nothing unless it has both.
abbrev pub known : Outcome (ℕ × List ℕ) → Outcome (ℕ × List ℕ) → Info → Outcome Info
known (ok name) (ok ctz) info = ok (struct_info ctz (name_info name info))
known (ok name) (err e) info = err e
known (ok name) abort info = abort
known (ok name) out_of_fuel info = out_of_fuel
known (ok name) fault info = fault
known (err e) ctz info = err e
known abort ctz info = abort
known out_of_fuel ctz info = out_of_fuel
known fault ctz info = fault

module _ {D : Type 0} (g : Geometry) (drv : Driver D) (d : D) (disk : ℕ → ℕ → ℕ) (v : IsGeometry g)
    (reads : Reads drv d disk) where
  both-IsGot :
      (name ctz : Outcome (ℕ × List ℕ)) (m n : Cached (ℕ × List ℕ)) (info : Info)
      → IsGot g drv d disk v reads name m
      → IsGot g drv d disk v reads ctz n
      → IsGot g drv d disk v reads
          (known name ctz info)
          (m >>= λ a. n >>= λ b. pure (struct_info b (name_info a info)))
  both-IsGot name ctz m n info hm hn rc ready =
      let o : Outcome Info = known name ctz info in
      follow-Ended g drv d disk (λ a. name ≡ ok a) (λ i. o ≡ ok i) (λ e. o ≡ err e) (m rc) _
        (Ended-mono g drv d disk _ _ _ _ (m rc) (hm rc ready) (λ a h. h)
          (λ e h. ap (λ x. known x ctz info) h))
        (λ a h rc' ready'.
          follow-Ended g drv d disk (λ b. ctz ≡ ok b) (λ i. o ≡ ok i) (λ e. o ≡ err e) (n rc') _
            (Ended-mono g drv d disk _ _ _ _ (n rc') (hn rc' ready') (λ b k. k)
              (λ e k. ap₂ (λ x y. known x y info) h k))
            (λ b k rc'' ready''. (ap₂ (λ x y. known x y info) h k, ready'')))

-- On a device whose sizes fit together, with one erase unit to a block, for a pair whose first block
-- is below the count and a log that ends within it, whose splices are creates and deletes and whose
-- deletes and the number asked for come to less than 1023, and for a longest name below 1023:
-- `lfs_dir_getinfo`, asked for a file other than the root, ends with what the log's files have
-- under its number as its name and as its struct, the file whose move is pending being gone; with
-- LFS_ERR_NOENT if it has no name or no struct; or with an error of the device.
pub dir_getinfo-file :
    {D : Type 0} (g : Geometry) (drv : Driver D) (d : D) (disk : ℕ → ℕ → ℕ) (v : IsGeometry g)
    (reads : Reads drv d disk) (gdisk : Gstate) (dir : MetadataDir) (id longest : ℕ) (info : Info)
    (small : id < 2 ^ 10) (low : longest + 1 < 2 ^ 10)
    → dir.pair.first < g.block_count
    → dir.offset ≤ g.block_size
    → let es = entries (disk dir.pair.first) (suc dir.offset) dir.offset dir.etag in
      let f = disk dir.pair.first in
      AllLogged es
      → id + deletes es < 2 ^ 10 - 1
      → IsGot g drv d disk v reads
          (known
            (answer 0x780 type_name names-IsKind g.block_size f id
              (longest + 1)
              small
              low
              (without_move gdisk dir (files 0x780 type_name es) id))
            (answer type_globals type_struct structs-IsKind g.block_size f id 16 small
              (omega arith)
              (without_move gdisk dir (files type_globals type_struct es) id))
            info)
          (dir_getinfo g drv d gdisk longest dir id info)
unfolding dir_getinfo
dir_getinfo-file g drv d disk v reads gdisk dir id longest info small low inside below logged few =
    let no_root : (id == 0x3ff) ≡ false = ground arith in
    rw (dir_getinfo, no_root)
      (both-IsGot g drv d disk v reads _ _ _ _ info
        (dir_get-file g drv d disk v reads 0x780 type_name names-IsKind gdisk dir id (longest + 1)
          small low inside below logged few)
        (dir_get-file g drv d disk v reads type_globals type_struct structs-IsKind gdisk dir id 16
          small (omega arith) inside below logged few))
