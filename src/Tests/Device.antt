-- ===== src/Tests/Device.antt =====
-- The reads of src/littlefs_v2/lfs_device.cpp on four blocks of sixteen bytes.
use littlefs_v.Base.{
  ℕ, ◌+◌, ◌*◌, List, [], ◌∷◌, ◌≡◌, refl, sym, arith, some, tabulate, replicate, ap,
}
use littlefs_v.Errors.{ok, abort}
use littlefs_v.Device.{Geometry, Cache, Driver, Reply, done, failed, rawread, rawread_loop}
use littlefs_v.Device.Raw.{outcome, read_in_unit, rawread-eq-read_in_unit}
use littlefs_v.Device.View.{IsGeometry, IsPlaced, Reads}
use littlefs_v.Device.Read.{
  bd_read, read_loop, round, lookup_write, lookup, missed, fill_with, place, cached, cached_write,
}
use littlefs_v.Utility.Align.{lfs_aligndown, lfs_min, lfs_alignup}
use littlefs_v.Device.Read.Step.{IsReady}
use littlefs_v.Device.Read.Loop.{IsRead, bd_read-IsRead}

abbrev small : Geometry
small = record {
  read_size = 4;
  write_size = 4;
  cache_size = 8;
  erase_size = 16;
  block_size = 16;
  block_count = 4;
}

-- The same blocks, of two erase units each.
abbrev halves : Geometry
halves = record small { erase_size = 8 }

abbrev numbered : ℕ → ℕ → ℕ
numbered block offset = 16 * block + offset

abbrev drive : Driver Unit
drive = record {
  read = λ d block off size. done (tabulate (numbered block) off size);
  write = λ d block off bytes. (d, done tt);
  erase = λ d block. (d, done tt);
  sync = λ d. (d, done tt);
}

abbrev bytes_or : Reply (List ℕ) → List ℕ
bytes_or (done bytes) = bytes
bytes_or (failed e) = []

drive-Reads : Reads drive tt numbered
drive-Reads block off size bytes e = sym (ap bytes_or e)

small-IsGeometry : IsGeometry small
small-IsGeometry = omega arith

abbrev empty : Cache
empty = record { block = 2; offset = 0; size = 0; buffer = replicate 8 0 }

abbrev pending : Cache
pending = record {
  block = 1;
  offset = 4;
  size = 4;
  buffer = 91 ∷ 92 ∷ 93 ∷ 94 ∷ 0 ∷ 0 ∷ 0 ∷ 0 ∷ [];
}

empty-IsReady : IsReady small numbered empty
empty-IsReady = record {
  placed = omega arith;
  coherent = λ o from to below. absurd (omega arith);
  room = omega arith;
}

pending-IsPlaced : IsPlaced small pending
pending-IsPlaced = omega arith

bd_read-IsRead_example :
    IsRead small drive tt numbered
      (some pending)
      1
      2
      8
      (bd_read small drive tt (some pending) 8 1 empty 2 8)
bd_read-IsRead_example =
    bd_read-IsRead small drive tt numbered small-IsGeometry drive-Reads (some pending) 8 1
      pending-IsPlaced (omega arith) (omega arith) (omega arith) empty 2 8 empty-IsReady
      (omega arith)

-- The same read, computed.
bd_read_computed :
    (bd_read small drive tt (some pending) 8 1 empty 2 8).1
    ≡ ok (18 ∷ 19 ∷ 91 ∷ 92 ∷ 93 ∷ 94 ∷ 24 ∷ 25 ∷ [])
unfolding bd_read read_loop round lookup_write lookup missed fill_with rawread place lfs_aligndown
    lfs_min lfs_alignup rawread_loop cached cached_write
bd_read_computed = refl

rawread-eq-read_in_unit_example : rawread halves drive tt 3 8 4 ≡ read_in_unit halves drive tt 3 8 4
rawread-eq-read_in_unit_example =
    rawread-eq-read_in_unit halves drive tt 3 8 4 (omega arith) (omega arith) (omega arith)
      (omega arith)

-- A range over two units fails, the two halves of it do not.
rawread_computed :
    (read_in_unit halves drive tt 3 4 8 ≡ abort)
    × (read_in_unit halves drive tt 3 4 4 ≡ outcome (drive.read tt 6 4 4))
    × (read_in_unit halves drive tt 3 8 4 ≡ outcome (drive.read tt 7 0 4))
rawread_computed = (refl, refl, refl)
