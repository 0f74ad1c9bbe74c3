-- ===== src/Tests/DeviceWrites.antt =====
-- The writes of src/littlefs_v2/lfs_device.cpp on a device that is a function from places to bytes.
use littlefs_v.Base.{
  ℕ, ◌+◌, ◌-◌, List, [], ◌∷◌, ◌≡◌, sym, arith, none, tabulate, replicate, ap, length, get_or, true,
  ◌&&◌, ◌==◌, leb, ltb, if◌then◌else◌,
}
use littlefs_v.Device.{Geometry, Cache, Driver, Reply, done, failed}
use littlefs_v.Device.View.{IsGeometry, IsPlaced, Reads}
use littlefs_v.Device.Read.Step.{IsReady}
use littlefs_v.Device.Write.{Caches, bd_cmp, bd_flush}
use littlefs_v.Device.Write.Compare.{IsCompared}
use littlefs_v.Device.Write.Compared.{bd_cmp-IsCompared}
use littlefs_v.Device.Write.Flush.{IsPending, IsFlushed, bd_flush-IsFlushed}
use littlefs_v.Device.Erase.{bd_erase}
use littlefs_v.Device.Erase.Units.{erase_each, bd_erase-each}
use littlefs_v.Utility.Align.{lfs_alignup, lfs_aligndown}

abbrev pub Shelf : Type 0
Shelf = ℕ → ℕ → ℕ

abbrev pub shelf : Driver Shelf
shelf = record {
  read = λ d block off size. done (tabulate (d block) off size);
  write = λ d block off bytes. (
    λ b o.
        if b == block && (leb off o && ltb o (off + length bytes))
        then get_or bytes (o - off) 0
        else d b o,
    done tt,
  );
  erase = λ d block. (λ b o. if b == block then 255 else d b o, done tt);
  sync = λ d. (d, done tt);
}

abbrev pub sizes : Geometry
sizes = record {
  read_size = 4;
  write_size = 4;
  cache_size = 8;
  erase_size = 16;
  block_size = 16;
  block_count = 4;
}

abbrev pairs : Geometry
pairs = record sizes { erase_size = 8 }

pub sizes-IsGeometry : IsGeometry sizes
sizes-IsGeometry = omega arith

abbrev bytes_of : Reply (List ℕ) → List ℕ
bytes_of (done bytes) = bytes
bytes_of (failed e) = []

pub shelf-Reads : (d : Shelf) → Reads shelf d d
shelf-Reads d block off size bytes e = sym (ap bytes_of e)

abbrev blank : Shelf
blank b o = 255

abbrev caches : Caches Shelf
caches = record {
  device = blank;
  write_cache = record {
    block = 1;
    offset = 4;
    size = 3;
    buffer = 91 ∷ 92 ∷ 93 ∷ 94 ∷ 0 ∷ 0 ∷ 0 ∷ 0 ∷ [];
  };
  read_cache = record { block = 1; offset = 0; size = 4; buffer = replicate 8 7 };
}

caches-IsPending : IsPending sizes caches.write_cache
unfolding lfs_alignup lfs_aligndown
caches-IsPending = omega arith

read_cache-IsPlaced : IsPlaced sizes caches.read_cache
read_cache-IsPlaced = omega arith

bd_flush-IsFlushed_example :
    IsFlushed sizes shelf
      (λ d. d)
      sizes-IsGeometry
      shelf-Reads
      blank
      caches.write_cache
      (lfs_alignup 3 4)
      (bd_flush sizes shelf true caches)
bd_flush-IsFlushed_example =
    bd_flush-IsFlushed sizes shelf (λ d. d) sizes-IsGeometry shelf-Reads caches caches-IsPending
      read_cache-IsPlaced (omega arith)

abbrev pub empty_cache : Cache
empty_cache = record { block = 2; offset = 0; size = 0; buffer = replicate 8 0 }

empty_cache-IsReady : IsReady sizes blank empty_cache
empty_cache-IsReady = record {
  placed = omega arith;
  coherent = λ o from to below. absurd (omega arith);
  room = omega arith;
}

bd_cmp-IsCompared_example :
    IsCompared sizes shelf blank blank none 1 2
      (255 ∷ 255 ∷ 9 ∷ [])
      (bd_cmp sizes shelf blank none 3 1 empty_cache 2 (255 ∷ 255 ∷ 9 ∷ []))
bd_cmp-IsCompared_example =
    bd_cmp-IsCompared sizes shelf blank blank sizes-IsGeometry (shelf-Reads blank) none 1 tt
      (omega arith) 3 (omega arith) empty_cache 2 (255 ∷ 255 ∷ 9 ∷ []) empty_cache-IsReady
      (omega arith) (omega arith)

bd_erase-each_example : bd_erase pairs shelf 3 blank ≡ erase_each pairs shelf (6 ∷ 7 ∷ []) blank
bd_erase-each_example = bd_erase-each pairs shelf 3 blank (omega arith) (omega arith)
