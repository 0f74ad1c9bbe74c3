-- ===== src/Device/Read.antt =====
-- `lfs_bd_read`: bytes from the write cache, the read cache or the device, in that order.
pub mod Lookup
pub mod Place
pub mod Step
pub mod Loop
use littlefs_v.Base.{
  ℕ, zero, suc, ◌+◌, ◌-◌, ◌%◌, ◌^◌, List, [], ◌++◌, Bool, true, false, ◌&&◌, ◌||◌, ltb, leb, ◌==◌,
  if◌then◌else◌, add64, sub64, slice, drop, length, Option, none, some,
}
use littlefs_v.Errors.{Error, Outcome, ok, err, abort, out_of_fuel, fault, prepend}
use littlefs_v.Utility.Align.{lfs_min, lfs_aligndown, lfs_alignup}
use littlefs_v.Device.{Geometry, Driver, Cache, rawread}

-- What a cache says of the next `diff` bytes: it holds the first so many, or it holds none of the
-- first so many.
pub data Found : Type 0 where
  hit : ℕ → Found
  limit : ℕ → Found

unfoldable pub lookup : Cache → ℕ → ℕ → ℕ → Found
lookup c block offset diff =
    if block == c.block && ltb offset (add64 c.offset c.size)
    then if leb c.offset offset
      then hit (lfs_min diff (sub64 c.size (offset - c.offset)))
      else limit (lfs_min diff (c.offset - offset))
    else limit diff

-- A null `write_cache` is not looked at.
unfoldable pub lookup_write : Option Cache → ℕ → ℕ → ℕ → Found
lookup_write none block offset diff = limit diff
lookup_write (some c) block offset diff = lookup c block offset diff

-- `memcpy(data, &c->buffer[offset - c->offset], n)`
unfoldable pub cached : Cache → ℕ → ℕ → List ℕ
cached c offset n = slice c.buffer (offset - c.offset) n

unfoldable pub cached_write : Option Cache → ℕ → ℕ → List ℕ
cached_write none offset n = []
cached_write (some c) offset n = cached c offset n

-- A round of the loop: it copies bytes, or fills the read cache, or returns.
pub data Round : Type 0 where
  copied : ℕ → List ℕ → Round
  filled : Cache → Round
  stopped : Cache → Outcome (List ℕ) → Round

-- The read cache's new place, before its bytes are read.
unfoldable pub place : Geometry → Cache → ℕ → ℕ → ℕ → Cache
place g rc hint block offset =
    let start = lfs_aligndown offset g.read_size in
    record rc {
      block = block;
      offset = start;
      size =
          lfs_min (sub64 (lfs_min (lfs_alignup (add64 offset hint) g.read_size) g.block_size) start)
            g.cache_size;
    }

-- The read cache once its bytes have been asked for; its place is set in any case.
unfoldable pub fill_with : Cache → Outcome (List ℕ) → Round
fill_with rc (ok bytes) = filled (record rc { buffer = bytes ++ drop (length bytes) rc.buffer })
fill_with rc (err e) = stopped rc (err e)
fill_with rc abort = stopped rc abort
fill_with rc out_of_fuel = stopped rc out_of_fuel
fill_with rc fault = stopped rc fault

unfoldable pub bypass_with : Cache → ℕ → Outcome (List ℕ) → Round
bypass_with rc diff (ok bytes) = copied diff bytes
bypass_with rc diff (err e) = stopped rc (err e)
bypass_with rc diff abort = stopped rc abort
bypass_with rc diff out_of_fuel = stopped rc out_of_fuel
bypass_with rc diff fault = stopped rc fault

module _ {D : Type 0} (g : Geometry) (drv : Driver D) (d : D) where
  -- Neither cache has the next byte, nor any of the next `diff`.
  unfoldable pub missed : ℕ → ℕ → Cache → ℕ → ℕ → ℕ → Round
  missed hint block rc offset size diff =
      if leb hint size && (offset % g.read_size == 0 && leb g.read_size size)
      then (
          -- past the cache, where the read is large and aligned enough
          let n = lfs_aligndown diff g.read_size in
          bypass_with rc n (rawread g drv d block offset n))
      else (let rc' = place g rc hint block offset in
          fill_with rc' (rawread g drv d rc'.block rc'.offset rc'.size))

  module _ (wc : Option Cache) (hint block : ℕ) where
    unfoldable pub round : Cache → ℕ → ℕ → Round
    round rc offset size = elim (lookup_write wc block offset size) [
      | hit n ↦ copied n (cached_write wc offset n)
      | limit diff ↦ elim (lookup rc block offset diff) [
        | hit n ↦ copied n (cached rc offset n)
        | limit diff' ↦ missed hint block rc offset size diff'
      ]
    ]

    -- The loop, with the read cache that it leaves.
    unfoldable pub read_loop : ℕ → Cache → ℕ → ℕ → Cache × Outcome (List ℕ)
    read_loop zero rc offset size = (rc, out_of_fuel)
    read_loop (suc fuel) rc offset size =
        let next = round rc offset size in
        if size == 0 then (rc, ok []) else elim next [
          | copied n bytes ↦
              (let rest = read_loop fuel rc (add64 offset n) (size - n) in
                (rest.0, prepend bytes rest.1))
          | filled rc' ↦ read_loop fuel rc' offset size
          | stopped rc' result ↦ (rc', result)
        ]

    -- lfs_bd_read. Twice the size and one round more are enough, as `Read.Loop` shows.
    unfoldable pub bd_read : Cache → ℕ → ℕ → Cache × Outcome (List ℕ)
    bd_read rc offset size =
        if leb g.block_count block || ltb g.block_size (add64 offset size)
        then (rc, err Error.corrupt)
        else read_loop (suc (size + size)) rc offset size
