-- ===== src/Device.antt =====
-- src/littlefs_v2/lfs_device.cpp: blocks behind a read cache and a write cache.
-- Here: the state, the device that the configuration names, and the reads and writes past the
-- caches, `lfs_bd_rawread` and `lfs_bd_rawprog`.
pub mod Raw
pub mod RawProg
pub mod View
pub mod Read
pub mod Write
pub mod Erase
pub mod Cached
use littlefs_v.Base.{
  ℕ, zero, suc, ◌+◌, ◌-◌, ◌/◌, ◌%◌, List, [], ◌++◌, Bool, not, ◌&&◌, ◌||◌, ltb, leb, ◌==◌,
  if◌then◌else◌, add64, mul64, take, drop,
}
use littlefs_v.Errors.{Error, Outcome, ok, err, abort, out_of_fuel, prepend}
use littlefs_v.Utility.Align.{lfs_min}

-- The sizes of `lfs_t` and of its `lfs_config_t`.
pub record Geometry : Type 0 where
  pub read_size : ℕ
  pub write_size : ℕ
  pub cache_size : ℕ
  pub erase_size : ℕ
  pub block_size : ℕ
  pub block_count : ℕ

-- `lfs_cache_t`
pub record Cache : Type 0 where
  pub block : ℕ
  pub offset : ℕ
  pub size : ℕ
  pub buffer : List ℕ

-- What a callback of the configuration returns.
pub data Reply {ℓ} (A : Type ℓ) : Type ℓ where
  done : A → Reply A
  failed : Error → Reply A

-- The callbacks `read`, `write`, `erase` and `sync` of `lfs_config_t`, over the device's state. A
-- read hands back the bytes that it puts into the caller's buffer.
pub record Driver (D : Type 0) : Type 0 where
  pub read : D → ℕ → ℕ → ℕ → Reply (List ℕ)
  pub write : D → ℕ → ℕ → List ℕ → D × Reply (Unit {0})
  pub erase : D → ℕ → D × Reply (Unit {0})
  pub sync : D → D × Reply (Unit {0})

-- A read with a logical block's address in erase units, `left` rounds at most.
unfoldable pub rawread_loop :
    {D : Type 0} → Geometry → Driver D → D → ℕ → ℕ → ℕ → ℕ → Outcome (List ℕ)
rawread_loop g drv d zero block off size = out_of_fuel
rawread_loop g drv d (suc left) block off size =
    let delta = lfs_min size (add64 off g.erase_size) in
    let off' = add64 off delta in
    let rest =
      rawread_loop g drv d left (if off' == g.erase_size then add64 block 1 else block)
        (if off' == g.erase_size then 0 else off') (size - delta) in
    if size == 0
    then ok []
    else if not (leb (add64 off size) g.erase_size) || not (size % g.read_size == 0)
    then abort
    else elim (drv.read d block off delta) [ done bytes ↦ prepend bytes rest | failed e ↦ err e ]

-- lfs_bd_rawread
unfoldable pub rawread : {D : Type 0} → Geometry → Driver D → D → ℕ → ℕ → ℕ → Outcome (List ℕ)
rawread g drv d block off size =
    if not (ltb block g.block_count)
      || (not (leb (add64 off size) g.block_size) || not (size % g.read_size == 0))
    then abort
    else rawread_loop g drv d (suc size)
        (add64 (mul64 block (g.block_size / g.erase_size)) (off / g.erase_size))
        (off % g.erase_size) size

-- The rounds of `lfs_bd_rawprog`, over the bytes still to be written.
unfoldable pub rawprog_loop :
    {D : Type 0} → Geometry → Driver D → D → ℕ → ℕ → ℕ → ℕ → List ℕ → D × Outcome (Unit {0})
rawprog_loop g drv d zero block off size bytes = (d, out_of_fuel)
rawprog_loop g drv d (suc left) block off size bytes =
    let delta = lfs_min size (add64 off g.erase_size) in
    let off' = add64 off delta in
    if size == 0
    then (d, ok tt)
    else if not (leb (add64 off size) g.erase_size) || not (size % g.write_size == 0)
    then (d, abort)
    else (let (d', reply) = drv.write d block off (take delta bytes) in
        elim reply [
          | done _ ↦
              rawprog_loop g drv d' left (if off' == g.erase_size then add64 block 1 else block)
                (if off' == g.erase_size then 0 else off') (size - delta) (drop delta bytes)
          | failed e ↦ (d', err e)
        ])

-- lfs_bd_rawprog
unfoldable pub rawprog :
    {D : Type 0} → Geometry → Driver D → D → ℕ → ℕ → List ℕ → ℕ → D × Outcome (Unit {0})
rawprog g drv d block off bytes size =
    if not (ltb block g.block_count)
      || (not (leb (add64 off size) g.block_size) || not (size % g.write_size == 0))
    then (d, abort)
    else rawprog_loop g drv d (suc size)
        (add64 (mul64 block (g.block_size / g.erase_size)) (off / g.erase_size))
        (off % g.erase_size) size bytes
