-- ===== src/Device/Write/Flush.antt =====
-- `lfs_bd_flush` with validation: where it succeeds, the device has what the write cache had.
use native.Mathlib.Nat.{div_self, div-eq_of_lt, mod-eq_of_lt}
use littlefs_v.Base.{
  ℕ, ◌+◌, ◌*◌, ◌/◌, ◌%◌, ◌^◌, ◌≤◌, ◌<◌, List, true, not, ◌&&◌, ◌==◌, take, length, none, ◌≡◌, ◌≢◌,
  refl, ap, ◌∙◌, ◌⊎◌, inl, inr, arith, tabulate, length-take,
}
use littlefs_v.Errors.{Error, Outcome, ok, err, abort, out_of_fuel, fault}
use littlefs_v.Utility.Align.{lfs_alignup, lfs_alignup_bounds}
use littlefs_v.Utility.Pair.{block_null, block_inline}
use littlefs_v.Device.{Geometry, Driver, Cache, Reply, done, failed, rawprog}
use littlefs_v.Device.RawProg.{written, rawprog_one}
use littlefs_v.Device.View.{IsPlaced, Reads, Fails, IsGeometry}
use littlefs_v.Device.Read.Step.{IsReady}
use littlefs_v.Device.Write.{Cmp, Caches, cache_zero, cache_drop, bd_cmp, validated, bd_flush}
use littlefs_v.Device.Write.Compare.{IsCompared, memcmp_ne}
use littlefs_v.Device.Write.Compared.{bd_cmp-IsCompared}

-- A write cache with bytes for a block of the device, which fit there and in its buffer once their
-- number is rounded up to writes.
pub record IsPending (g : Geometry) (wc : Cache) : Type 0 where
  pub writes : 0 < g.write_size
  pub low : g.write_size ≤ 2 ^ 32
  pub inside : wc.block < g.block_count
  pub some_bytes : 0 < wc.size
  pub fits : wc.offset + lfs_alignup wc.size g.write_size ≤ g.block_size
  pub small : wc.size ≤ g.block_size
  pub has_bytes : lfs_alignup wc.size g.write_size ≤ length wc.buffer

module _ {D : Type 0} (g : Geometry) (drv : Driver D) (disk : D → ℕ → ℕ → ℕ) (v : IsGeometry g)
    (reads : (d : D) → Reads drv d (disk d)) where
  -- What the device holds where the cache `wc` was written to.
  abbrev pub stored : D → Cache → ℕ → List ℕ
  stored d wc diff = tabulate (disk d wc.block) wc.offset diff

  -- What a flush leaves: an empty write cache, its bytes on the device and a read cache fit for use; or
  -- the write cache as it was, and an error: of the write, or LFS_ERR_CORRUPT where the device does not
  -- have the bytes, or of a read.
  abbrev pub IsFlushed : D → Cache → ℕ → Caches D × Outcome (Unit {0}) → Type 0
  IsFlushed d wc diff (s, ok u) =
      (s.write_cache ≡ cache_zero wc)
      × (stored s.device wc diff ≡ take diff wc.buffer)
      × IsReady g (disk s.device) s.read_cache
  IsFlushed d wc diff (s, err e) =
      (s.write_cache ≡ wc)
      × (((drv.write d wc.block wc.offset (take diff wc.buffer)).1 ≡ failed e)
          ⊎ (((e ≡ Error.corrupt) × (stored s.device wc diff ≢ take diff wc.buffer))
              ⊎ Fails drv s.device wc.block e))
  IsFlushed d wc diff (s, abort) = ⊥
  IsFlushed d wc diff (s, out_of_fuel) = ⊥
  IsFlushed d wc diff (s, fault) = ⊥

  -- A dropped read cache is fit for use, whatever it held.
  cache_drop-IsReady :
      (d : D) (rc : Cache)
      → IsPlaced g rc
      → g.cache_size ≤ length rc.buffer
      → IsReady g (disk d) (cache_drop rc)
  unfolding cache_drop
  cache_drop-IsReady d rc p room = record {
    placed = record { fits = p.fits; bound = p.bound; aligned = p.aligned };
    coherent = λ o from to below. absurd (omega (arith, below, v.few));
    room = room;
  }

  -- What the end of `validated` makes of the comparison.
  abbrev settled : Caches D → Cache × Outcome Cmp → Caches D × Outcome (Unit {0})
  settled s r =
      let s' : Caches D = record s { read_cache = r.0 } in
      elim r.1 [
        | ok c ↦ elim c [
          | Cmp.eq ↦ (record s' { write_cache = cache_zero s.write_cache }, ok tt)
          | Cmp.lt ↦ (s', err Error.corrupt)
          | Cmp.gt ↦ (s', err Error.corrupt)
        ]
        | err e ↦ (s', err e)
        | abort ↦ (s', abort)
        | out_of_fuel ↦ (s', out_of_fuel)
        | fault ↦ (s', fault)
      ]

  settled-IsFlushed :
      (d : D) (s : Caches D) (diff : ℕ) (r : Cache × Outcome Cmp)
      → length (take diff s.write_cache.buffer) ≡ diff
      → IsCompared g drv s.device
          (disk s.device)
          none
          s.write_cache.block
          s.write_cache.offset
          (take diff s.write_cache.buffer)
          r
      → IsFlushed d s.write_cache diff (settled s r)
  settled-IsFlushed d s diff (rc, ok Cmp.eq) long (h, ready) = (refl, rw long at h, ready)
  settled-IsFlushed d s diff (rc, ok Cmp.lt) long (h, ready) =
      (refl, inr (inl (refl, rw long at (memcmp_ne _ _ Cmp.lt (λ e. cc) h))))
  settled-IsFlushed d s diff (rc, ok Cmp.gt) long (h, ready) =
      (refl, inr (inl (refl, rw long at (memcmp_ne _ _ Cmp.gt (λ e. cc) h))))
  settled-IsFlushed d s diff (rc, err e) long h = (refl, inr (inr h))
  settled-IsFlushed d s diff (rc, abort) long h = h
  settled-IsFlushed d s diff (rc, out_of_fuel) long h = h
  settled-IsFlushed d s diff (rc, fault) long h = h

  module _ (s : Caches D) (p : IsPending g s.write_cache) (rp : IsPlaced g s.read_cache)
      (room : g.cache_size ≤ length s.read_cache.buffer) where
    abbrev rounded : ℕ
    rounded = lfs_alignup s.write_cache.size g.write_size

    validated-IsFlushed :
        (d : D)
        → IsFlushed s.device s.write_cache rounded
            (validated g drv (record s { device = d }) rounded)
    unfolding validated
    validated-IsFlushed d =
        let wc = s.write_cache in
        let long : length (take rounded wc.buffer) ≡ rounded =
          omega (arith, length-take rounded wc.buffer, p.has_bytes) in
        settled-IsFlushed s.device (record s { device = d }) rounded
          (bd_cmp g drv d none rounded wc.block (cache_drop s.read_cache) wc.offset
            (take rounded wc.buffer))
          long
          (bd_cmp-IsCompared g drv d (disk d) v (reads d) none wc.block tt p.inside rounded
            (omega (arith, p.fits, v.small)) (cache_drop s.read_cache) wc.offset
            (take rounded wc.buffer) (cache_drop-IsReady d s.read_cache rp room)
            (omega (arith, long, p.fits)) (omega (arith, long)))

    -- What the flush makes of the device's reply to the write.
    abbrev replied : D × Reply (Unit {0}) → Caches D × Outcome (Unit {0})
    replied r = elim r.1 [
      | done u ↦ validated g drv (record s { device = r.0 }) rounded
      | failed e ↦ (record s { device = r.0 }, err e)
    ]

    replied-IsFlushed :
        (r : D × Reply (Unit {0}))
        → drv.write s.device s.write_cache.block s.write_cache.offset
            (take rounded s.write_cache.buffer)
          ≡ r
        → IsFlushed s.device s.write_cache rounded (replied r)
    replied-IsFlushed (d, done tt) e = validated-IsFlushed d
    replied-IsFlushed (d, failed e') e = (refl, inl (ap (λ r. r.1) e))

    -- With one erase unit to a block, the write reaches the device at the same address.
    rawprog-written :
        rawprog g drv s.device s.write_cache.block s.write_cache.offset s.write_cache.buffer rounded
        ≡ written g drv (
            drv.write s.device s.write_cache.block s.write_cache.offset
              (take rounded s.write_cache.buffer))
    rawprog-written =
        let wc = s.write_cache in
        let up =
          lfs_alignup_bounds wc.size g.write_size p.writes
            (omega (arith, p.small, p.low, v.small)) in
        let pos : 0 < rounded = omega (arith, p.some_bytes, up) in
        let unit : g.block_size / g.erase_size ≡ 1 =
          ap (λ t. g.block_size / t) v.one_unit ∙ div_self (omega (arith, p.fits)) in
        let off_div : wc.offset / g.erase_size ≡ 0 =
          div-eq_of_lt (omega (arith, p.fits, v.one_unit)) in
        let off_mod : wc.offset % g.erase_size ≡ wc.offset =
          mod-eq_of_lt (omega (arith, p.fits, v.one_unit)) in
        let address : wc.block * (g.block_size / g.erase_size) + wc.offset / g.erase_size
            ≡ wc.block =
          ap (λ t. wc.block * t + wc.offset / g.erase_size) unit ∙ omega (arith, off_div) in
        let total : g.block_count * (g.block_size / g.erase_size) ≡ g.block_count =
          ap (λ t. g.block_count * t) unit ∙ omega arith in
        rawprog_one g drv wc.block wc.offset rounded wc.buffer s.device pos p.inside p.fits
          (omega (arith, off_mod, v.one_unit, p.fits)) up.2 (omega (arith, v.one_unit, v.small))
          (omega (arith, v.small)) (omega (arith, total, v.few))
        ∙ rw (address, off_mod) refl

    -- What the flush makes of the write past the caches.
    abbrev ended : D × Outcome (Unit {0}) → Caches D × Outcome (Unit {0})
    ended r =
        let s' : Caches D = record s { device = r.0 } in
        elim r.1 [
          | ok u ↦ validated g drv s' rounded
          | err e ↦ (s', err e)
          | abort ↦ (s', abort)
          | out_of_fuel ↦ (s', out_of_fuel)
          | fault ↦ (s', fault)
        ]

    ended-written : (r : D × Reply (Unit {0})) → ended (written g drv r) ≡ replied r
    ended-written (d, done tt) = refl
    ended-written (d, failed e) = refl

    bd_flush-ended :
        bd_flush g drv true s
        ≡ ended (
            rawprog g drv s.device s.write_cache.block s.write_cache.offset s.write_cache.buffer
              rounded)
    unfolding bd_flush
    bd_flush-ended =
        let wc = s.write_cache in
        let real : (not (wc.block == block_null) && not (wc.block == block_inline)) ≡ true =
          ground (arith, p.inside, v.few) in
        rw (bd_flush, real) refl

    -- A validated flush of a write cache with bytes for a block, in range of that block, ends,
    -- whatever the device does on a write and whatever a placed read cache holds, on a device
    -- whose sizes fit together, with one erase unit to a block: with an empty write cache, the
    -- bytes on the device as they stood in the write cache, and a read cache that is ready; or
    -- with the write cache as it was and an error, which is that of the device's write, or
    -- LFS_ERR_CORRUPT where the device does not hold those bytes, or that of a read of the device.
    pub bd_flush-IsFlushed : IsFlushed s.device s.write_cache rounded (bd_flush g drv true s)
    bd_flush-IsFlushed =
        let w =
          drv.write s.device s.write_cache.block s.write_cache.offset
            (take rounded s.write_cache.buffer) in
        rw (bd_flush-ended, rawprog-written, ended-written w) (replied-IsFlushed w refl)
