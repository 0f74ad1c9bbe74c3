-- ===== src/Device/Write.antt =====
-- `lfs_bd_cmp`, `lfs_bd_flush`, `lfs_bd_sync` and `lfs_bd_write`: bytes gather in the write cache, which
-- goes to the device when it is full or when it is flushed.
pub mod Compare
pub mod Compared
pub mod Flush
use littlefs_v.Base.{
  ℕ, zero, suc, ◌+◌, ◌-◌, ◌*◌, ◌%◌, List, [], ◌∷◌, ◌++◌, Bool, true, false, not, ◌&&◌, ◌||◌, ltb,
  leb, ◌==◌, if◌then◌else◌, add64, sub64, take, drop, length, Option, none, some,
}
use littlefs_v.Errors.{Error, Outcome, ok, err, abort, out_of_fuel, fault}
use littlefs_v.Utility.Align.{lfs_min, lfs_max, lfs_aligndown, lfs_alignup}
use littlefs_v.Utility.Pair.{block_null, block_inline}
use littlefs_v.Device.{Geometry, Driver, Cache, Reply, done, failed, rawprog}
use littlefs_v.Device.Read.{bd_read}

-- LFS_CMP_EQ, LFS_CMP_LT, LFS_CMP_GT
pub data Cmp : Type 0 where
  eq lt gt : Cmp

-- `memcmp` on as many bytes as both lists have.
unfoldable pub memcmp : List ℕ → List ℕ → Cmp
memcmp [] ys = Cmp.eq
memcmp (x ∷ xs) [] = Cmp.eq
memcmp (x ∷ xs) (y ∷ ys) =
    let rest = memcmp xs ys in if x == y then rest else if ltb x y then Cmp.lt else Cmp.gt

-- `lfs_cache_zero`
unfoldable pub cache_zero : Cache → Cache
cache_zero c = record c { block = block_null; offset = 0; size = 0 }

-- `lfs_cache_drop`
unfoldable pub cache_drop : Cache → Cache
cache_drop c = record c { block = block_null }

-- `memcpy(&c->buffer[at], bytes, n)`; what goes past the buffer is left out.
unfoldable pub put : List ℕ → ℕ → List ℕ → List ℕ
put buffer at bytes = take at buffer ++ (bytes ++ drop (at + length bytes) buffer)

-- The device, the write cache and the read cache.
pub record Caches (D : Type 0) : Type 0 where
  pub device : D
  pub write_cache : Cache
  pub read_cache : Cache

module _ {D : Type 0} (g : Geometry) (drv : Driver D) where
  -- What a piece of `lfs_bd_cmp` comes to: the bytes that were read against those expected.
  unfoldable pub piece : Cache × Outcome (List ℕ) → List ℕ → Cache × Outcome Cmp
  piece (rc, ok bytes) expected = (rc, ok (memcmp bytes expected))
  piece (rc, err e) expected = (rc, err e)
  piece (rc, abort) expected = (rc, abort)
  piece (rc, out_of_fuel) expected = (rc, out_of_fuel)
  piece (rc, fault) expected = (rc, fault)

  -- The loop over pieces of 256 bytes, from byte `idx` on, with `expected` still to be compared.
  unfoldable pub cmp_loop :
      D → Option Cache → ℕ → ℕ → ℕ → Cache → ℕ → ℕ → List ℕ → Cache × Outcome Cmp
  cmp_loop d wc hint block zero rc offset idx expected = (rc, out_of_fuel)
  cmp_loop d wc hint block (suc left) rc offset idx expected =
      let diff = lfs_min (length expected) 256 in
      let r =
        piece (bd_read g drv d wc (sub64 hint idx) block rc (add64 offset idx) diff)
          (take diff expected) in
      let rest = cmp_loop d wc hint block left r.0 offset (idx + diff) (drop diff expected) in
      if length expected == 0 then (rc, ok Cmp.eq) else elim r.1 [
        | ok c ↦ elim c [ Cmp.eq ↦ rest | Cmp.lt ↦ (r.0, ok Cmp.lt) | Cmp.gt ↦ (r.0, ok Cmp.gt) ]
        | err e ↦ (r.0, err e)
        | abort ↦ (r.0, abort)
        | out_of_fuel ↦ (r.0, out_of_fuel)
        | fault ↦ (r.0, fault)
      ]

  -- lfs_bd_cmp
  unfoldable pub bd_cmp : D → Option Cache → ℕ → ℕ → Cache → ℕ → List ℕ → Cache × Outcome Cmp
  bd_cmp d wc hint block rc offset expected =
      cmp_loop d wc hint block (suc (length expected)) rc offset 0 expected

  -- check data on disk
  unfoldable pub validated : Caches D → ℕ → Caches D × Outcome (Unit {0})
  unfolding cache_zero cache_drop
  validated s diff =
      let wc = s.write_cache in
      let r =
        bd_cmp s.device none diff wc.block (cache_drop s.read_cache) wc.offset
          (take diff wc.buffer) in
      let s' : Caches D = record s { read_cache = r.0 } in
      elim r.1 [
        | ok c ↦ elim c [
          | Cmp.eq ↦ (record s' { write_cache = cache_zero wc }, ok tt)
          | Cmp.lt ↦ (s', err Error.corrupt)
          | Cmp.gt ↦ (s', err Error.corrupt)
        ]
        | err e ↦ (s', err e)
        | abort ↦ (s', abort)
        | out_of_fuel ↦ (s', out_of_fuel)
        | fault ↦ (s', fault)
      ]

  -- lfs_bd_flush
  unfoldable pub bd_flush : Bool → Caches D → Caches D × Outcome (Unit {0})
  unfolding cache_zero
  bd_flush validate s =
      let wc = s.write_cache in
      if not (wc.block == block_null) && not (wc.block == block_inline)
      then (let diff = lfs_alignup wc.size g.write_size in
          let r = rawprog g drv s.device wc.block wc.offset wc.buffer diff in
          let s' : Caches D = record s { device = r.0 } in
          elim r.1 [
            | ok u ↦
                if validate
                then validated s' diff
                else (record s' { write_cache = cache_zero wc }, ok tt)
            | err e ↦ (s', err e)
            | abort ↦ (s', abort)
            | out_of_fuel ↦ (s', out_of_fuel)
            | fault ↦ (s', fault)
          ])
      else (s, ok tt)

  -- lfs_bd_sync
  unfoldable pub bd_sync : Bool → Caches D → Caches D × Outcome (Unit {0})
  unfolding cache_drop
  bd_sync validate s =
      let r = bd_flush validate (record s { read_cache = cache_drop s.read_cache }) in
      elim r.1 [
        | ok u ↦
            (let synced = drv.sync r.0.device in
              let s' : Caches D = record r.0 { device = synced.0 } in
              elim synced.1 [ done u ↦ (s', ok tt) | failed e ↦ (s', err e) ])
        | err e ↦ (r.0, err e)
        | abort ↦ (r.0, abort)
        | out_of_fuel ↦ (r.0, out_of_fuel)
        | fault ↦ (r.0, fault)
      ]

  -- Whether the next byte has its place in the write cache.
  unfoldable pub fits_cache : Cache → ℕ → ℕ → Bool
  fits_cache wc block offset =
      block == wc.block && (leb wc.offset offset && ltb offset (add64 wc.offset g.cache_size))

  -- The write cache with the first `diff` of the bytes put in at `offset`.
  unfoldable pub filled_with : Cache → ℕ → ℕ → List ℕ → Cache
  unfolding put
  filled_with wc offset diff bytes = record wc {
    size = lfs_max wc.size (sub64 (add64 offset diff) wc.offset);
    buffer = put wc.buffer (offset - wc.offset) (take diff bytes);
  }

  -- prepare write_cache, first condition can no longer fail
  unfoldable pub prepared : Cache → ℕ → ℕ → Cache
  prepared wc block offset = record wc {
    block = block;
    offset = lfs_aligndown offset g.write_size;
    size = 0;
  }

  unfoldable pub write_loop : Bool → ℕ → ℕ → Caches D → ℕ → List ℕ → Caches D × Outcome (Unit {0})
  unfolding fits_cache filled_with prepared
  write_loop validate block zero s offset bytes = (s, out_of_fuel)
  write_loop validate block (suc fuel) s offset bytes =
      let wc = s.write_cache in
      let diff = lfs_min (length bytes) (g.cache_size - (offset - wc.offset)) in
      let wc' = filled_with wc offset diff bytes in
      let s' : Caches D = record s { write_cache = wc' } in
      let flushed = bd_flush validate s' in
      let stays = write_loop validate block fuel s' (add64 offset diff) (drop diff bytes) in
      let goes = write_loop validate block fuel flushed.0 (add64 offset diff) (drop diff bytes) in
      let fresh =
        write_loop validate block fuel (record s { write_cache = prepared wc block offset }) offset
          bytes in
      if length bytes == 0
      then (s, ok tt)
      else if fits_cache wc block offset
      then if wc'.size == g.cache_size
        then elim flushed.1 [
          | ok u ↦ goes
          | err e ↦ (flushed.0, err e)
          | abort ↦ (flushed.0, abort)
          | out_of_fuel ↦ (flushed.0, out_of_fuel)
          | fault ↦ (flushed.0, fault)
        ]
        else stays
      else if wc.block == block_null
      then fresh
      else (s, abort)

  -- lfs_bd_write
  unfoldable pub bd_write : Bool → ℕ → Caches D → ℕ → List ℕ → Caches D × Outcome (Unit {0})
  bd_write validate block s offset bytes =
      if not (block == block_inline || ltb block g.block_count)
        || not (leb (add64 offset (length bytes)) g.block_size)
      then (s, abort)
      else write_loop validate block (suc (length bytes + length bytes)) s offset bytes
