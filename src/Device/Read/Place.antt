-- ===== src/Device/Read/Place.antt =====
-- Where the read cache is put when neither cache has the next byte.
use littlefs_v.Base.{ℕ, ◌+◌, ◌-◌, ◌%◌, ◌^◌, ◌≤◌, ◌<◌, ◌≡◌, refl, ap, ◌∙◌, arith, add64, sub64}
use littlefs_v.Base.Multiples.{sub-mod-zero}
use littlefs_v.Utility.Align.{
  lfs_min, lfs_aligndown, lfs_alignup, lfs_aligndown_bounds, lfs_aligndown-mod, lfs_alignup_bounds,
}
use littlefs_v.Device.{Geometry, Cache}
use littlefs_v.Device.View.{IsGeometry}
use littlefs_v.Device.Read.{place}

-- The cache starts aligned at or before the byte at `offset`, goes past it, and lies in the block
-- and in its buffer, a whole number of reads long.
pub record IsAround (g : Geometry) (block offset : ℕ) (c : Cache) : Type 0 where
  pub same_block : c.block ≡ block
  pub from_start : c.offset ≤ offset
  pub past : offset < c.offset + c.size
  pub in_block : c.offset + c.size ≤ g.block_size
  pub in_buffer : c.size ≤ g.cache_size
  pub aligned : c.offset % g.read_size ≡ 0
  pub whole : c.size % g.read_size ≡ 0

lfs_min-mod : (a b n : ℕ) → a % n ≡ 0 → b % n ≡ 0 → lfs_min a b % n ≡ 0
unfolding lfs_min
lfs_min-mod a b n p q = ground arith

lfs_min_cases :
    (a b : ℕ) → (lfs_min a b ≤ a) × (lfs_min a b ≤ b) × ((x : ℕ) → x ≤ a → x ≤ b → x ≤ lfs_min a b)
unfolding lfs_min
lfs_min_cases a b = (ground arith, ground arith, λ x p q. ground arith)

pub place-IsAround :
    (g : Geometry) (rc : Cache) (hint block offset : ℕ)
    → IsGeometry g
    → 0 < hint
    → hint ≤ 2 ^ 32
    → offset < g.block_size
    → IsAround g block offset (place g rc hint block offset)
unfolding place
place-IsAround g rc hint block offset v pos low inside =
    let start = lfs_aligndown offset g.read_size in
    let down = lfs_aligndown_bounds offset g.read_size v.reads in
    let sum : add64 offset hint ≡ offset + hint = omega (arith, v.small) in
    let up = lfs_alignup (add64 offset hint) g.read_size in
    let ahead =
      lfs_alignup_bounds (add64 offset hint) g.read_size v.reads
        (omega (arith, sum, v.small, v.caches, v.cache_in_block)) in
    let m = lfs_min up g.block_size in
    let mc = lfs_min_cases up g.block_size in
    let reach : offset + 1 ≤ m = mc.2 (offset + 1) (omega (arith, ahead, sum)) (omega arith) in
    let gap : sub64 m start ≡ m - start = omega (arith, mc, down, v.small) in
    let n = lfs_min (sub64 m start) g.cache_size in
    let nc = lfs_min_cases (sub64 m start) g.cache_size in
    let long : offset + 1 - start ≤ n =
      nc.2 (offset + 1 - start) (omega (arith, gap, reach)) (omega (arith, down, v.caches)) in
    record {
      same_block = refl;
      from_start = omega arith;
      past = omega (arith, long, down);
      in_block = omega (arith, nc, gap, mc, reach, down);
      in_buffer = omega (arith, nc);
      aligned = lfs_aligndown-mod offset g.read_size;
      whole =
          lfs_min-mod (sub64 m start) g.cache_size g.read_size
            (ap (λ t. t % g.read_size) gap
              ∙ sub-mod-zero m start g.read_size
                  (lfs_min-mod up g.block_size g.read_size ahead.2 v.block_aligned)
                  (lfs_aligndown-mod offset g.read_size))
            v.cache_aligned;
    }
