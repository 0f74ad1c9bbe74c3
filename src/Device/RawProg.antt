-- ===== src/Device/RawProg.antt =====
-- The writes past the caches: one call of the device, where they stay in one erase unit.
use native.Mathlib.Nat.{div-mul-le_self, le-div_iff_mul-le, mul-le-mul_right}
use littlefs_v.Base.{
  ℕ, zero, suc, ◌+◌, ◌-◌, ◌*◌, ◌/◌, ◌%◌, ◌^◌, ◌≤◌, ◌<◌, List, ◌≡◌, refl, ◌∙◌, arith, ◌==◌,
  if◌then◌else◌, add64, mul64, take, drop,
}
use littlefs_v.Errors.{Outcome, err}
use littlefs_v.Utility.Align.{lfs_min}
use littlefs_v.Device.{Geometry, Driver, Reply, done, failed, rawprog_loop, rawprog}
use littlefs_v.Device.Raw.{outcome}

module _ {D : Type 0} (g : Geometry) (drv : Driver D) where
  -- A call's new state with its reply as a caller hands it on.
  abbrev pub written : D × Reply (Unit {0}) → D × Outcome (Unit {0})
  written r = (r.0, outcome r.1)

  -- No bytes are left after the one round.
  ends_at :
      (left block off : ℕ) (bytes : List ℕ) (n : ℕ) (r : D × Reply (Unit {0}))
      → n ≡ 0
      → elim r.1 [
        | done u ↦ rawprog_loop g drv r.0 (suc left) block off n bytes
        | failed e ↦ (r.0, err e)
      ]
        ≡ written r
  unfolding rawprog_loop
  ends_at left block off bytes n (d, done tt) e = rw e refl
  ends_at left block off bytes n (d, failed e') e = refl

  rawprog_loop-suc :
      (left block off size delta : ℕ) (bytes : List ℕ) (d : D)
      → 0 < size
      → off + size ≤ g.erase_size
      → off + size < 2 ^ 64
      → size % g.write_size ≡ 0
      → delta ≡ lfs_min size (add64 off g.erase_size)
      → let off' = add64 off delta in
        let r = drv.write d block off (take delta bytes) in
        rawprog_loop g drv d (suc left) block off size bytes ≡ elim r.1 [
          | done u ↦
              rawprog_loop g drv r.0 left
                (if off' == g.erase_size then add64 block 1 else block)
                (if off' == g.erase_size then 0 else off')
                (size - delta)
                (drop delta bytes)
          | failed e ↦ (r.0, err e)
        ]
  unfolding rawprog_loop
  rawprog_loop-suc left block off size delta bytes d pos fits small whole e = rw e (ground arith)

  rawprog_loop_one :
      (left block off size : ℕ) (bytes : List ℕ) (d : D)
      → 0 < size
      → off + size ≤ g.erase_size
      → g.erase_size + g.erase_size < 2 ^ 64
      → size % g.write_size ≡ 0
      → rawprog_loop g drv d (suc (suc left)) block off size bytes
        ≡ written (drv.write d block off (take size bytes))
  rawprog_loop_one left block off size bytes d pos fits wide whole =
      let e : size ≡ lfs_min size (add64 off g.erase_size) = unfold lfs_min in ground arith in
      let off' = add64 off size in
      rawprog_loop-suc (suc left) block off size size bytes d pos fits (omega arith) whole e
      ∙ ends_at left (if off' == g.erase_size then add64 block 1 else block)
          (if off' == g.erase_size then 0 else off') (drop size bytes) (size - size)
          (drv.write d block off (take size bytes)) (omega arith)

  -- A write past the caches that is not empty, in range, aligned and in one erase unit is a single
  -- call of the device's `write`, at the unit and the offset in it, with so many of the bytes,
  -- where the units' addresses and sums of offsets fit 64 bits.
  pub rawprog_one :
      (block off size : ℕ) (bytes : List ℕ) (d : D)
      → 0 < size
      → block < g.block_count
      → off + size ≤ g.block_size
      → off % g.erase_size + size ≤ g.erase_size
      → size % g.write_size ≡ 0
      → g.erase_size + g.erase_size < 2 ^ 64
      → g.block_size < 2 ^ 64
      → g.block_count * (g.block_size / g.erase_size) < 2 ^ 64
      → rawprog g drv d block off bytes size
        ≡ written (
            drv.write d
              (block * (g.block_size / g.erase_size) + off / g.erase_size)
              (off % g.erase_size)
              (take size bytes))
  rawprog_one block off (suc s) bytes d pos inside fits unit whole wide small total =
      let k = g.block_size / g.erase_size in
      let size = suc s in
      let up : block * k + k ≤ g.block_count * k = omega (arith, mul-le-mul_right k inside) in
      let over : off / g.erase_size ≤ k =
        (le-div_iff_mul-le {k = g.erase_size} (omega arith)).1
          (omega (arith, div-mul-le_self off g.erase_size)) in
      let address : add64 (mul64 block k) (off / g.erase_size) ≡ block * k + off / g.erase_size =
        omega arith in
      let enter : rawprog g drv d block off bytes size
          ≡ rawprog_loop g drv d (suc size) (add64 (mul64 block k) (off / g.erase_size))
              (off % g.erase_size) size bytes =
        unfold rawprog in ground arith in
      enter
      ∙ rw address (
          rawprog_loop_one s (block * k + off / g.erase_size) (off % g.erase_size) size bytes d pos
            unit wide whole)
  rawprog_one block off zero bytes d pos inside fits unit whole wide small total =
      absurd (omega arith)
