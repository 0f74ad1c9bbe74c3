-- ===== src/Device/Erase/Units.antt =====
-- Which erase units a block's erase reaches.
use littlefs_v.Base.{
  ℕ, zero, suc, ◌+◌, ◌*◌, ◌/◌, ◌^◌, ◌≤◌, ◌<◌, List, [], ◌∷◌, tabulate, ltb, add64, mul64, ◌≡◌, refl,
  ap, ◌∙◌, arith, true,
}
use native.Mathlib.Nat.{mul-le-mul_right}
use littlefs_v.Errors.{Error, Outcome, ok, err}
use littlefs_v.Device.{Geometry, Driver, done, failed}
use littlefs_v.Device.Erase.{erase_loop, bd_erase}

module _ {D : Type 0} (g : Geometry) (drv : Driver D) where
  -- The units of a list, up to the first that fails.
  abbrev pub erase_each : List ℕ → D → D × Outcome (Unit {0})
  erase_each [] d = (d, ok tt)
  erase_each (b ∷ bs) d =
      let r = drv.erase d b in elim r.1 [ done u ↦ erase_each bs r.0 | failed e ↦ (r.0, err e) ]

  erase_loop-each :
      (left block idx : ℕ) (d : D)
      → block + idx + left < 2 ^ 64
      → erase_loop g drv left block idx d ≡ erase_each (tabulate (λ i. block + i) idx left) d
  unfolding erase_loop
  erase_loop-each zero block idx d h = refl
  erase_loop-each (suc left) block idx d h =
      let here : add64 block idx ≡ block + idx = omega arith in
      let stop : Error → D × Outcome (Unit {0}) = λ e. ((drv.erase d (block + idx)).0, err e) in
      ap {B = D × Outcome (Unit {0})}
        (λ n. elim (drv.erase d n).1 [
          | done u ↦ erase_loop g drv left block (suc idx) (drv.erase d n).0
          | failed e ↦ ((drv.erase d n).0, err e)
        ])
        here
      ∙ ap {B = D × Outcome (Unit {0})}
          (λ rest. elim (drv.erase d (block + idx)).1 [ done u ↦ rest | failed e ↦ stop e ])
          (erase_loop-each left block (suc idx) (drv.erase d (block + idx)).0 (omega arith))

  -- An erase of a block below the count erases the units of that block and no other, in order, up
  -- to the first that fails, and hands on that one's error, where the number of all units fits 64
  -- bits.
  pub bd_erase-each :
      (block : ℕ) (d : D)
      → block < g.block_count
      → g.block_count * (g.block_size / g.erase_size) < 2 ^ 64
      → let units = g.block_size / g.erase_size in
        bd_erase g drv block d ≡ erase_each (tabulate (λ i. block * units + i) 0 units) d
  unfolding bd_erase
  bd_erase-each block d h fits =
      let units = g.block_size / g.erase_size in
      let below : block * units + units ≤ g.block_count * units =
        omega (arith, mul-le-mul_right units h) in
      let base : mul64 block units ≡ block * units = omega arith in
      let inside : ltb block g.block_count ≡ true = ground arith in
      rw (bd_erase, inside, base) (erase_loop-each units (block * units) 0 d (omega arith))
