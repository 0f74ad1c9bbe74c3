-- ===== src/Device/Erase.antt =====
-- `lfs_bd_erase`: a block's erase units, one after the other.
pub mod Units
use littlefs_v.Base.{
  ℕ, zero, suc, ◌+◌, ◌*◌, ◌/◌, ◌^◌, ◌≤◌, ◌<◌, List, [], ◌∷◌, tabulate, Bool, not, ltb,
  if◌then◌else◌, add64, mul64, ◌≡◌, refl, ap, ◌∙◌, arith,
}
use littlefs_v.Errors.{Error, Outcome, ok, err, abort, out_of_fuel, fault}
use littlefs_v.Device.{Geometry, Driver, Reply, done, failed}

module _ {D : Type 0} (g : Geometry) (drv : Driver D) where
  -- The units from `idx` on, `left` of them.
  unfoldable pub erase_loop : ℕ → ℕ → ℕ → D → D × Outcome (Unit {0})
  erase_loop zero block idx d = (d, ok tt)
  erase_loop (suc left) block idx d =
      let r = drv.erase d (add64 block idx) in
      elim r.1 [ done u ↦ erase_loop left block (suc idx) r.0 | failed e ↦ (r.0, err e) ]

  unfoldable pub bd_erase : ℕ → D → D × Outcome (Unit {0})
  bd_erase block d =
      let units = g.block_size / g.erase_size in
      if ltb block g.block_count then erase_loop units (mul64 block units) 0 d else (d, abort)
