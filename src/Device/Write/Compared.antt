-- ===== src/Device/Write/Compared.antt =====
-- The loop of `lfs_bd_cmp`, piece by piece.
use littlefs_v.Base.{
  ℕ, zero, suc, ◌+◌, ◌-◌, ◌^◌, ◌≤◌, ◌<◌, List, [], ◌∷◌, ◌++◌, false, ◌==◌, add64, sub64, take, drop,
  length, Option, ◌≡◌, refl, arith, length-take, length-drop,
}
use littlefs_v.Errors.{Outcome, ok, err, abort, out_of_fuel, fault}
use littlefs_v.Utility.Align.{lfs_min}
use littlefs_v.Device.{Geometry, Driver, Cache}
use littlefs_v.Device.View.{IsPlacedWrite, Reads, IsGeometry}
use littlefs_v.Device.Read.{bd_read}
use littlefs_v.Device.Read.Step.{IsReady}
use littlefs_v.Device.Read.Loop.{IsRead, bd_read-IsRead}
use littlefs_v.Device.Write.{Cmp, piece, cmp_loop, bd_cmp}
use littlefs_v.Device.Write.Compare.{
  IsCompared, take-drop, piece-IsCompared, first-IsCompared, rest-IsCompared,
}

module _ {D : Type 0} (g : Geometry) (drv : Driver D) (d : D) (disk : ℕ → ℕ → ℕ) (v : IsGeometry g)
    (reads : Reads drv d disk) (wc : Option Cache) (block : ℕ) (wp : IsPlacedWrite g wc)
    (inside : block < g.block_count) where
  -- What the loop makes of a piece and of the rest.
  abbrev followed : Cache × Outcome Cmp → Cache × Outcome Cmp → Cache × Outcome Cmp
  followed r rest = elim r.1 [
    | ok c ↦ elim c [ Cmp.eq ↦ rest | Cmp.lt ↦ (r.0, ok Cmp.lt) | Cmp.gt ↦ (r.0, ok Cmp.gt) ]
    | err e ↦ (r.0, err e)
    | abort ↦ (r.0, abort)
    | out_of_fuel ↦ (r.0, out_of_fuel)
    | fault ↦ (r.0, fault)
  ]

  followed-IsCompared :
      (offset : ℕ) (xs ys : List ℕ) (r rest : Cache × Outcome Cmp)
      → IsCompared g drv d disk wc block offset xs r
      → (IsReady g disk r.0 → IsCompared g drv d disk wc block (offset + length xs) ys rest)
      → IsCompared g drv d disk wc block offset (xs ++ ys) (followed r rest)
  followed-IsCompared offset xs ys (rc, ok Cmp.eq) rest (h, ready) next =
      rest-IsCompared g drv d disk v reads wc block wp inside offset xs ys rest h (next ready)
  followed-IsCompared offset xs ys (rc, ok Cmp.lt) rest (h, ready) next = (
    first-IsCompared g drv d disk v reads wc block wp inside offset xs ys Cmp.lt (λ e. cc) h,
    ready,
  )
  followed-IsCompared offset xs ys (rc, ok Cmp.gt) rest (h, ready) next = (
    first-IsCompared g drv d disk v reads wc block wp inside offset xs ys Cmp.gt (λ e. cc) h,
    ready,
  )
  followed-IsCompared offset xs ys (rc, err e) rest h next = h
  followed-IsCompared offset xs ys (rc, abort) rest h next = h
  followed-IsCompared offset xs ys (rc, out_of_fuel) rest h next = h
  followed-IsCompared offset xs ys (rc, fault) rest h next = h

  module _ (hint : ℕ) (low_hint : hint ≤ 2 ^ 32) where
    cmp_loop-IsCompared :
        (left : ℕ) (rc : Cache) (offset idx : ℕ) (expected : List ℕ)
        → IsReady g disk rc
        → offset + (idx + length expected) ≤ g.block_size
        → idx + length expected ≤ hint
        → length expected < left
        → IsCompared g drv d disk wc block
            (offset + idx)
            expected
            (cmp_loop g drv d wc hint block left rc offset idx expected)
    unfolding cmp_loop
    cmp_loop-IsCompared zero rc offset idx expected ready fits ahead enough = absurd (omega arith)
    cmp_loop-IsCompared (suc left) rc offset idx [] ready fits ahead enough = (refl, ready)
    cmp_loop-IsCompared (suc left) rc offset idx (x ∷ xs) ready fits ahead enough =
        let expected = x ∷ xs in
        let diff = lfs_min (length expected) 256 in
        let some_bytes : 0 < diff = unfold lfs_min in ground arith in
        let no_more : diff ≤ length expected = unfold lfs_min in ground arith in
        let part = take diff expected in
        let rest = drop diff expected in
        let long : length part ≡ diff = omega (arith, length-take diff expected) in
        let short : length rest ≡ length expected - diff = length-drop diff expected in
        let at : add64 offset idx ≡ offset + idx = omega (arith, v.small) in
        let h : sub64 hint idx ≡ hint - idx = omega arith in
        let got = bd_read g drv d wc (sub64 hint idx) block rc (add64 offset idx) diff in
        let read : IsRead g drv d disk wc block (offset + idx) (length part) got =
          rw (at, h, long)
            (bd_read-IsRead g drv d disk v reads wc (hint - idx) block wp inside (omega arith)
              (omega arith) rc (offset + idx) diff ready (omega arith)) in
        let r = piece g drv got part in
        let first : IsCompared g drv d disk wc block (offset + idx) part r =
          piece-IsCompared g drv d disk v reads wc block wp inside (offset + idx) part got read in
        let next : ℕ = idx + diff in
        let there : offset + next ≡ offset + idx + length part = omega arith in
        let whole : part ++ rest ≡ expected = take-drop diff expected in
        let all =
          followed-IsCompared (offset + idx) part rest r
            (cmp_loop g drv d wc hint block left r.0 offset next rest) first
            (λ ready'. rw (← there) (
              cmp_loop-IsCompared left r.0 offset next rest ready' (omega arith) (omega arith)
                (omega arith))) in
        let more : (length expected == 0) ≡ false = ground arith in
        rw (cmp_loop, more) (rw whole at all)

    -- On a device whose sizes fit together, with one erase unit to a block, a comparison with
    -- bytes within a block below the count, with a hint of at least as many and at most 2 ^ 32,
    -- ends, on caches that are placed and a read cache that is ready: equal exactly if the bytes
    -- of the block, as the write cache and the device make them up, are those expected, and else less
    -- or greater as the first bytes that differ are; or with an error with which the device failed a
    -- read of that block.
    pub bd_cmp-IsCompared :
        (rc : Cache) (offset : ℕ) (expected : List ℕ)
        → IsReady g disk rc
        → offset + length expected ≤ g.block_size
        → length expected ≤ hint
        → IsCompared g drv d disk wc block offset expected
            (bd_cmp g drv d wc hint block rc offset expected)
    unfolding bd_cmp
    bd_cmp-IsCompared rc offset expected ready fits ahead =
        let start : offset + 0 ≡ offset = omega arith in
        rw start at (
          cmp_loop-IsCompared (suc (length expected)) rc offset 0 expected ready (omega arith)
            (omega arith) (omega arith))
