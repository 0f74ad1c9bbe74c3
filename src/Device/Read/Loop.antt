-- ===== src/Device/Read/Loop.antt =====
-- `lfs_bd_read` as a whole: it ends, and what it returns is the view of the block.
use littlefs_v.Base.{
  ℕ, zero, suc, ◌+◌, ◌-◌, ◌^◌, ◌≤◌, ◌<◌, true, false, ◌||◌, ◌≡◌, refl, ap, ◌∙◌, ◌⊎◌, inl, inr,
  arith, List, leb, ltb, ◌==◌, Option, tabulate, append-tabulate, add64,
}
use littlefs_v.Errors.{Outcome, ok, err, abort, out_of_fuel, fault, prepend}
use littlefs_v.Device.{Geometry, Cache, Driver}
use littlefs_v.Device.View.{covers, view, IsPlacedWrite, Reads, Fails, IsGeometry}
use littlefs_v.Device.Read.{Round, copied, filled, stopped, round, read_loop, bd_read}
use littlefs_v.Device.Read.Step.{IsReady, IsRound, round-IsRound}

-- What a call leaves: the bytes of the view, with a read cache fit for use; or an error
-- with which the device failed a read of that block. It neither fails an assertion nor runs out of rounds.
abbrev pub IsRead :
    {D : Type 0}
    → Geometry
    → Driver D
    → D
    → (ℕ → ℕ → ℕ)
    → Option Cache
    → ℕ
    → ℕ
    → ℕ
    → Cache × Outcome (List ℕ)
    → Type 0
IsRead g drv d disk wc block offset size (rc, ok bytes) =
    (bytes ≡ tabulate (view wc disk block) offset size) × IsReady g disk rc
IsRead g drv d disk wc block offset size (rc, err e) = Fails drv d block e
IsRead g drv d disk wc block offset size (rc, abort) = ⊥
IsRead g drv d disk wc block offset size (rc, out_of_fuel) = ⊥
IsRead g drv d disk wc block offset size (rc, fault) = ⊥

module _ {D : Type 0} (g : Geometry) (drv : Driver D) (d : D) (disk : ℕ → ℕ → ℕ) (v : IsGeometry g)
    (reads : Reads drv d disk) where
  module _ (wc : Option Cache) (hint block : ℕ) (wp : IsPlacedWrite g wc)
      (inside : block < g.block_count) (pos_hint : 0 < hint) (low_hint : hint ≤ 2 ^ 32) where
    prepend-IsRead :
        (offset size n : ℕ) (bytes : List ℕ) (r : Cache × Outcome (List ℕ))
        → n ≤ size
        → bytes ≡ tabulate (view wc disk block) offset n
        → IsRead g drv d disk wc block (offset + n) (size - n) r
        → IsRead g drv d disk wc block offset size (r.0, prepend bytes r.1)
    prepend-IsRead offset size n bytes (rc, ok rest) h e (e', ready) = (
      rw (e, e')
          (append-tabulate (view wc disk block) offset n (size - n) (offset + n) refl
            ∙ ap (tabulate (view wc disk block) offset) (omega arith)),
      ready,
    )
    prepend-IsRead offset size n bytes (rc, err e') h e p = p
    prepend-IsRead offset size n bytes (rc, abort) h e p = p
    prepend-IsRead offset size n bytes (rc, out_of_fuel) h e p = p
    prepend-IsRead offset size n bytes (rc, fault) h e p = p

    -- Two rounds for each byte, and one more unless the read cache has just been filled.
    abbrev Enough : ℕ → Cache → ℕ → ℕ → Type 0
    Enough fuel rc offset size =
        (size + size < fuel) ⊎ ((covers rc block offset ≡ true) × (0 < size) × (size + size ≤ fuel))

    abbrev Cases : Round → Type 0
    Cases r =
        ((n : ℕ) × (bytes : List ℕ) × (r ≡ copied n bytes))
        ⊎ (((rc : Cache) × (r ≡ filled rc))
            ⊎ ((rc : Cache) × (o : Outcome (List ℕ)) × (r ≡ stopped rc o)))

    Round-Cases : (r : Round) → Cases r
    Round-Cases (copied n bytes) = inl (n, bytes, refl)
    Round-Cases (filled rc) = inr (inl (rc, refl))
    Round-Cases (stopped rc o) = inr (inr (rc, o, refl))

    stopped-IsRead :
        (rc rc' : Cache) (offset size : ℕ) (o : Outcome (List ℕ))
        → IsRound g drv d disk v reads wc hint block wp inside pos_hint low_hint rc offset size
            (stopped rc' o)
        → IsRead g drv d disk wc block offset size (rc', o)
    stopped-IsRead rc rc' offset size (ok bytes) f = absurd f
    stopped-IsRead rc rc' offset size (err e) f = f
    stopped-IsRead rc rc' offset size abort f = f
    stopped-IsRead rc rc' offset size out_of_fuel f = f
    stopped-IsRead rc rc' offset size fault f = f

    -- The one more round is still there when the next byte was in no cache.
    Enough-left :
        (fuel size : ℕ) (rc : Cache) (offset : ℕ)
        → covers rc block offset ≡ false
        → Enough (suc fuel) rc offset size
        → size + size ≤ fuel
    Enough-left fuel size rc offset miss (inl h) = omega arith
    Enough-left fuel size rc offset miss (inr h) = absurd (cc (h.0))

    read_loop-IsRead :
        (fuel : ℕ) (rc : Cache) (offset size : ℕ)
        → IsReady g disk rc
        → offset + size ≤ g.block_size
        → Enough fuel rc offset size
        → IsRead g drv d disk wc block offset size
            (read_loop g drv d wc hint block fuel rc offset size)
    unfolding read_loop
    read_loop-IsRead zero rc offset size ready fits enough = absurd (omega arith)
    read_loop-IsRead (suc fuel) rc offset zero ready fits enough = (refl, ready)
    read_loop-IsRead (suc fuel) rc offset (suc n) ready fits enough =
        let size = suc n in
        let fact =
          round-IsRound g drv d disk v reads wc hint block wp inside pos_hint low_hint rc offset
            size ready (omega arith) fits in
        let more : (size == 0) ≡ false = ground arith in
        elim (Round-Cases (round g drv d wc hint block rc offset size)) [
          | inl (k, bytes, e) ↦
              (let f = rw e at fact in
                let next : add64 offset k ≡ offset + k = omega (arith, f, v.small) in
                rw (more, e, read_loop)
                  (prepend-IsRead offset size k bytes
                    (read_loop g drv d wc hint block fuel rc (add64 offset k) (size - k)) f.1 f.2
                    (rw next (
                      read_loop-IsRead fuel rc (offset + k) (size - k) ready (omega (arith, f))
                        (inl (omega (arith, f)))))))
          | inr (inl (rc', e)) ↦
              (let f = rw e at fact in
                rw (more, e, read_loop)
                  (read_loop-IsRead fuel rc' offset size f.0 fits
                    (inr (f.1, omega arith, Enough-left fuel size rc offset f.2 enough))))
          | inr (inr (rc', o, e)) ↦
              rw (more, e, read_loop) (stopped-IsRead rc rc' offset size o (rw e at fact))
        ]

    -- On a device whose sizes fit together, with one erase unit to a block, every read within a
    -- block below `block_count` that asks for a positive hint of at most 2 ^ 32 ends, on caches
    -- that are placed and a read cache that is ready: with the bytes of the block as the write
    -- cache and the device make them up, and a read cache that is ready again; or with an error of
    -- the device's own, from a read of that block.
    pub bd_read-IsRead :
        (rc : Cache) (offset size : ℕ)
        → IsReady g disk rc
        → offset + size ≤ g.block_size
        → IsRead g drv d disk wc block offset size (bd_read g drv d wc hint block rc offset size)
    unfolding bd_read
    bd_read-IsRead rc offset size ready fits =
        rw passes
          (read_loop-IsRead (suc (size + size)) rc offset size ready fits (inl (omega arith)))
      where
        passes : (leb g.block_count block || ltb g.block_size (add64 offset size)) ≡ false
        passes = ground (arith, v.small)
