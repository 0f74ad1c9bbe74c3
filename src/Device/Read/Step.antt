-- ===== src/Device/Read/Step.antt =====
-- One round of the loop of `lfs_bd_read`: what it copies is what the block's readers should see,
-- what it fills is a coherent cache with the next byte in it, and it aborts nowhere.
use native.Mathlib.Nat.{mod-lt, mod-eq_of_lt, div-eq_of_lt, div_self}
use littlefs_v.Base.{
  ℕ, ◌+◌, ◌-◌, ◌*◌, ◌/◌, ◌%◌, ◌^◌, ◌≤◌, ◌<◌, true, false, ◌&&◌, ◌≡◌, refl, sym, ap, ap₂, ◌∙◌, ◌⊎◌,
  inl, inr, arith, List, ◌++◌, leb, ◌==◌, length, drop, Option, none, some, tabulate, tabulate_ext,
  length-tabulate, length-append, length-drop, get_or, get_or-tabulate, get_or-append_left,
  Bool-cases,
}
use littlefs_v.Base.Multiples.{gap_of_multiples}
use littlefs_v.Errors.{Outcome, ok, err, abort, out_of_fuel, fault}
use littlefs_v.Utility.Align.{lfs_aligndown, lfs_aligndown_bounds, lfs_aligndown-mod}
use littlefs_v.Device.{Geometry, Cache, Driver, Reply, done, failed, rawread}
use littlefs_v.Device.Raw.{outcome, rawread_one}
use littlefs_v.Device.View.{
  covers, byte_in, view, IsPlaced, IsPlacedWrite, IsCoherent, Reads, Fails, IsGeometry,
}
use littlefs_v.Device.Read.{
  Found, hit, limit, lookup, lookup_write, cached_write, Round, copied, filled, stopped, place,
  fill_with, bypass_with, missed, round,
}
use littlefs_v.Device.Read.Lookup.{IsLimit, lookup-IsHit, lookup-IsLimit, cached-eq-tabulate}
use littlefs_v.Device.Read.Place.{IsAround, place-IsAround}

-- A read cache fit for use.
pub record IsReady (g : Geometry) (disk : ℕ → ℕ → ℕ) (rc : Cache) : Type 0 where
  pub placed : IsPlaced g rc
  pub coherent : IsCoherent g.block_count rc disk
  pub room : g.cache_size ≤ length rc.buffer

-- What a result of the device has to be: bytes as they stand there, or an error.
abbrev IsDisk : {D : Type 0} → Driver D → D → (ℕ → ℕ → ℕ) → ℕ → ℕ → ℕ → Outcome (List ℕ) → Type 0
IsDisk drv d disk block off size (ok bytes) = bytes ≡ tabulate (disk block) off size
IsDisk drv d disk block off size (err e) = Fails drv d block e
IsDisk drv d disk block off size abort = ⊥
IsDisk drv d disk block off size out_of_fuel = ⊥
IsDisk drv d disk block off size fault = ⊥

module _ {D : Type 0} (g : Geometry) (drv : Driver D) (d : D) (disk : ℕ → ℕ → ℕ) (v : IsGeometry g)
    (reads : Reads drv d disk) where
  outcome-IsDisk :
      (block off size : ℕ) → IsDisk drv d disk block off size (outcome (drv.read d block off size))
  outcome-IsDisk block off size = go (drv.read d block off size) refl
    where
      go :
          (r : Reply (List ℕ))
          → drv.read d block off size ≡ r
          → IsDisk drv d disk block off size (outcome r)
      go (done bytes) e = reads block off size bytes e
      go (failed e') e = (off, size, e)

  -- With one erase unit to a block, a read past the caches reaches the device at the same address.
  rawread-IsDisk :
      (block off size : ℕ)
      → 0 < size
      → block < g.block_count
      → off + size ≤ g.block_size
      → size % g.read_size ≡ 0
      → IsDisk drv d disk block off size (rawread g drv d block off size)
  rawread-IsDisk block off size pos inside fits whole =
      let wide : off + size ≤ 2 ^ 32 = omega (arith, v.small) in
      let unit : g.block_size / g.erase_size ≡ 1 =
        ap (λ t. g.block_size / t) v.one_unit ∙ div_self (omega arith) in
      let off_div : off / g.erase_size ≡ 0 = div-eq_of_lt (omega (arith, v.one_unit)) in
      let off_mod : off % g.erase_size ≡ off = mod-eq_of_lt (omega (arith, v.one_unit)) in
      let address : block * (g.block_size / g.erase_size) + off / g.erase_size ≡ block =
        ap (λ t. block * t + off / g.erase_size) unit ∙ omega (arith, off_div) in
      let total : g.block_count * (g.block_size / g.erase_size) ≡ g.block_count =
        ap (λ t. g.block_count * t) unit ∙ omega arith in
      let one : rawread g drv d block off size ≡ outcome (drv.read d block off size) =
        rawread_one g drv d block off size pos inside fits (omega (arith, off_mod, v.one_unit))
          whole (omega (arith, v.one_unit, v.small)) (omega (arith, v.small))
          (omega (arith, total, v.few))
        ∙ rw (address, off_mod) in
      rw one (outcome-IsDisk block off size)

  module _ (wc : Option Cache) (hint block : ℕ) (wp : IsPlacedWrite g wc)
      (inside : block < g.block_count) (pos_hint : 0 < hint) (low_hint : hint ≤ 2 ^ 32) where
    -- What a round has done for the `size` bytes from `offset` on.
    abbrev pub IsRound : Cache → ℕ → ℕ → Round → Type 0
    IsRound rc offset size (copied n bytes) =
        (0 < n) × (n ≤ size) × (bytes ≡ tabulate (view wc disk block) offset n)
    IsRound rc offset size (filled rc') =
        IsReady g disk rc' × (covers rc' block offset ≡ true) × (covers rc block offset ≡ false)
    IsRound rc offset size (stopped rc' (err e)) = Fails drv d block e
    IsRound rc offset size (stopped rc' (ok bytes)) = ⊥
    IsRound rc offset size (stopped rc' abort) = ⊥
    IsRound rc offset size (stopped rc' out_of_fuel) = ⊥
    IsRound rc offset size (stopped rc' fault) = ⊥

    -- The write cache has none of the `n` bytes.
    abbrev Beside : ℕ → ℕ → Type 0
    Beside offset n = (i : ℕ) → offset ≤ i → i < offset + n → view wc disk block i ≡ disk block i

    fill_with-IsRound :
        (rc pc : Cache) (offset size : ℕ) (r : Outcome (List ℕ))
        → covers rc block offset ≡ false
        → IsAround g block offset pc
        → g.cache_size ≤ length pc.buffer
        → IsDisk drv d disk block pc.offset pc.size r
        → IsRound rc offset size (fill_with pc r)
    unfolding fill_with
    fill_with-IsRound rc pc offset size (ok bytes) miss around room at_disk =
        let long : length bytes ≡ pc.size =
          ap length at_disk ∙ length-tabulate (disk block) pc.offset pc.size in
        let all = bytes ++ drop (length bytes) pc.buffer in
        let total : length all ≡ length pc.buffer = omega (
          arith,
          length-append bytes (drop (length bytes) pc.buffer),
          length-drop (length bytes) pc.buffer,
          long,
          around.in_buffer,
        ) in
        (
          record {
            placed = record {
              fits = omega (arith, total, around.in_buffer);
              bound = omega (arith, around.in_block, v.small);
              aligned = around.aligned;
            };
            coherent = λ o from to below.
                get_or-append_left bytes (drop (length bytes) pc.buffer) (o - pc.offset) 0
                  (omega (arith, long))
                ∙ ap (λ l. get_or l (o - pc.offset) 0) at_disk
                ∙ get_or-tabulate (disk block) pc.offset pc.size (o - pc.offset) 0 (omega arith)
                ∙ ap₂ disk (sym around.same_block) (omega arith);
            room = omega (arith, total);
          },
          ground (arith, around),
          miss,
        )
    fill_with-IsRound rc pc offset size (err e) miss around room at_disk = at_disk
    fill_with-IsRound rc pc offset size abort miss around room at_disk = at_disk
    fill_with-IsRound rc pc offset size out_of_fuel miss around room at_disk = at_disk
    fill_with-IsRound rc pc offset size fault miss around room at_disk = at_disk

    bypass_with-IsRound :
        (rc : Cache) (offset size diff : ℕ) (r : Outcome (List ℕ))
        → Beside offset diff
        → 0 < diff
        → diff ≤ size
        → IsDisk drv d disk block offset diff r
        → IsRound rc offset size (bypass_with rc diff r)
    unfolding bypass_with
    bypass_with-IsRound rc offset size diff (ok bytes) beside pos no_more at_disk = (
      pos,
      no_more,
      at_disk
          ∙ tabulate_ext (disk block) (view wc disk block) offset diff
              (λ i from to. sym (beside i from to)),
    )
    bypass_with-IsRound rc offset size diff (err e) beside pos no_more at_disk = at_disk
    bypass_with-IsRound rc offset size diff abort beside pos no_more at_disk = at_disk
    bypass_with-IsRound rc offset size diff out_of_fuel beside pos no_more at_disk = at_disk
    bypass_with-IsRound rc offset size diff fault beside pos no_more at_disk = at_disk

    -- What the write cache says, in terms of the view.
    write-hit :
        (c : Option Cache) (offset size n : ℕ)
        → IsPlacedWrite g c
        → 0 < size
        → lookup_write c block offset size ≡ hit n
        → (0 < n) × (n ≤ size) × (cached_write c offset n ≡ tabulate (view c disk block) offset n)
    unfolding lookup_write cached_write
    write-hit none offset size n p pos e = absurd (cc)
    write-hit (some c) offset size n p pos e =
        let h = lookup-IsHit {g = g} c block offset size p pos n e in
        (
          h.some_bytes,
          h.no_more,
          cached-eq-tabulate c offset n h.from_start h.to_end p.fits
              ∙ tabulate_ext (byte_in c) (view (some c) disk block) offset n
                  (λ i from to. ground (arith, h)),
        )

    write-limit :
        (c : Option Cache) (offset size n : ℕ)
        → IsPlacedWrite g c
        → 0 < size
        → lookup_write c block offset size ≡ limit n
        → (0 < n)
          × (n ≤ size)
          × ((i : ℕ) → offset ≤ i → i < offset + n → view c disk block i ≡ disk block i)
          × ((n ≡ size) ⊎ ((offset + n) % g.read_size ≡ 0))
    unfolding lookup_write
    write-limit none offset size n p pos e =
        (ground arith, ground arith, λ i from to. refl, inl (ground arith))
    write-limit (some c) offset size n p pos e =
        let l = lookup-IsLimit {g = g} c block offset size p pos n e in
        (
          l.some_bytes,
          l.no_more,
          (λ i from to. ground (arith, l)),
          elim l.length [
            | inl all ↦ inl all
            | inr up ↦ inr (ap (λ t. t % g.read_size) up ∙ p.aligned)
          ],
        )

    aligndown_pos : (diff : ℕ) → g.read_size ≤ diff → 0 < lfs_aligndown diff g.read_size
    unfolding lfs_aligndown
    aligndown_pos diff h = omega (arith, mod-lt diff v.reads, v.reads)

    missed-IsRound :
        (rc : Cache) (offset size diff : ℕ)
        → IsReady g disk rc
        → 0 < size
        → offset + size ≤ g.block_size
        → covers rc block offset ≡ false
        → Beside offset diff
        → 0 < diff
        → diff ≤ size
        → (diff ≡ size) ⊎ ((offset + diff) % g.read_size ≡ 0)
        → IsRound rc offset size (missed g drv d hint block rc offset size diff)
    unfolding missed place
    missed-IsRound rc offset size diff ready pos fits miss beside pos' no_more end =
        elim (Bool-cases (leb hint size && (offset % g.read_size == 0 && leb g.read_size size))) [
          | inl large ↦
              rw (large, missed)
                (let n = lfs_aligndown diff g.read_size in
                  let down = lfs_aligndown_bounds diff g.read_size v.reads in
                  let start : offset % g.read_size ≡ 0 = ground arith in
                  let enough : g.read_size ≤ size = ground arith in
                  let wide : g.read_size ≤ diff = elim end [
                    | inl all ↦ omega arith
                    | inr up ↦ gap_of_multiples offset diff g.read_size start up pos'
                  ] in
                  let moves : 0 < n = omega (arith, aligndown_pos diff wide) in
                  bypass_with-IsRound rc offset size n (rawread g drv d block offset n)
                    (λ i from to. beside i from (omega (arith, down))) moves (omega (arith, down))
                    (rawread-IsDisk block offset n moves inside (omega (arith, down))
                      (lfs_aligndown-mod diff g.read_size)))
          | inr small ↦
              rw (small, missed)
                (let pc = place g rc hint block offset in
                  let around =
                    place-IsAround g rc hint block offset v pos_hint low_hint (omega arith) in
                  fill_with-IsRound rc pc offset size (rawread g drv d pc.block pc.offset pc.size)
                    miss around ready.room
                    (rw (around.same_block) (
                      rawread-IsDisk block pc.offset pc.size
                        (omega (arith, around.past, around.from_start)) inside around.in_block
                        around.whole)))
        ]

    Found-cases : (f : Found) → ((n : ℕ) × (f ≡ hit n)) ⊎ ((n : ℕ) × (f ≡ limit n))
    Found-cases (hit n) = inl (n, refl)
    Found-cases (limit n) = inr (n, refl)

    limit-miss :
        (rc : Cache) (offset diff n : ℕ)
        → IsLimit rc block offset diff n
        → covers rc block offset ≡ false
    limit-miss rc offset diff n l = ground (arith, l.some_bytes, l.outside)

    pub round-IsRound :
        (rc : Cache) (offset size : ℕ)
        → IsReady g disk rc
        → 0 < size
        → offset + size ≤ g.block_size
        → IsRound rc offset size (round g drv d wc hint block rc offset size)
    unfolding round
    round-IsRound rc offset size ready pos fits =
        elim (Found-cases (lookup_write wc block offset size)) [
          | inl (n, e) ↦ rw (e, round) (write-hit wc offset size n wp pos e)
          | inr (diff, e) ↦
              (let w = write-limit wc offset size diff wp pos e in
                elim (Found-cases (lookup rc block offset diff)) [
                  | inl (n, e') ↦
                      (let h = lookup-IsHit {g = g} rc block offset diff ready.placed w.0 n e' in
                        rw (e, round)
                          (rw e' (
                            h.some_bytes,
                            omega (arith, h.no_more, w),
                            cached-eq-tabulate rc offset n h.from_start h.to_end ready.placed.fits
                                ∙ tabulate_ext (byte_in rc) (view wc disk block) offset n
                                    (λ i from to.
                                      ready.coherent i (omega (arith, h.from_start))
                                        (omega (arith, h.to_end)) (omega (arith, h.same_block))
                                      ∙ ap (λ b. disk b i) (sym h.same_block)
                                      ∙ sym (w.2 i from (omega (arith, h.no_more)))),
                          )))
                  | inr (diff', e') ↦
                      (let l =
                          lookup-IsLimit {g = g} rc block offset diff ready.placed w.0 diff' e' in
                        rw (e, round)
                          (rw e' (
                            missed-IsRound rc offset size diff' ready pos fits
                              (limit-miss rc offset diff diff' l)
                              (λ i from to. w.2 i from (omega (arith, l.no_more))) l.some_bytes
                              (omega (arith, l.no_more, w))
                              (elim l.length [
                                | inl same ↦ elim w.3 [
                                  | inl all ↦ inl (same ∙ all)
                                  | inr up ↦ inr (ap (λ t. (offset + t) % g.read_size) same ∙ up)
                                ]
                                | inr up ↦ inr (ap (λ t. t % g.read_size) up ∙ ready.placed.aligned)
                              ]))))
                ])
        ]
