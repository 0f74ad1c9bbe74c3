-- ===== src/Allocator/Alloc.antt =====
-- `lfs_alloc` as a whole: it ends, with a free block that is not handed out twice, or with
-- LFS_ERR_NOSPC where no block is free.
use native.Mathlib.Nat.{mod-lt, mod-add-mod}
use littlefs_v.Base.{
  ℕ, zero, suc, ◌+◌, ◌-◌, ◌%◌, ◌^◌, ◌≤◌, ◌<◌, true, false, List, [], ◌∷◌, Option, none, ◌||◌, ◌==◌,
  ◌≡◌, refl, sym, ap, ◌∙◌, arith, length, Bool-cases, inl, inr, ◌⊎◌, add64,
}
use littlefs_v.Errors.{Error, Outcome, ok, err, abort, out_of_fuel, fault}
use littlefs_v.Allocator.{Free, Traversal, Volume, hand_out, grown, alloc, alloc_drop, alloc_ack}
use littlefs_v.Allocator.Scan.{member, advance, taken, AllTaken, skip-Skipped, scan-Scanned}
use littlefs_v.Allocator.Window.{AllBelow}
use littlefs_v.Allocator.Ring.{IsRing, fresh, none_left, IsRing-advance, IsRing-hand}
use littlefs_v.Allocator.Refill.{IsLookahead, next_window-IsRefilled}

-- What a call leaves, where the blocks of `used` are in use and those of `handed` have been handed out
-- since the last acknowledgement: a free block that is in neither, or the knowledge that every block
-- is in one of them. It neither faults nor runs out of windows.
abbrev pub IsAlloc : ℕ → List ℕ → List ℕ → ℕ → ℕ → Volume × Outcome ℕ → Type 0
IsAlloc words used handed bc base (v, ok b) =
    (b < bc)
    × (member used b ≡ false)
    × (member handed b ≡ false)
    × (v.block_count ≡ bc)
    × IsRing words used (b ∷ handed) bc base v.free
IsAlloc words used handed bc base (v, err e) =
    (e ≡ Error.nospc)
    × ((b : ℕ) → b < bc → (member used b || member handed b) ≡ true)
    × (v.block_count ≡ bc)
    × IsRing words used handed bc base v.free
IsAlloc words used handed bc base (v, abort) = ⊥
IsAlloc words used handed bc base (v, out_of_fuel) = ⊥
IsAlloc words used handed bc base (v, fault) = ⊥

advance-suc : (f : Free) (n : ℕ) → advance (advance f n) 1 ≡ advance f (suc n)
advance-suc f n =
    let e : f.i + n + 1 ≡ f.i + suc n = omega arith in
    let e' : f.ack - n - 1 ≡ f.ack - suc n = omega arith in λ k. record f { i = e k; ack = e' k }

module _ (lookahead_size words bc base : ℕ) (grow : Option (ℕ → Option ℕ)) (handed : List ℕ)
    (t : Traversal) (l : IsLookahead lookahead_size words bc) (below : AllBelow bc t.blocks)
    (ends : t.result ≡ none) (full : grown lookahead_size grow t bc ≡ none) where
  hand_out-IsAlloc :
      (f : Free) (n : ℕ)
      → IsRing words t.blocks handed bc base f
      → AllTaken t.blocks bc f n
      → f.i + n < f.size
      → taken t.blocks bc f (f.i + n) ≡ false
      → IsAlloc words t.blocks handed bc base
          (hand_out (record { free = f; block_count = bc }) (f.i + n) (advance f (suc n)))
  unfolding hand_out
  hand_out-IsAlloc f n r all h free =
      let b = (f.offset + (f.i + n)) % bc in
      let at : IsRing words t.blocks handed bc base (advance f n) =
        IsRing-advance words t.blocks handed bc base f n r (omega arith) all in
      let past : IsRing words t.blocks (b ∷ handed) bc base (advance f (suc n)) =
        rw (← advance-suc f n) (IsRing-hand words t.blocks handed bc base (advance f n) at h) in
      let g = advance f (suc n) in
      let s = skip-Skipped t.blocks bc (suc (g.size - g.i)) g past.window (omega arith) in
      let address : add64 f.offset (f.i + n) ≡ f.offset + (f.i + n) =
        omega (arith, r.small, r.inside, r.short) in
      rw (hand_out, s.returns, address)
        (
          mod-lt (f.offset + (f.i + n)) (omega (arith, r.start)),
          free,
          fresh words t.blocks handed bc base f n r h,
          refl,
          IsRing-advance words t.blocks (b ∷ handed) bc base g s.n past s.inside s.all_taken,
        )

  -- Windows enough: one for each block left, and one more unless the search has blocks to look at.
  abbrev Enough : ℕ → Free → Type 0
  Enough fuel f = (f.ack < fuel) ⊎ ((f.i < f.size) × (f.ack ≤ fuel))

  Enough-next :
      (fuel n : ℕ) (f : Free)
      → Enough (suc fuel) f
      → f.i + n ≡ f.size
      → f.size ≤ f.i + f.ack
      → 0 < f.ack - n
      → f.ack - n ≤ fuel
  Enough-next fuel n f (inl h) end w p = omega arith
  Enough-next fuel n f (inr h) end w p = omega (arith, h)

  alloc_windows :
      (fuel : ℕ) (f : Free)
      → IsRing words t.blocks handed bc base f
      → Enough fuel f
      → IsAlloc words t.blocks handed bc base
          (alloc lookahead_size grow t fuel (record { free = f; block_count = bc }))
  unfolding alloc
  alloc_windows zero f r (inl h) = absurd (omega arith)
  alloc_windows zero f r (inr h) = absurd (omega (arith, h, r.window.left))
  alloc_windows (suc fuel) f r enough =
      let s = scan-Scanned t.blocks bc (suc (f.size - f.i)) f r.window (omega arith) in
      elim s.returns [
        | inl found ↦ rw (alloc, found.0) (hand_out-IsAlloc f s.n r s.all_taken found.1 found.2)
        | inr end ↦
            (let f1 = advance f s.n in
              let r1 : IsRing words t.blocks handed bc base f1 =
                IsRing-advance words t.blocks handed bc base f s.n r (omega (arith, end.1))
                  s.all_taken in
              elim (Bool-cases (f1.ack == 0)) [
                | inl z ↦
                    rw (alloc, end.0, z, full)
                      (
                        refl,
                        λ b h. none_left words t.blocks handed bc base f1 b r1 (ground arith) h,
                        refl,
                        r1,
                      )
                | inr more ↦
                    (let n =
                        next_window-IsRefilled lookahead_size words bc base handed t l below ends f1
                          r1 end.1 (ground arith) in
                      rw (alloc, end.0, more, n.returns)
                        (alloc_windows fuel n.f' n.ring (
                          inr (
                            omega (arith, n.first, n.all),
                            omega (
                              arith,
                              n.left,
                              Enough-next fuel s.n f enough end.1 r.window.left (ground arith),
                            ),
                          ))))
              ])
      ]

  -- While the device does not grow and every traversal succeeds with blocks below the count, and
  -- with a buffer that has a bit for each block, `lfs_alloc` ends, on a ring and with more windows
  -- than it may still look at blocks: with a block below the count that is neither in use nor
  -- handed out, and a ring on which it is handed out; or with LFS_ERR_NOSPC, and then every block
  -- below the count is in use or has been handed out.
  pub alloc-IsAlloc :
      (fuel : ℕ) (f : Free)
      → IsRing words t.blocks handed bc base f
      → f.ack < fuel
      → IsAlloc words t.blocks handed bc base
          (alloc lookahead_size grow t fuel (record { free = f; block_count = bc }))
  alloc-IsAlloc fuel f r h = alloc_windows fuel f r (inl h)

-- `lfs_alloc_drop` leaves a ring on which no block has been handed out, whatever blocks are in use
-- and whatever the window was, where its offset is below the block count and that below 2 ^ 63.
pub alloc_drop-IsRing :
    (words : ℕ) (used : List ℕ) (bc : ℕ) (f : Free)
    → bc < 2 ^ 63
    → f.offset < bc
    → length f.buffer ≡ words
    → IsRing words used [] bc f.offset (alloc_drop bc f)
unfolding alloc_drop alloc_ack
alloc_drop-IsRing words used bc f small inside long = record {
  small = small;
  start = inside;
  inside = inside;
  short = omega arith;
  ack = omega arith;
  long = long;
  window = record {
    at = omega arith;
    left = omega arith;
    small = omega arith;
    low = small;
    marks = λ o h p. absurd (omega arith);
  };
  place = ap (λ k. (f.offset + k) % bc) (omega arith);
  passed = λ k p. absurd (omega arith);
  recent = tt;
}

-- `lfs_alloc_ack` makes a ring of a ring, on which the blocks handed out before no longer count and all
-- blocks may be looked at again, from the place of the search on.
pub alloc_ack-IsRing :
    (words : ℕ) (used handed : List ℕ) (bc base : ℕ) (f : Free)
    → IsRing words used handed bc base f
    → IsRing words used [] bc ((f.offset + f.i) % bc) (alloc_ack bc f)
unfolding alloc_ack
alloc_ack-IsRing words used handed bc base f r = record {
  small = r.small;
  start = mod-lt (f.offset + f.i) (omega (arith, r.start));
  inside = r.inside;
  short = r.short;
  ack = omega arith;
  long = r.long;
  window = record {
    at = r.window.at;
    left = omega (arith, r.short);
    small = r.window.small;
    low = r.small;
    marks = r.window.marks;
  };
  place =
      (let none_yet : bc - bc ≡ 0 = omega arith in
        sym (
          mod-add-mod (f.offset + f.i) bc (bc - bc)
          ∙ ap (λ k. (f.offset + f.i + k) % bc) none_yet
          ∙ ap (λ k. k % bc) (omega arith)));
  passed = λ k p. absurd (omega arith);
  recent = tt;
}
