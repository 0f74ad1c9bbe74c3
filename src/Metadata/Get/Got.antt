-- ===== src/Metadata/Get/Got.antt =====
-- `lfs_dir_getslice` and `lfs_dir_get` through the caches come to the search through the log's tags.
use littlefs_v.Base.{
  ℕ, zero, suc, ◌+◌, ◌-◌, ◌^◌, ◌≤◌, ◌<◌, List, ◌++◌, true, false, leb, ltb, none, add32, add64,
  sub64, replicate, tabulate, ◌≡◌, refl, inl, inr, arith, Bool-cases,
}
use littlefs_v.Errors.{Outcome, ok, err, signed_result}
use littlefs_v.Utility.Align.{lfs_min}
use littlefs_v.Utility.Tag.{tag_size, tag_isdelete, tag_dsize}
use littlefs_v.Utility.Tag.Fields.{tag_size_sum, tag_dsize_bounds}
use littlefs_v.Gstate.{Gstate}
use littlefs_v.Device.{Geometry, Driver}
use littlefs_v.Device.View.{Reads, IsGeometry}
use littlefs_v.Device.Read.{bd_read}
use littlefs_v.Device.Cached.{Cached, ◌>>=◌, follow, pure, lift}
use littlefs_v.Device.Cached.Ends.{Ends, follow-Ended, Ended-mono, read-Ends, read_exact-Ends}
use littlefs_v.Metadata.{MetadataDir}
use littlefs_v.Metadata.Get.{
  Seen, created, found, passed, see, earlier_tag, read, slice_data, slice_seen, slice_loop,
  dir_getslice, synthetic_move,
}
use littlefs_v.Metadata.Get.Search.{entries, with_data, data_of, search_seen, search_log}

module _ {D : Type 0} (g : Geometry) (drv : Driver D) (d : D) (disk : ℕ → ℕ → ℕ) (v : IsGeometry g)
    (reads : Reads drv d disk) where
  -- The result that a search over the bytes comes to, or an error of the device.
  abbrev pub IsGot : {A : Type 0} → Outcome A → Cached A → Type 0
  IsGot o m = Ends g drv d disk (λ a. o ≡ ok a) (λ e. o ≡ err e) m

  signed-IsGot :
      (t : ℕ) (bytes : List ℕ)
      → IsGot (with_data bytes (signed_result t)) (lift (signed_result t) >>= λ r. pure (r, bytes))
  unfolding signed_result follow
  signed-IsGot t bytes rc ready = elim (Bool-cases (ltb t (2 ^ 31))) [
    | inl e ↦ rw e (refl, ready)
    | inr e ↦ rw e (inl (refl, ready))
  ]

  module _ (block : ℕ) (inside : block < g.block_count) (gmask gtag goff gsize : ℕ)
      (near : goff < 2 ^ 62) where
    abbrev data_at : ℕ → ℕ → ℕ → Outcome (ℕ × List ℕ)
    data_at at tag gdiff =
        data_of g.block_size (disk block) gmask gtag goff gsize (record { tag = tag; at = at })
          gdiff

    -- The data of a tag that is no deletion.
    kept-IsGot :
        (at tag gdiff : ℕ)
        → at ≤ g.block_size
        → tag_isdelete tag ≡ false
        → IsGot (data_at at tag gdiff) (slice_data g drv d block at goff gsize tag gdiff)
    unfolding data_of slice_data
    kept-IsGot at tag gdiff below keeps =
        let diff = lfs_min (tag_size tag) gsize in
        let place : add64 (add64 at 4) goff ≡ at + 4 + goff = omega (arith, v.small) in
        let few : diff < 2 ^ 10 = unfold lfs_min in ground (arith, tag_size_sum tag) in
        let bytes_at = read g drv d diff block (at + 4 + goff) diff in
        let got =
          read_exact-Ends g drv d disk v reads block (at + 4 + goff) diff (omega arith) inside
            (omega (arith, v.small)) in
        let whole : ℕ = at + 4 + goff + diff in
        let tail_of : List ℕ → Cached (ℕ × List ℕ) = λ bytes.
          lift (signed_result (add32 tag gdiff)) >>= λ r.
          pure (r, bytes ++ replicate (gsize - diff) 0) in
        λ rc ready.
          rw (keeps, place)
            (follow-Ended g drv d disk
              (λ bytes.
                (bytes ≡ tabulate (disk block) (at + 4 + goff) diff) × (whole ≤ g.block_size))
              _ _ (bd_read g drv d none diff block rc (at + 4 + goff) diff) tail_of
              (Ended-mono g drv d disk _ _ _ _ _ (got rc ready) (λ bytes h. h)
                (λ e h.
                  let past : ltb g.block_size whole ≡ true = ground arith in rw (past, h.0) refl))
              (λ bytes h.
                let fits : ltb g.block_size whole ≡ false = ground arith in
                rw (fits, h.0) (signed-IsGot (add32 tag gdiff) _)))

    slice_data-IsGot :
        (at tag gdiff : ℕ)
        → at ≤ g.block_size
        → IsGot (data_at at tag gdiff) (slice_data g drv d block at goff gsize tag gdiff)
    slice_data-IsGot at tag gdiff below = elim (Bool-cases (tag_isdelete tag)) [
      | inl e ↦ unfold data_of slice_data in rw e (λ rc ready. inl (refl, ready))
      | inr e ↦ kept-IsGot at tag gdiff below e
    ]

    -- A tag that has been looked at, where the search goes on with `next` and the loop with `run`.
    seen-IsGot :
        (at tag : ℕ) (next : ℕ → Outcome (ℕ × List ℕ)) (run : ℕ → Cached (ℕ × List ℕ)) (s : Seen)
        → at ≤ g.block_size
        → ((gdiff : ℕ) → IsGot (next gdiff) (run gdiff))
        → IsGot
            (search_seen g.block_size
              (disk block)
              gmask
              gtag
              goff
              gsize
              (record { tag = tag; at = at })
              next
              s)
            (slice_seen g drv d block at goff gsize tag run s)
    unfolding search_seen slice_seen
    seen-IsGot at tag next run created below rest rc ready = inl (refl, ready)
    seen-IsGot at tag next run (found gdiff) below rest rc ready =
        slice_data-IsGot at tag gdiff below rc ready
    seen-IsGot at tag next run (passed gdiff) below rest rc ready = rest gdiff rc ready

    slice_loop-IsGot :
        (left offset tag gdiff : ℕ)
        → offset < left
        → offset ≤ g.block_size
        → IsGot
            (search_log g.block_size
              (disk block)
              gmask
              gtag
              goff
              gsize
              (entries (disk block) left offset tag)
              gdiff)
            (slice_loop g drv d block gmask gtag goff gsize left offset tag gdiff)
    unfolding slice_loop entries search_log
    slice_loop-IsGot zero offset tag gdiff enough below = absurd (omega arith)
    slice_loop-IsGot (suc left) offset tag gdiff enough below =
        let size = tag_dsize_bounds tag in
        elim (Bool-cases (leb (4 + tag_dsize tag) offset)) [
          | inl e ↦
              (let back : sub64 offset (tag_dsize tag) ≡ offset - tag_dsize tag =
                  ground (arith, v.small) in
                let guard : leb (add64 4 (tag_dsize tag)) offset ≡ true = ground arith in
                let at : ℕ = offset - tag_dsize tag in
                let before : at + 4 ≤ g.block_size = ground arith in
                λ rc ready.
                  rw (entries, e, guard, back)
                    (follow-Ended g drv d disk (λ bytes. bytes ≡ tabulate (disk block) at 4) _ _
                      (bd_read g drv d none 4 block rc at 4) _
                      (Ended-mono g drv d disk _ _ _ _ _
                        (read-Ends g drv d disk v reads 4 block at 4 inside (omega arith)
                          (omega arith) before rc ready)
                        (λ bytes h. h) (λ e h. absurd h))
                      (λ bytes h.
                        (let prev : ℕ = earlier_tag (tabulate (disk block) at 4) tag in
                          seen-IsGot at tag
                            (λ gdiff'.
                              search_log g.block_size (disk block) gmask gtag goff gsize
                                (entries (disk block) left at prev) gdiff')
                            (λ gdiff'.
                              slice_loop g drv d block gmask gtag goff gsize left at
                                (earlier_tag bytes tag) gdiff')
                            (see gmask gtag tag gdiff) (omega arith)
                            (λ gdiff'. rw h (
                              slice_loop-IsGot left at prev gdiff' (omega arith) (omega arith)))))))
          | inr e ↦
              (let guard : leb (add64 4 (tag_dsize tag)) offset ≡ false = ground arith in
                λ rc ready. rw (entries, e, guard) (inl (refl, ready)))
        ]

  -- On a device whose sizes fit together, with one erase unit to a block, for a pair whose first block
  -- is below the count, an end of the log within it and an offset below 2 ^ 62: `lfs_dir_getslice`
  -- ends, with what a search through the log's tags, decoded from the bytes of the block, comes to,
  -- its errors included; or with an error of the device.
  pub dir_getslice-IsGot :
      (gdisk : Gstate) (dir : MetadataDir) (gmask gtag goff gsize : ℕ)
      → dir.pair.first < g.block_count
      → dir.offset ≤ g.block_size
      → goff < 2 ^ 62
      → IsGot
          (search_log g.block_size
            (disk dir.pair.first)
            gmask
            gtag
            goff
            gsize
            (entries (disk dir.pair.first) (suc dir.offset) dir.offset dir.etag)
            (synthetic_move gdisk dir gmask gtag))
          (dir_getslice g drv d gdisk dir gmask gtag goff gsize)
  unfolding dir_getslice
  dir_getslice-IsGot gdisk dir gmask gtag goff gsize inside below near =
      slice_loop-IsGot dir.pair.first inside gmask gtag goff gsize near (suc dir.offset) dir.offset
        dir.etag (synthetic_move gdisk dir gmask gtag) (omega arith) below
