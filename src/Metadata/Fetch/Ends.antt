-- ===== src/Metadata/Fetch/Ends.antt =====
-- The passes of `lfs_dir_fetchmatch` end: every round takes a tag further, up to the end of the block.
use littlefs_v.Base.{
  ℕ, zero, suc, ◌+◌, ◌-◌, ◌%◌, ◌^◌, ◌≤◌, ◌<◌, List, Bool, true, false, ◌&&◌, ltb, ◌==◌,
  if◌then◌else◌, add64, bit_and, Option, none, ◌≡◌, refl, ap, ◌∙◌, inl, inr, arith, Bool-cases,
  tabulate,
}
use littlefs_v.Errors.{Error}
use littlefs_v.Utility.Crc.{lfs_crc}
use littlefs_v.Utility.Pair.{Pair}
use littlefs_v.Utility.Tag.{tag_type1, tag_isvalid, tag_dsize}
use littlefs_v.Utility.Tag.Fields.{tag_dsize_bounds}
use littlefs_v.Device.{Geometry, Driver}
use littlefs_v.Device.View.{Reads, Fails, IsGeometry}
use littlefs_v.Device.Write.{Cmp}
use littlefs_v.Device.Cached.{Cached, ◌>>=◌, pure, attempt, or_else}
use littlefs_v.Device.Cached.Ends.{
  Ends, bind-Ends, Ended-mono, Attempted, attempt-corrupt-Ends, or_else-Ends, read_past-Ends,
}
use littlefs_v.Metadata.{type_name, type_splice, type_crc, type_tail}
use littlefs_v.Metadata.Get.{read}
use littlefs_v.Metadata.Fetch.{
  Fetching, Pass, Next, again, stop, set_erased, commit, crc_entry, read_tail, count_name,
  count_splice, check_crc, modify, compare_entry, scan_entry, scan_tag, scan_round, go_on,
  scan_loop,
}

module _ {D : Type 0} (g : Geometry) (drv : Driver D) (d : D) (disk : ℕ → ℕ → ℕ) (v : IsGeometry g)
    (reads : Reads drv d disk) (clean : (block : ℕ) → ¬ Fails drv d block Error.corrupt) where
  -- A call that gives no error of the code's own.
  abbrev pub Gives : {A : Type 0} → (A → Type 0) → Cached A → Type 0
  Gives P m = Ends g drv d disk P (λ e. ⊥) m

  pub pure-Gives : {A : Type 0} (P : A → Type 0) (a : A) → P a → Gives P (pure a)
  pure-Gives P a h rc ready = (h, ready)

  -- A read that ends the pass where it goes past the block.
  pub try_read :
      (block offset size : ℕ)
      → block < g.block_count
      → offset + size < 2 ^ 64
      → Gives
          (Attempted g drv d disk
            (λ bytes. (bytes ≡ tabulate (disk block) offset size) × (offset + size ≤ g.block_size))
            (λ e. Unit))
          (attempt (read g drv d g.block_size block offset size))
  try_read block offset size inside short = attempt-corrupt-Ends g drv d disk clean _ _ (λ rc ready.
      Ended-mono g drv d disk _ _ _ _ _
        (read_past-Ends g drv d disk v reads g.block_size block offset size
          (omega (arith, v.reads, v.caches, v.cache_in_block)) v.small inside short rc ready)
        (λ bytes h. h) (λ e h. h.0))

  -- What follows a read that may go past the block.
  pub after_read :
      {B : Type 0} (Q : B → Type 0) (block offset size : ℕ) (without : Cached B)
      (with_it : List ℕ → Cached B)
      → block < g.block_count
      → offset + size < 2 ^ 64
      → Gives Q without
      → ((bytes : List ℕ) → offset + size ≤ g.block_size → Gives Q (with_it bytes))
      → Gives Q (
          attempt (read g drv d g.block_size block offset size) >>= λ got.
          or_else got without with_it)
  after_read Q block offset size without with_it inside short n s =
      let P : List ℕ → Type 0 =
        λ bytes. (bytes ≡ tabulate (disk block) offset size) × (offset + size ≤ g.block_size) in
      bind-Ends g drv d disk (Attempted g drv d disk P (λ e. Unit)) Q (λ e. ⊥)
        (attempt (read g drv d g.block_size block offset size)) _
        (try_read block offset size inside short)
        (λ got h.
          or_else-Ends g drv d disk P Q (λ e. ⊥) (λ e. Unit) got without with_it h n
            (λ bytes k. s bytes k.1))

  crc_entry-Gives :
      (left block offset crc : ℕ)
      → block < g.block_count
      → offset + left < 2 ^ 63
      → Gives (λ r. Unit) (crc_entry g drv d block offset left crc)
  unfolding crc_entry
  crc_entry-Gives zero block offset crc inside short rc ready = (tt, ready)
  crc_entry-Gives (suc left) block offset crc inside short rc ready =
      after_read (λ r. Unit) block offset 1 (pure (crc, false)) _ inside (omega arith)
        (λ rc ready. (tt, ready))
        (λ bytes fits.
          let next : add64 offset 1 ≡ offset + 1 = omega arith in
          rw next
            (crc_entry-Gives left block (offset + 1) (lfs_crc crc bytes) inside (omega arith)))
        rc ready

  -- The directory in a pass over a block of the pair.
  abbrev IsDir : Pair → Fetching → Type 0
  IsDir pair f = (f.dir.pair ≡ pair) × (f.dir.offset ≤ g.block_size)

  -- A round that goes on has gone on in the block.
  abbrev IsNext : Pair → ℕ → Next → Type 0
  IsNext pair from (again f p) = IsDir pair f × (from < p.offset) × (p.offset ≤ g.block_size)
  IsNext pair from (stop f) = IsDir pair f

  set_erased-IsDir :
      (pair : Pair) (e : Bool) (f : Fetching) → IsDir pair f → IsDir pair (set_erased e f)
  unfolding set_erased
  set_erased-IsDir pair e f h = h

  abbrev marked : Bool → Fetching → Fetching
  marked whole f = if whole then f else set_erased false f

  marked-IsDir : (pair : Pair) (b : Bool) (f : Fetching) → IsDir pair f → IsDir pair (marked b f)
  marked-IsDir pair true f h = h
  marked-IsDir pair false f h = set_erased-IsDir pair false f h

  marked-first :
      (b : Bool) (f : Fetching)
      → f.dir.pair.first < g.block_count
      → (marked b f).dir.pair.first < g.block_count
  unfolding set_erased
  marked-first true f h = h
  marked-first false f h = h

  commit-IsNext :
      (pair : Pair) (from offset tag dcrc : ℕ) (f : Fetching) (p : Pass)
      → from < offset
      → p.offset ≡ offset
      → offset + tag_dsize tag ≤ g.block_size
      → IsDir pair f
      → IsNext pair from (commit offset tag dcrc f p)
  unfolding commit set_erased
  commit-IsNext pair from offset tag dcrc f p later at fits dir =
      let room = tag_dsize_bounds tag in
      let end : add64 offset (tag_dsize tag) ≡ offset + tag_dsize tag = omega (arith, v.small) in
      elim (Bool-cases (p.crc == dcrc)) [
        | inl e ↦ rw e ((dir.0, rw end fits), rw at later, omega arith)
        | inr e ↦ rw e dir
      ]

  check_crc-Gives :
      (pair : Pair) (from offset tag : ℕ) (f : Fetching) (p : Pass)
      → f.dir.pair.first < g.block_count
      → from < offset
      → p.offset ≡ offset
      → offset + tag_dsize tag ≤ g.block_size
      → IsDir pair f
      → Gives (IsNext pair from) (check_crc g drv d offset tag f p)
  unfolding check_crc
  check_crc-Gives pair from offset tag f p inside later at fits dir =
      after_read (IsNext pair from) f.dir.pair.first (add64 offset 4) 4
        (pure (stop (set_erased false f))) _ inside (omega (arith, v.small))
        (λ rc ready. (set_erased-IsDir pair false f dir, ready))
        (λ bytes in_block rc ready.
          (commit-IsNext pair from offset tag _ f p later at fits dir, ready))

  -- A pass of which nothing has moved.
  abbrev Stays : ℕ → Option Pass → Type 0
  Stays offset o = Attempted g drv d disk (λ p'. p'.offset ≡ offset) (λ e. Unit) o

  count_name-offset : (tag : ℕ) (p : Pass) → (count_name tag p).offset ≡ p.offset
  unfolding count_name
  count_name-offset tag p = ground arith

  read_tail-Gives :
      (block offset : ℕ)
      → block < g.block_count
      → offset + 16 < 2 ^ 64
      → Gives (Attempted g drv d disk (λ t. Unit) (λ e. Unit)) (read_tail g drv d block offset)
  unfolding read_tail
  read_tail-Gives block offset inside short =
      after_read (Attempted g drv d disk (λ t. Unit) (λ e. Unit)) block offset 16 (pure none) _
        inside short (λ rc ready. (tt, ready)) (λ bytes fits rc ready. (tt, ready))

  modify-Gives :
      (offset tag : ℕ) (f : Fetching) (p : Pass)
      → f.dir.pair.first < g.block_count
      → offset ≤ g.block_size
      → Gives (Stays p.offset) (modify g drv d offset tag f p)
  unfolding modify count_splice
  modify-Gives offset tag f p inside below = elim (Bool-cases (tag_type1 tag == type_name)) [
    | inl name ↦ rw name (λ rc ready. (count_name-offset tag p, ready))
    | inr no_name ↦ elim (Bool-cases (tag_type1 tag == type_splice)) [
      | inl splice ↦ rw (no_name, splice) (λ rc ready. (refl, ready))
      | inr no_splice ↦ elim (Bool-cases (tag_type1 tag == type_tail)) [
        | inl tail ↦
            rw (no_name, no_splice, tail)
              (bind-Ends g drv d disk (Attempted g drv d disk (λ t. Unit) (λ e. Unit)) _ (λ e. ⊥)
                (read_tail g drv d f.dir.pair.first (add64 offset 4)) _
                (read_tail-Gives f.dir.pair.first (add64 offset 4) inside (omega (arith, v.small)))
                (λ got h.
                  or_else-Ends g drv d disk (λ t. Unit) (Stays p.offset) (λ e. ⊥) (λ e. Unit) got
                    (pure none) _ h (λ rc ready. (tt, ready)) (λ t k rc ready. (refl, ready))))
        | inr other ↦ rw (no_name, no_splice, other) (λ rc ready. (refl, ready))
      ]
    ]
  ]

  module _ (fmask ftag : ℕ) (cb : ℕ → ℕ → ℕ → Cached Cmp)
      (calls : (tag block offset : ℕ)
        → bit_and fmask tag ≡ bit_and fmask ftag
        → tag_isvalid tag ≡ true
        → block < g.block_count
        → offset + (tag_dsize tag - 4) ≤ g.block_size
        → Ends g drv d disk (λ c. Unit) (λ e. e ≡ Error.corrupt) (cb tag block offset)) where
    compare_entry-Gives :
        (pair : Pair) (from offset tag : ℕ) (f : Fetching) (p : Pass)
        → f.dir.pair.first < g.block_count
        → tag_isvalid tag ≡ true
        → from < offset
        → p.offset ≡ offset
        → offset + tag_dsize tag ≤ g.block_size
        → IsDir pair f
        → Gives (IsNext pair from) (compare_entry g drv d fmask ftag cb offset tag f p)
    unfolding compare_entry
    compare_entry-Gives pair from offset tag f p inside valid later at fits dir =
        let room = tag_dsize_bounds tag in
        let there : add64 offset 4 ≡ offset + 4 = omega (arith, v.small) in
        let on : IsNext pair from (again f p) = (dir, rw at later, omega arith) in
        elim (Bool-cases (bit_and fmask tag == bit_and fmask ftag)) [
          | inl e ↦ rw e (
              bind-Ends g drv d disk (Attempted g drv d disk (λ c. Unit) (λ e. Unit))
                (IsNext pair from) (λ e. ⊥) _ _
                (attempt-corrupt-Ends g drv d disk clean (λ c. Unit) _
                  (calls tag f.dir.pair.first (add64 offset 4) (ground arith) valid inside
                    (omega arith)))
                (λ got h.
                  or_else-Ends g drv d disk (λ c. Unit) (IsNext pair from) (λ e. ⊥) (λ e. Unit) got
                    _ _ h (λ rc ready. (set_erased-IsDir pair false f dir, ready))
                    (λ c k rc ready. (on, ready))))
          | inr e ↦ rw e (λ rc ready. (on, ready))
        ]

    scan_entry-Gives :
        (pair : Pair) (from offset tag : ℕ) (f : Fetching) (p : Pass)
        → f.dir.pair.first < g.block_count
        → tag_isvalid tag ≡ true
        → from < offset
        → p.offset ≡ offset
        → offset + tag_dsize tag ≤ g.block_size
        → IsDir pair f
        → Gives (IsNext pair from) (scan_entry g drv d fmask ftag cb offset tag f p)
    unfolding scan_entry
    scan_entry-Gives pair from offset tag f p inside valid later at fits dir =
        let room = tag_dsize_bounds tag in
        let short : add64 offset 4 + (tag_dsize tag - 4) < 2 ^ 63 = omega (arith, v.small) in
        bind-Ends g drv d disk (λ r. Unit) (IsNext pair from) (λ e. ⊥) _ _
          (crc_entry-Gives (tag_dsize tag - 4) f.dir.pair.first (add64 offset 4) p.crc inside short)
          (λ r t.
            bind-Ends g drv d disk (Stays p.offset) (IsNext pair from) (λ e. ⊥) _ _
              (modify-Gives offset tag (marked r.1 f) _ (marked-first r.1 f inside) (omega arith))
              (λ m h.
                or_else-Ends g drv d disk (λ p'. p'.offset ≡ p.offset) (IsNext pair from) (λ e. ⊥)
                  (λ e. Unit) m _ _ h
                  (λ rc ready. (
                    set_erased-IsDir pair false (marked r.1 f) (marked-IsDir pair r.1 f dir),
                    ready,
                  ))
                  (λ p' stays.
                    compare_entry-Gives pair from offset tag (marked r.1 f) p'
                      (marked-first r.1 f inside) valid later (stays ∙ at) fits
                      (marked-IsDir pair r.1 f dir))))

    scan_tag-Gives :
        (pair : Pair) (from offset tag : ℕ) (f : Fetching) (p : Pass)
        → f.dir.pair.first < g.block_count
        → from < offset
        → p.offset ≡ offset
        → offset ≤ g.block_size
        → IsDir pair f
        → Gives (IsNext pair from) (scan_tag g drv d fmask ftag cb offset tag f p)
    unfolding scan_tag
    scan_tag-Gives pair from offset tag f p inside later at below dir =
        let room = tag_dsize_bounds tag in
        let end : add64 offset (tag_dsize tag) ≡ offset + tag_dsize tag = omega (arith, v.small) in
        elim (Bool-cases (tag_isvalid tag)) [
          | inr bad ↦ rw bad (λ rc ready. (
            set_erased-IsDir pair (tag_type1 p.ptag == type_crc && f.dir.offset % g.write_size == 0)
                f dir,
            ready,
          ))
          | inl good ↦ elim (Bool-cases (ltb g.block_size (offset + tag_dsize tag))) [
            | inl past ↦
                rw (good, end, past) (λ rc ready. (set_erased-IsDir pair false f dir, ready))
            | inr fits ↦ elim (Bool-cases (tag_type1 tag == type_crc)) [
              | inl crc ↦
                  rw (good, end, fits, crc)
                    (check_crc-Gives pair from offset tag f _ inside later at (ground arith) dir)
              | inr entry ↦
                  rw (good, end, fits, entry)
                    (scan_entry-Gives pair from offset tag f _ inside good later at (ground arith)
                      dir)
            ]
          ]
        ]

    scan_round-Gives :
        (pair : Pair) (f : Fetching) (p : Pass)
        → f.dir.pair.first < g.block_count
        → p.offset ≤ g.block_size
        → IsDir pair f
        → Gives (IsNext pair p.offset) (scan_round g drv d fmask ftag cb f p)
    unfolding scan_round
    scan_round-Gives pair f p inside below dir =
        let room = tag_dsize_bounds p.ptag in
        let next : add64 p.offset (tag_dsize p.ptag) ≡ p.offset + tag_dsize p.ptag =
          omega (arith, v.small) in
        after_read (IsNext pair p.offset) f.dir.pair.first (add64 p.offset (tag_dsize p.ptag)) 4
          (pure (stop (set_erased false f))) _ inside (omega (arith, v.small))
          (λ rc ready. (set_erased-IsDir pair false f dir, ready))
          (λ bytes fits.
            scan_tag-Gives pair p.offset (add64 p.offset (tag_dsize p.ptag)) _ f _ inside
              (omega arith) refl (omega arith) dir)

    go_on-Gives :
        (loop : Fetching → Pass → Cached Fetching) (pair : Pair) (from : ℕ)
        → ((f : Fetching) (p : Pass) → IsNext pair from (again f p) → Gives (IsDir pair) (loop f p))
        → (n : Next) → IsNext pair from n
        → Gives (IsDir pair) (go_on loop n)
    unfolding go_on
    go_on-Gives loop pair from rest (again f p) h rc ready = rest f p h rc ready
    go_on-Gives loop pair from rest (stop f) h rc ready = (h, ready)

    -- A pass ends, and leaves a directory of the same pair with its end in the block.
    pub scan_loop-Gives :
        (left : ℕ) (pair : Pair) (f : Fetching) (p : Pass)
        → pair.first < g.block_count
        → p.offset ≤ g.block_size
        → g.block_size < p.offset + left
        → IsDir pair f
        → Gives (IsDir pair) (scan_loop g drv d fmask ftag cb left f p)
    unfolding scan_loop
    scan_loop-Gives zero pair f p inside below enough dir = absurd (omega arith)
    scan_loop-Gives (suc left) pair f p inside below enough dir =
        let here : f.dir.pair.first < g.block_count = rw (ap (λ q. q.first) dir.0) inside in
        bind-Ends g drv d disk (IsNext pair p.offset) (IsDir pair) (λ e. ⊥) _ _
          (scan_round-Gives pair f p here below dir)
          (go_on-Gives (scan_loop g drv d fmask ftag cb left) pair p.offset
            (λ f' p' h. scan_loop-Gives left pair f' p' inside h.2 (omega arith) h.0))
