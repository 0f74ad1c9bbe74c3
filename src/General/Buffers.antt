-- ===== src/General/Buffers.antt =====
-- `lfs_init` and `lfs_deinit` take and give back the same buffers.
use littlefs_v.Base.{
  ℕ, Bool, true, false, not, ◌&&◌, ◌==◌, if◌then◌else◌, ◌≡◌, ◌≢◌, refl, sym, ap, ◌∙◌, arith,
  Bool-cases, inl, inr,
}
use littlefs_v.Errors.{Error, Outcome, ok, err, abort, out_of_fuel, fault}
use littlefs_v.Utility.Pair.{block_null}
use littlefs_v.Device.Cached.{Stateful, ◌>>=◌, follow}
use littlefs_v.General.{
  Config, Lfs, Memory, sizes_fit, lookahead_fits, limits_fit, check, acquire, init, init_body,
  deinit, cleaned, marked, set_lfs, new_lookahead, defaults, or_default,
}
use littlefs_v.General.Returned.{matches, matches_null, swap, taken, deinit-live, deinit_twice}

-- All of the checks.
abbrev pub fits : Config → Bool
fits cfg = sizes_fit cfg && (lookahead_fits cfg && limits_fit cfg)

module _ (cfg : Config) where
  module _ (malloc : (ℕ → Bool) → ℕ → ℕ)
      (fresh : (live : ℕ → Bool) (size : ℕ)
        → malloc live size ≢ 0
        → live (malloc live size) ≡ false)
      (before : ℕ → Bool) where
    -- The heap as it was, once the buffers are given back.
    abbrev pub Restores : Memory → Type 0
    Restores m = (x : ℕ) → (deinit cfg m).live x ≡ before x

    abbrev pub Took : (Memory → Type 0) → Memory × Outcome (Unit {0}) → Type 0
    Took P (m, ok u) = P m
    Took P (m, err e) = (e ≡ Error.nomem) × Restores m
    Took P (m, abort) = fits cfg ≡ false
    Took P (m, out_of_fuel) = ⊥
    Took P (m, fault) = ⊥

    follow-Took :
        (P Q : Memory → Type 0) (r : Memory × Outcome (Unit {0}))
        (f : Unit {0} → Stateful Memory (Unit {0}))
        → Took P r
        → ((u : Unit {0}) (m : Memory) → P m → Took Q (f u m))
        → Took Q (follow r f)
    unfolding follow
    follow-Took P Q (m, ok u) f h next = next u m h
    follow-Took P Q (m, err e) f h next = h
    follow-Took P Q (m, abort) f h next = h
    follow-Took P Q (m, out_of_fuel) f h next = h
    follow-Took P Q (m, fault) f h next = h

    check-Took :
        (P : Memory → Type 0) (b : Bool) (m : Memory)
        → P m
        → (b ≡ false → fits cfg ≡ false)
        → Took P (check b m)
    check-Took P true m h fails = h
    check-Took P false m h fails = fails refl

    pub acquire-Took :
        (P : Memory → Type 0) (given size : ℕ) (put : ℕ → Lfs → Lfs) (m : Memory)
        → ((a : ℕ)
            → (given ≡ 0 → a ≢ 0 → m.live a ≡ false)
            → let m' : Memory = record {
              live = if given == 0 && not (a == 0) then marked a true m.live else m.live;
              lfs = put a m.lfs;
            } in
              P m' × Restores m')
        → Took P (acquire malloc given size put m)
    unfolding acquire
    acquire-Took P given size put m h =
        let a : ℕ = if given == 0 then malloc m.live size else given in
        let off : given ≡ 0 → a ≢ 0 → m.live a ≡ false = λ e n.
          let test : (given == 0) ≡ true = ground arith in
          rw test (fresh m.live size (rw test at n)) in
        elim (Bool-cases (a == 0)) [
          | inl e ↦ rw e (refl, rw e at (h a off).1)
          | inr e ↦ rw e (rw e at (h a off).0)
        ]

    -- No buffer so far; the first; the first two.
    abbrev None : Memory → Type 0
    None m =
        (m.lfs.read_buffer ≡ 0) × (m.lfs.write_buffer ≡ 0) × (m.lfs.free_buffer ≡ 0) × Restores m

    abbrev One : Memory → Type 0
    One m = (m.lfs.write_buffer ≡ 0) × (m.lfs.free_buffer ≡ 0) × Restores m

    abbrev Two : Memory → Type 0
    Two m = (m.lfs.free_buffer ≡ 0) × Restores m

    null : (given a x : ℕ) → a ≡ 0 → matches given a x ≡ false
    null given a x e = rw e (matches_null given x)

    read-Took :
        (m : Memory)
        → None m
        → Took One
            (acquire malloc cfg.read_buffer cfg.cache_size (λ a l. record l { read_buffer = a }) m)
    read-Took m h = acquire-Took One cfg.read_buffer cfg.cache_size _ m (λ a off.
        let all : (x : ℕ) → _ ≡ before x = λ x.
          deinit-live cfg _ x
          ∙ rw
              (
                null cfg.lookahead_buffer m.lfs.free_buffer x h.2,
                null cfg.write_buffer m.lfs.write_buffer x h.1,
              )
              (taken cfg.read_buffer a m.live x off)
          ∙ rw
              (
                null cfg.lookahead_buffer m.lfs.free_buffer x h.2,
                null cfg.write_buffer m.lfs.write_buffer x h.1,
                null cfg.read_buffer m.lfs.read_buffer x h.0,
              )
              at (sym (deinit-live cfg m x) ∙ h.3 x) in
        ((h.1, h.2, all), all))

    write-Took :
        (m : Memory)
        → One m
        → Took Two (
            acquire malloc cfg.write_buffer cfg.cache_size (λ a l. record l { write_buffer = a }) m)
    write-Took m h = acquire-Took Two cfg.write_buffer cfg.cache_size _ m (λ a off.
        let keep_read : ℕ → Bool = λ x. not (matches cfg.read_buffer m.lfs.read_buffer x) in
        let all : (x : ℕ) → _ ≡ before x = λ x.
          deinit-live cfg _ x
          ∙ rw (null cfg.lookahead_buffer m.lfs.free_buffer x h.1) (
              swap (not (matches cfg.write_buffer a x)) (keep_read x) _
              ∙ ap (λ b. keep_read x && b) (taken cfg.write_buffer a m.live x off))
          ∙ rw
              (
                null cfg.lookahead_buffer m.lfs.free_buffer x h.1,
                null cfg.write_buffer m.lfs.write_buffer x h.0,
              )
              at (sym (deinit-live cfg m x) ∙ h.2 x) in
        ((h.1, all), all))

    lookahead-Took :
        (m : Memory)
        → Two m
        → Took Restores (acquire malloc cfg.lookahead_buffer cfg.lookahead_size new_lookahead m)
    lookahead-Took m h = acquire-Took Restores cfg.lookahead_buffer cfg.lookahead_size _ m (λ a off.
        let keep_read : ℕ → Bool = λ x. not (matches cfg.read_buffer m.lfs.read_buffer x) in
        let keep_write : ℕ → Bool = λ x. not (matches cfg.write_buffer m.lfs.write_buffer x) in
        let keep : ℕ → Bool = λ x. not (matches cfg.lookahead_buffer a x) in
        let now : ℕ → Bool =
          if cfg.lookahead_buffer == 0 && not (a == 0) then marked a true m.live else m.live in
        let same : (if a == 0 then m.lfs.free_buffer else a) ≡ a = ground (arith, h.0) in
        let all : (x : ℕ) → _ ≡ before x = λ x.
          deinit-live cfg _ x
          ∙ ap
              (λ t.
                not (matches cfg.lookahead_buffer t x) && (keep_write x && (keep_read x && now x)))
              same
          ∙ swap (keep x) (keep_write x) _
          ∙ ap (λ b. keep_write x && b)
              (swap (keep x) (keep_read x) _
                ∙ ap (λ b. keep_read x && b) (taken cfg.lookahead_buffer a m.live x off))
          ∙ rw (null cfg.lookahead_buffer m.lfs.free_buffer x h.0) at
              (sym (deinit-live cfg m x) ∙ h.1 x) in
        (all, all))

    abbrev Step : Type 0
    Step = Stateful Memory (Unit {0})

    abbrev Takes : (Memory → Type 0) → (Memory → Type 0) → Step → Type 0
    Takes P Q step = (m : Memory) → P m → Took Q (step m)

    bind-Takes :
        (P Q R : Memory → Type 0) (step next : Step)
        → Takes P Q step
        → Takes Q R next
        → Takes P R (step >>= λ u. next)
    bind-Takes P Q R step next h k m p =
        follow-Took Q R (step m) (λ u. next) (h m p) (λ u m' q. k m' q)

    check-Takes :
        (P R : Memory → Type 0) (b : Bool) (next : Step)
        → (b ≡ false → fits cfg ≡ false)
        → (b ≡ true → Takes P R next)
        → Takes P R (check b >>= λ u. next)
    unfolding follow
    check-Takes P R true next fails k m p = k refl m p
    check-Takes P R false next fails k m p = fails refl

    -- With the checks passed, and buffers that can be given back.
    abbrev pub Done : Memory → Type 0
    Done m = (fits cfg ≡ true) × Restores m

    abbrev limits : Step
    limits = check (limits_fit cfg) >>= λ u. set_lfs (defaults cfg)

    abbrev lookahead : Step
    lookahead = check (lookahead_fits cfg) >>= λ u.
        acquire malloc cfg.lookahead_buffer cfg.lookahead_size new_lookahead >>= λ u. limits

    limits-Takes : sizes_fit cfg ≡ true → lookahead_fits cfg ≡ true → Takes Restores Done limits
    unfolding deinit
    limits-Takes s l =
        check-Takes Restores Done (limits_fit cfg) (set_lfs (defaults cfg)) (λ e. ground (arith, e))
          (λ e m h. (rw (s, l, e) refl, unfold defaults in h))

    lookahead-Takes : sizes_fit cfg ≡ true → Takes Two Done lookahead
    lookahead-Takes s =
        check-Takes Two Done (lookahead_fits cfg) _ (λ e. ground (arith, e))
          (λ l.
            bind-Takes Two Restores Done
              (acquire malloc cfg.lookahead_buffer cfg.lookahead_size new_lookahead) limits
              lookahead-Took (limits-Takes s l))

    abbrev buffers : Step
    buffers =
        acquire malloc cfg.read_buffer cfg.cache_size (λ a l. record l { read_buffer = a }) >>= λ u.
        acquire malloc cfg.write_buffer cfg.cache_size (λ a l. record l { write_buffer = a })
        >>= λ u.
            set_lfs (λ l. record l { read_block = block_null; write_block = block_null }) >>= λ u.
            lookahead

    buffers-Takes : sizes_fit cfg ≡ true → Takes None Done buffers
    unfolding deinit
    buffers-Takes s =
        bind-Takes None One Done
          (acquire malloc cfg.read_buffer cfg.cache_size (λ a l. record l { read_buffer = a })) _
          read-Took
          (bind-Takes One Two Done
            (acquire malloc cfg.write_buffer cfg.cache_size (λ a l. record l { write_buffer = a }))
            _ write-Took
            (bind-Takes Two Two Done
              (set_lfs (λ l. record l { read_block = block_null; write_block = block_null }))
              lookahead (λ m h. h) (lookahead-Takes s)))

    init_body-Takes : Takes None Done (init_body malloc cfg)
    unfolding init_body deinit
    init_body-Takes =
        check-Takes None Done (sizes_fit cfg) _ (λ e. rw e refl)
          (λ s.
            bind-Takes None None Done
              (set_lfs (λ l. record l { erase_size = or_default cfg.erase_size cfg.block_size }))
              buffers (λ m h. h) (buffers-Takes s))

    -- What `lfs_init` leaves.
    abbrev pub IsInited : Memory × Outcome (Unit {0}) → Type 0
    IsInited (m, ok u) = Done m
    IsInited (m, err e) = (e ≡ Error.nomem) × ((x : ℕ) → m.live x ≡ before x)
    IsInited (m, abort) = fits cfg ≡ false
    IsInited (m, out_of_fuel) = ⊥
    IsInited (m, fault) = ⊥

    cleaned-IsInited : (r : Memory × Outcome (Unit {0})) → Took Done r → IsInited (cleaned cfg r)
    unfolding cleaned
    cleaned-IsInited (m, ok u) h = h
    cleaned-IsInited (m, err e) h = (h.0, λ x. deinit_twice cfg m x ∙ h.1 x)
    cleaned-IsInited (m, abort) h = h
    cleaned-IsInited (m, out_of_fuel) h = h
    cleaned-IsInited (m, fault) h = h

-- From a state without buffers, with a `malloc` that never hands out what is live: `lfs_init` returns,
-- either with success, all checks passed, and `lfs_deinit` then leaves the heap as it was; or with
-- LFS_ERR_NOMEM and the heap as it was; or it fails an assertion,
-- and then a check does not hold.
pub init-IsInited :
    (cfg : Config) (malloc : (ℕ → Bool) → ℕ → ℕ)
    (fresh : (live : ℕ → Bool) (size : ℕ) → malloc live size ≢ 0 → live (malloc live size) ≡ false)
    (m : Memory)
    → m.lfs.read_buffer ≡ 0
    → m.lfs.write_buffer ≡ 0
    → m.lfs.free_buffer ≡ 0
    → IsInited cfg malloc fresh m.live (init malloc cfg m)
unfolding init
init-IsInited cfg malloc fresh m r w f =
    cleaned-IsInited cfg malloc fresh m.live (init_body malloc cfg m)
      (init_body-Takes cfg malloc fresh m.live m (r, w, f, start))
  where
    start : (x : ℕ) → (deinit cfg m).live x ≡ m.live x
    start x =
        deinit-live cfg m x
        ∙ rw
            (
              null cfg malloc fresh m.live cfg.lookahead_buffer m.lfs.free_buffer x f,
              null cfg malloc fresh m.live cfg.write_buffer m.lfs.write_buffer x w,
              null cfg malloc fresh m.live cfg.read_buffer m.lfs.read_buffer x r,
            )
            refl
