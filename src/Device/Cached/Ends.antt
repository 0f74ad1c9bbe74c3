-- ===== src/Device/Cached/Ends.antt =====
-- Rules for calls that read through the read cache: what a chain of them comes to, from what each
-- comes to.
use littlefs_v.Base.{
  ℕ, zero, suc, ◌+◌, ◌^◌, ◌≤◌, ◌<◌, List, Option, some, none, ◌≡◌, refl, ◌⊎◌, inl, inr, arith,
  tabulate, true, false, ◌||◌, leb, ltb, add64, Bool-cases,
}
use littlefs_v.Errors.{Error, Outcome, ok, err, abort, out_of_fuel, fault}
use littlefs_v.Device.{Geometry, Driver, Cache}
use littlefs_v.Device.View.{Reads, Fails, IsGeometry}
use littlefs_v.Device.Read.{bd_read, read_loop}
use littlefs_v.Device.Read.Step.{IsReady}
use littlefs_v.Device.Read.Loop.{IsRead, bd_read-IsRead}
use littlefs_v.Device.Cached.{Cached, follow, caught, attempt, ◌>>=◌, or_else}

module _ {D : Type 0} (g : Geometry) (drv : Driver D) (d : D) (disk : ℕ → ℕ → ℕ) where
  -- An error that the device gives for some block.
  abbrev pub DeviceError : Error → Type 0
  DeviceError e = (block : ℕ) × Fails drv d block e

  -- What a call leaves: a result with `P`, or an error of the code's own with `E`, both with a read
  -- cache that is ready; or an error of the device. It fails no assertion, goes past no array and
  -- does not run out of rounds.
  abbrev pub Ended : {A : Type 0} → (A → Type 0) → (Error → Type 0) → Cache × Outcome A → Type 0
  Ended P E (rc, ok a) = P a × IsReady g disk rc
  Ended P E (rc, err e) = (E e × IsReady g disk rc) ⊎ DeviceError e
  Ended P E (rc, abort) = ⊥
  Ended P E (rc, out_of_fuel) = ⊥
  Ended P E (rc, fault) = ⊥

  abbrev pub Ends : {A : Type 0} → (A → Type 0) → (Error → Type 0) → Cached A → Type 0
  Ends P E m = (rc : Cache) → IsReady g disk rc → Ended P E (m rc)

  pub follow-Ended :
      {A B : Type 0} (P : A → Type 0) (Q : B → Type 0) (E : Error → Type 0) (r : Cache × Outcome A)
      (f : A → Cached B)
      → Ended P E r
      → ((a : A) → P a → Ends Q E (f a))
      → Ended Q E (follow r f)
  unfolding follow
  follow-Ended P Q E (rc, ok a) f h next = next a h.0 rc h.1
  follow-Ended P Q E (rc, err e) f h next = h
  follow-Ended P Q E (rc, abort) f h next = h
  follow-Ended P Q E (rc, out_of_fuel) f h next = h
  follow-Ended P Q E (rc, fault) f h next = h

  pub bind-Ends :
      {A B : Type 0} (P : A → Type 0) (Q : B → Type 0) (E : Error → Type 0) (m : Cached A)
      (f : A → Cached B)
      → Ends P E m
      → ((a : A) → P a → Ends Q E (f a))
      → Ends Q E (m >>= f)
  bind-Ends P Q E m f h next rc ready = follow-Ended P Q E (m rc) f (h rc ready) next

  pub Ended-mono :
      {A : Type 0} (P Q : A → Type 0) (E F : Error → Type 0) (r : Cache × Outcome A)
      → Ended P E r
      → ((a : A) → P a → Q a)
      → ((e : Error) → E e → F e)
      → Ended Q F r
  Ended-mono P Q E F (rc, ok a) h p e = (p a h.0, h.1)
  Ended-mono P Q E F (rc, err e') (inl h) p e = inl (e e' h.0, h.1)
  Ended-mono P Q E F (rc, err e') (inr h) p e = inr h
  Ended-mono P Q E F (rc, abort) h p e = h
  Ended-mono P Q E F (rc, out_of_fuel) h p e = h
  Ended-mono P Q E F (rc, fault) h p e = h

  -- What an attempt has: the result, or nothing where the error is LFS_ERR_CORRUPT.
  abbrev pub Attempted : {A : Type 0} → (A → Type 0) → (Error → Type 0) → Option A → Type 0
  Attempted P E (some a) = P a
  Attempted P E none = E Error.corrupt

  pub or_else-Ends :
      {A B : Type 0} (P : A → Type 0) (Q : B → Type 0) (E F : Error → Type 0) (a : Option A)
      (without : Cached B) (with_it : A → Cached B)
      → Attempted P F a
      → Ends Q E without
      → ((x : A) → P x → Ends Q E (with_it x))
      → Ends Q E (or_else a without with_it)
  unfolding or_else
  or_else-Ends P Q E F none without with_it h n s rc ready = n rc ready
  or_else-Ends P Q E F (some x) without with_it h n s rc ready = s x h rc ready

  -- On a device that does not give LFS_ERR_CORRUPT itself.
  module _ (clean : (block : ℕ) → ¬ Fails drv d block Error.corrupt) where
    caught-err :
        {A : Type 0} (P : A → Type 0) (E : Error → Type 0) (rc : Cache) (e : Error)
        → ((E e × IsReady g disk rc) ⊎ DeviceError e)
        → Ended (Attempted P E) E (caught {A = A} (rc, err e))
    unfolding caught
    caught-err P E rc Error.corrupt (inl h) = h
    caught-err P E rc Error.corrupt (inr h) = absurd (clean h.0 h.1)
    caught-err P E rc Error.io h = h
    caught-err P E rc Error.noent h = h
    caught-err P E rc Error.exist h = h
    caught-err P E rc Error.notdir h = h
    caught-err P E rc Error.isdir h = h
    caught-err P E rc Error.notempty h = h
    caught-err P E rc Error.badf h = h
    caught-err P E rc Error.fbig h = h
    caught-err P E rc Error.inval h = h
    caught-err P E rc Error.nospc h = h
    caught-err P E rc Error.nomem h = h
    caught-err P E rc Error.noattr h = h
    caught-err P E rc Error.nametoolong h = h
    caught-err P E rc (Error.other n) h = h

    caught-Ended :
        {A : Type 0} (P : A → Type 0) (E : Error → Type 0) (r : Cache × Outcome A)
        → Ended P E r
        → Ended (Attempted P E) E (caught r)
    unfolding caught
    caught-Ended P E (rc, ok a) h = h
    caught-Ended P E (rc, err e) h = caught-err P E rc e h
    caught-Ended P E (rc, abort) h = h
    caught-Ended P E (rc, out_of_fuel) h = h
    caught-Ended P E (rc, fault) h = h

    pub attempt-Ends :
        {A : Type 0} (P : A → Type 0) (E : Error → Type 0) (m : Cached A)
        → Ends P E m
        → Ends (Attempted P E) E (attempt m)
    unfolding attempt
    attempt-Ends P E m h rc ready = caught-Ended P E (m rc) (h rc ready)

    Attempted-mono :
        {A : Type 0} (P : A → Type 0) (a : Option A)
        → Attempted P (λ e. ⊥) a
        → Attempted P (λ e. Unit) a
    Attempted-mono P (some a) h = h
    Attempted-mono P none h = tt

    caught-corrupt-Ended :
        {A : Type 0} (P : A → Type 0) (r : Cache × Outcome A)
        → Ended P (λ e. e ≡ Error.corrupt) r
        → Ended (Attempted P (λ e. Unit)) (λ e. ⊥) (caught r)
    unfolding caught
    caught-corrupt-Ended P (rc, ok a) h = h
    caught-corrupt-Ended P (rc, err e) (inl h) = rw (h.0, caught) (tt, h.1)
    caught-corrupt-Ended P (rc, err e) (inr h) =
        Ended-mono (Attempted P (λ e. ⊥)) (Attempted P (λ e. Unit)) (λ e. ⊥) (λ e. ⊥) _
          (caught-err P (λ e. ⊥) rc e (inr h)) (Attempted-mono P) (λ e x. x)
    caught-corrupt-Ended P (rc, abort) h = h
    caught-corrupt-Ended P (rc, out_of_fuel) h = h
    caught-corrupt-Ended P (rc, fault) h = h

    -- The same where LFS_ERR_CORRUPT is the only error of the code's own: none is left.
    pub attempt-corrupt-Ends :
        {A : Type 0} (P : A → Type 0) (m : Cached A)
        → Ends P (λ e. e ≡ Error.corrupt) m
        → Ends (Attempted P (λ e. Unit)) (λ e. ⊥) (attempt m)
    unfolding attempt
    attempt-corrupt-Ends P m h rc ready = caught-corrupt-Ended P (m rc) (h rc ready)

module _ {D : Type 0} (g : Geometry) (drv : Driver D) (d : D) (disk : ℕ → ℕ → ℕ) (v : IsGeometry g)
    (reads : Reads drv d disk) where
  read-Ended :
      (block offset size : ℕ) (r : Cache × Outcome (List ℕ))
      → IsRead g drv d disk none block offset size r
      → Ended g drv d disk (λ bytes. bytes ≡ tabulate (disk block) offset size) (λ e. ⊥) r
  read-Ended block offset size (rc, ok bytes) h = h
  read-Ended block offset size (rc, err e) h = inr (block, h)
  read-Ended block offset size (rc, abort) h = h
  read-Ended block offset size (rc, out_of_fuel) h = h
  read-Ended block offset size (rc, fault) h = h

  -- A read of what lies in its block.
  pub read-Ends :
      (hint block offset size : ℕ)
      → block < g.block_count
      → 0 < hint
      → hint ≤ 2 ^ 32
      → offset + size ≤ g.block_size
      → Ends g drv d disk
          (λ bytes. bytes ≡ tabulate (disk block) offset size)
          (λ e. ⊥)
          (λ rc. bd_read g drv d none hint block rc offset size)
  read-Ends hint block offset size inside pos low fits rc ready = read-Ended block offset size _ (
      bd_read-IsRead g drv d disk v reads none hint block tt inside pos low rc offset size ready
        fits)

  -- A read that may go past the end of its block, which is LFS_ERR_CORRUPT.
  pub read_past-Ends :
      (hint block offset size : ℕ)
      → 0 < hint
      → hint ≤ 2 ^ 32
      → block < g.block_count
      → offset + size < 2 ^ 64
      → Ends g drv d disk
          (λ bytes. (bytes ≡ tabulate (disk block) offset size) × (offset + size ≤ g.block_size))
          (λ e. (e ≡ Error.corrupt) × (g.block_size < offset + size))
          (λ rc. bd_read g drv d none hint block rc offset size)
  unfolding bd_read
  read_past-Ends hint block offset size pos low inside short rc ready =
      elim (Bool-cases (ltb g.block_size (offset + size))) [
        | inl e ↦
            (let past : (leb g.block_count block || ltb g.block_size (add64 offset size)) ≡ true =
                ground arith in
              rw past (inl ((refl, ground arith), ready)))
        | inr e ↦
            (let fits : offset + size ≤ g.block_size = ground arith in
              Ended-mono g drv d disk _ _ _ _ _
                (read-Ends hint block offset size inside pos low fits rc ready)
                (λ bytes h. (h, fits)) (λ e' h. absurd h))
      ]

  -- The same where the hint is the size, which may be 0.
  pub read_exact-Ends :
      (block offset size : ℕ)
      → size ≤ 2 ^ 32
      → block < g.block_count
      → offset + size < 2 ^ 64
      → Ends g drv d disk
          (λ bytes. (bytes ≡ tabulate (disk block) offset size) × (offset + size ≤ g.block_size))
          (λ e. (e ≡ Error.corrupt) × (g.block_size < offset + size))
          (λ rc. bd_read g drv d none size block rc offset size)
  unfolding bd_read read_loop
  read_exact-Ends block offset (suc n) low inside short rc ready =
      read_past-Ends (suc n) block offset (suc n) (omega arith) low inside short rc ready
  read_exact-Ends block offset zero low inside short rc ready =
      elim (Bool-cases (ltb g.block_size offset)) [
        | inl e ↦
            (let past : (leb g.block_count block || ltb g.block_size (add64 offset 0)) ≡ true =
                ground arith in
              rw past (inl ((refl, ground arith), ready)))
        | inr e ↦
            (let passes : (leb g.block_count block || ltb g.block_size (add64 offset 0)) ≡ false =
                ground arith in
              rw passes ((refl, ground arith), ready))
      ]
