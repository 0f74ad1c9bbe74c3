-- ===== src/Index/Find.antt =====
-- `lfs_ctz_find` follows the pointers of a list down to the block that it is asked for.
use native.Mathlib.Nat.{pow-suc, one-le-pow}
use littlefs_v.Base.{
  ℕ, zero, suc, ◌+◌, ◌-◌, ◌*◌, ◌/◌, ◌^◌, ◌≤◌, ◌<◌, List, true, false, ltb, ◌==◌, add64, sub64,
  mul64, Option, ◌≡◌, refl, ap, ap₂, ◌∙◌, inl, inr, arith, tabulate, Bool-cases,
}
use littlefs_v.Errors.{Outcome, ok, err, abort, out_of_fuel, fault}
use littlefs_v.Utility.Align.{lfs_min}
use littlefs_v.Device.{Geometry, Driver, Cache}
use littlefs_v.Device.View.{view, IsPlacedWrite, Reads, Fails, IsGeometry}
use littlefs_v.Device.Read.{bd_read}
use littlefs_v.Device.Read.Step.{IsReady}
use littlefs_v.Device.Read.Loop.{IsRead, bd_read-IsRead}
use littlefs_v.Index.{bit_length, npw2_64, ctz64, le64, skip_of, find_loop}

bit_length-le : (width a : ℕ) → bit_length width a ≤ width
unfolding bit_length
bit_length-le zero a = omega arith
bit_length-le (suc width) a = ground (arith, bit_length-le width (a / 2))

double : (m a : ℕ) → 2 ^ (suc m - 1) ≤ a / 2 → 2 ^ (suc (suc m) - 1) ≤ a
double m a h =
    let down : suc m - 1 ≡ m = omega arith in
    let up : suc (suc m) - 1 ≡ suc m = omega arith in
    let half : 2 ^ m ≤ a / 2 = rw down at h in rw up (omega (arith, pow-suc 2 m, half))

-- The highest bit of a number is not above it.
pow-bit_length : (width a : ℕ) → 0 < a → 2 ^ (bit_length (suc width) a - 1) ≤ a
unfolding bit_length
pow-bit_length zero a pos = ground arith
pow-bit_length (suc width) a pos = elim (Bool-cases (a / 2 == 0)) [
  | inl none ↦ ground arith
  | inr more ↦
      (let some : (a == 0) ≡ false = ground arith in
        let ih = pow-bit_length width (a / 2) (ground arith) in
        rw (some, more) (double (bit_length width (a / 2 / 2)) a (rw more at ih)))
]

pow_mono : (m n : ℕ) → m ≤ n → 2 ^ m ≤ 2 ^ n
pow_mono zero n h = one-le-pow n 2 (omega arith)
pow_mono (suc m) zero h = absurd (omega arith)
pow_mono (suc m) (suc n) h = omega (arith, pow-suc 2 m, pow-suc 2 n, pow_mono m n (omega arith))

bit_length-pos : (width a : ℕ) → 0 < a → 0 < bit_length (suc width) a
unfolding bit_length
bit_length-pos width a pos = ground arith

-- The exponent of the highest bit of `n`.
highest : (n : ℕ) → 0 < n → n < 2 ^ 63 → sub64 (npw2_64 (add64 n 1)) 1 ≡ bit_length 64 n - 1
unfolding npw2_64
highest n pos small =
    let up : add64 n 1 ≡ n + 1 = omega arith in
    let other : (n + 1 == 1) ≡ false = ground arith in
    let down : sub64 (n + 1) 1 ≡ n = omega arith in
    rw (up, npw2_64, other, down) (omega (arith, bit_length-le 64 n, bit_length-pos 63 n pos))

-- A step goes no further than the target.
skip-fits :
    {D : Type 0} (g : Geometry) (drv : Driver D) (d : D) (wc : Option Cache) (current target : ℕ)
    → target < current
    → current < 2 ^ 63
    → let skip = skip_of g drv d wc current target in
      (2 ^ skip ≤ current - target) × (skip ≤ ctz64 current)
unfolding skip_of lfs_min
skip-fits g drv d wc current target h small =
    let n = current - target in
    let top : 2 ^ (bit_length 64 n - 1) ≤ n = pow-bit_length 63 n (omega arith) in
    let e = highest n (omega arith) (omega arith) in
    least (sub64 (npw2_64 (add64 n 1)) 1) (bit_length 64 n - 1) (ctz64 current) n e top
  where
    least : (a len z n : ℕ) → a ≡ len → 2 ^ len ≤ n → (2 ^ lfs_min a z ≤ n) × (lfs_min a z ≤ z)
    least a len z n e top =
        (omega (arith, pow_mono (lfs_min a z) len (ground arith), top), ground arith)

-- A list with the blocks `at 0` to `at last`, as its readers see it.
pub record IsList (g : Geometry) (seen : ℕ → ℕ → ℕ) (at : ℕ → ℕ) (last : ℕ) : Type 0 where
  pub inside : (i : ℕ) → i ≤ last → at i < g.block_count
  pub room : (i : ℕ) → i ≤ last → 8 * ctz64 i + 8 ≤ g.block_size
  pub pointers :
      (i k : ℕ)
      → i ≤ last
      → k ≤ ctz64 i
      → 2 ^ k ≤ i
      → le64 (tabulate (seen (at i)) (8 * k) 8) ≡ at (i - 2 ^ k)

module _ {D : Type 0} (g : Geometry) (drv : Driver D) (d : D) (disk : ℕ → ℕ → ℕ) (v : IsGeometry g)
    (reads : Reads drv d disk) (wc : Option Cache) (wp : IsPlacedWrite g wc) (at : ℕ → ℕ) (last : ℕ)
    (l : IsList g (view wc disk) at last) (low : last < 2 ^ 63) where
  -- What a search leaves: the block that it was asked for, with a read cache fit for use; or an error
  -- with which the device failed a read.
  abbrev pub IsFound : ℕ → Cache × Outcome ℕ → Type 0
  IsFound target (rc, ok block) = (block ≡ at target) × IsReady g disk rc
  IsFound target (rc, err e) = (block : ℕ) × Fails drv d block e
  IsFound target (rc, abort) = ⊥
  IsFound target (rc, out_of_fuel) = ⊥
  IsFound target (rc, fault) = ⊥

  -- What the loop makes of the words that it has read.
  abbrev followed :
      (Cache → List ℕ → Cache × Outcome ℕ) → Cache × Outcome (List ℕ) → Cache × Outcome ℕ
  followed next r = elim r.1 [
    | ok bytes ↦ next r.0 bytes
    | err e ↦ (r.0, err e)
    | abort ↦ (r.0, abort)
    | out_of_fuel ↦ (r.0, out_of_fuel)
    | fault ↦ (r.0, fault)
  ]

  followed-IsFound :
      (target block offset : ℕ) (next : Cache → List ℕ → Cache × Outcome ℕ)
      (r : Cache × Outcome (List ℕ))
      → IsRead g drv d disk wc block offset 8 r
      → ((rc : Cache)
          → IsReady g disk rc
          → IsFound target (next rc (tabulate (view wc disk block) offset 8)))
      → IsFound target (followed next r)
  followed-IsFound target block offset next (rc, ok bytes) (e, ready) f = rw e (f rc ready)
  followed-IsFound target block offset next (rc, err e) h f = (block, h)
  followed-IsFound target block offset next (rc, abort) h f = h
  followed-IsFound target block offset next (rc, out_of_fuel) h f = h
  followed-IsFound target block offset next (rc, fault) h f = h

  -- A round that reads at `offset` and goes on from the index `next`.
  abbrev stepping : ℕ → Cache → ℕ → ℕ → ℕ → ℕ → Cache × Outcome ℕ
  stepping left rc head target offset next =
      followed (λ rc' bytes. find_loop g drv d wc left rc' (le64 bytes) next target)
        (bd_read g drv d wc 8 head rc offset 8)

  find_loop-suc :
      (left : ℕ) (rc : Cache) (head current target : ℕ)
      → ltb target current ≡ true
      → let skip = skip_of g drv d wc current target in
        find_loop g drv d wc (suc left) rc head current target
        ≡ stepping left rc head target (mul64 8 skip) (sub64 current (2 ^ skip))
  unfolding find_loop
  find_loop-suc left rc head current target more = rw (find_loop, more) refl

  -- On a device whose sizes fit together, with one erase unit to a block, and from any block of a
  -- list whose pointers are what the list says and whose last index is below 2 ^ 63, the loop ends
  -- at the block that it is asked for, of that one's index or a lower one; or with an error with
  -- which the device failed a read.
  pub find_loop-IsFound :
      (left : ℕ) (rc : Cache) (current target : ℕ)
      → IsReady g disk rc
      → current ≤ last
      → target ≤ current
      → current - target < left
      → IsFound target (find_loop g drv d wc left rc (at current) current target)
  unfolding find_loop
  find_loop-IsFound zero rc current target ready h t enough = absurd (omega arith)
  find_loop-IsFound (suc left) rc current target ready h t enough =
      elim (Bool-cases (ltb target current)) [
        | inr there ↦
            (let e : current ≡ target = ground arith in rw (find_loop, there) (ap at e, ready))
        | inl more ↦
            (let skip = skip_of g drv d wc current target in
              let fits = skip-fits g drv d wc current target (ground arith) (omega arith) in
              let room = l.room current h in
              let address : mul64 8 skip ≡ 8 * skip = omega (arith, fits.1, room, v.small) in
              let moves : 0 < 2 ^ skip = one-le-pow skip 2 (omega arith) in
              let back : sub64 current (2 ^ skip) ≡ current - 2 ^ skip = omega (arith, fits.0) in
              let got : IsRead g drv d disk wc (at current) (8 * skip) 8
                  (bd_read g drv d wc 8 (at current) rc (8 * skip) 8) =
                bd_read-IsRead g drv d disk v reads wc 8 (at current) wp (l.inside current h)
                  (omega arith) (omega arith) rc (8 * skip) 8 ready (omega (arith, fits.1, room)) in
              let stepped =
                find_loop-suc left rc (at current) current target more
                ∙ ap₂ (stepping left rc (at current) target) address back in
              rw stepped (
                followed-IsFound target (at current) (8 * skip)
                  (λ rc' bytes.
                    find_loop g drv d wc left rc' (le64 bytes) (current - 2 ^ skip) target)
                  (bd_read g drv d wc 8 (at current) rc (8 * skip) 8) got
                  (λ rc' ready'. rw (l.pointers current skip h fits.1 (omega (arith, fits.0))) (
                    find_loop-IsFound left rc' (current - 2 ^ skip) target ready' (omega arith)
                      (omega (arith, fits.0)) (omega (arith, moves, fits.0))))))
      ]
