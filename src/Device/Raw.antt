-- ===== src/Device/Raw.antt =====
-- The reads past the caches: one call of the device, or a failed assertion.
use mathlib.Core.List.{append-nil}
use native.Mathlib.Nat.{mod-le, zero-mod, div-mul-le_self, le-div_iff_mul-le, mul-le-mul_right}
use littlefs_v.Base.{
  ℕ, zero, suc, ◌+◌, ◌-◌, ◌*◌, ◌/◌, ◌%◌, ◌^◌, ◌≤◌, ◌<◌, List, [], ◌≡◌, refl, ap, ◌∙◌, arith, ◌==◌,
  Bool, true, false, not, ◌&&◌, ltb, leb, Bool-cases, inl, inr, if◌then◌else◌, add64, mul64,
}
use littlefs_v.Errors.{Outcome, ok, err, abort, prepend}
use littlefs_v.Utility.Align.{lfs_min}
use littlefs_v.Device.{Geometry, Driver, Reply, done, failed, rawread_loop, rawread}

-- What a caller of a callback hands on.
abbrev pub outcome : {A : Type 0} → Reply A → Outcome A
outcome (done a) = ok a
outcome (failed e) = err e

prepend-nil :
    (r : Reply (List ℕ))
    → elim r [ done bytes ↦ prepend bytes (ok []) | failed e ↦ err e ] ≡ outcome r
prepend-nil (done bytes) = ap ok (append-nil bytes)
prepend-nil (failed e) = refl

module _ {D : Type 0} (g : Geometry) (drv : Driver D) (d : D) where
  rawread_loop-zero : (left block off : ℕ) → rawread_loop g drv d (suc left) block off 0 ≡ ok []
  unfolding rawread_loop
  rawread_loop-zero left block off = refl

  -- The rest of the loop once the round's bytes are in, with none left.
  rawread_loop_end :
      (left block off n : ℕ) → n ≡ 0 → rawread_loop g drv d (suc left) block off n ≡ ok []
  rawread_loop_end left block off n e = rw e (rawread_loop-zero left block off)

  abbrev next_round : ℕ → ℕ → ℕ → ℕ → ℕ → Outcome (List ℕ)
  next_round left block off size delta =
      let off' = add64 off delta in
      rawread_loop g drv d left (if off' == g.erase_size then add64 block 1 else block)
        (if off' == g.erase_size then 0 else off') (size - delta)

  rawread_loop-suc :
      (left block off size delta : ℕ)
      → 0 < size
      → off + size ≤ g.erase_size
      → off + size < 2 ^ 64
      → size % g.read_size ≡ 0
      → delta ≡ lfs_min size (add64 off g.erase_size)
      → rawread_loop g drv d (suc left) block off size ≡ elim (drv.read d block off delta) [
        | done bytes ↦ prepend bytes (next_round left block off size delta)
        | failed e ↦ err e
      ]
  unfolding rawread_loop
  rawread_loop-suc left block off size delta pos fits small whole e = rw e (ground arith)

  -- Inside one erase unit the first round takes all.
  rawread_loop_one :
      (left block off size : ℕ)
      → 0 < size
      → off + size ≤ g.erase_size
      → off + size < 2 ^ 64
      → g.erase_size + g.erase_size < 2 ^ 64
      → size % g.read_size ≡ 0
      → rawread_loop g drv d (suc (suc left)) block off size ≡ outcome (drv.read d block off size)
  rawread_loop_one left block off size pos fits small wide whole =
      let e : size ≡ lfs_min size (add64 off g.erase_size) = unfold lfs_min in ground arith in
      rawread_loop-suc (suc left) block off size size pos fits small whole e
      ∙ ap {B = Outcome (List ℕ)}
          (λ rest. elim (drv.read d block off size) [
            | done bytes ↦ prepend bytes rest
            | failed e ↦ err e
          ])
          (rawread_loop_end left _ _ (size - size) (omega arith))
      ∙ prepend-nil (drv.read d block off size)

  -- A read past the caches that is not empty, in range, aligned and in one erase unit is a single
  -- call of the device's `read`, at the unit and the offset in it, where the units' addresses and
  -- sums of offsets fit 64 bits.
  pub rawread_one :
      (block off size : ℕ)
      → 0 < size
      → block < g.block_count
      → off + size ≤ g.block_size
      → off % g.erase_size + size ≤ g.erase_size
      → size % g.read_size ≡ 0
      → g.erase_size + g.erase_size < 2 ^ 64
      → g.block_size < 2 ^ 64
      → g.block_count * (g.block_size / g.erase_size) < 2 ^ 64
      → rawread g drv d block off size
        ≡ outcome (
            drv.read d
              (block * (g.block_size / g.erase_size) + off / g.erase_size)
              (off % g.erase_size)
              size)
  rawread_one block off (suc s) pos inside fits unit whole wide small total =
      let k = g.block_size / g.erase_size in
      let size = suc s in
      let up : block * k + k ≤ g.block_count * k = omega (arith, mul-le-mul_right k inside) in
      let over : off / g.erase_size ≤ k =
        (le-div_iff_mul-le {k = g.erase_size} (omega arith)).1
          (omega (arith, div-mul-le_self off g.erase_size)) in
      let address : add64 (mul64 block k) (off / g.erase_size) ≡ block * k + off / g.erase_size =
        omega arith in
      let below : off % g.erase_size ≤ off = mod-le off g.erase_size in
      let enter : rawread g drv d block off size
          ≡ rawread_loop g drv d (suc size) (add64 (mul64 block k) (off / g.erase_size))
              (off % g.erase_size) size =
        unfold rawread in ground arith in
      enter
      ∙ rw address (
          rawread_loop_one s (block * k + off / g.erase_size) (off % g.erase_size) size pos unit
            (omega arith) wide whole)
  rawread_one block off zero pos inside fits unit whole wide small total = absurd (omega arith)

  pub rawread_zero :
      (block off : ℕ)
      → block < g.block_count
      → off ≤ g.block_size
      → g.block_size < 2 ^ 64
      → rawread g drv d block off 0 ≡ ok []
  unfolding rawread
  rawread_zero block off inside fits small = ground (
    arith,
    zero-mod g.read_size,
    rawread_loop-zero 0 (add64 (mul64 block (g.block_size / g.erase_size)) (off / g.erase_size))
        (off % g.erase_size),
  )

  rawread_loop_spans :
      (left block off size : ℕ)
      → 0 < size
      → off + size < 2 ^ 64
      → g.erase_size < off + size
      → rawread_loop g drv d (suc left) block off size ≡ abort
  unfolding rawread_loop
  rawread_loop_spans left block off size pos small spans = ground arith

  rawread_spans :
      (block off size : ℕ)
      → 0 < size
      → g.erase_size < off % g.erase_size + size
      → off + size ≤ g.block_size
      → g.block_size < 2 ^ 64
      → rawread g drv d block off size ≡ abort
  unfolding rawread
  rawread_spans block off size pos spans fits small = ground (
    arith,
    mod-le off g.erase_size,
    rawread_loop_spans size (add64 (mul64 block (g.block_size / g.erase_size)) (off / g.erase_size))
        (off % g.erase_size) size,
  )

  -- What a read may ask for: a range of a block, in whole read units.
  abbrev pub in_range : ℕ → ℕ → ℕ → Bool
  in_range block off size =
      ltb block g.block_count && (leb (off + size) g.block_size && (size % g.read_size == 0))

  -- A read without a loop: nothing, or one call of the device at the erase unit and the offset in it,
  -- or a failed assertion where the range goes on into the next unit.
  abbrev pub read_in_unit : ℕ → ℕ → ℕ → Outcome (List ℕ)
  read_in_unit block off size =
      if not (in_range block off size)
      then abort
      else if size == 0
      then ok []
      else if leb (off % g.erase_size + size) g.erase_size
      then outcome (
          drv.read d (block * (g.block_size / g.erase_size) + off / g.erase_size)
            (off % g.erase_size) size)
      else abort

  in_range_facts :
      (block off size : ℕ)
      → in_range block off size ≡ true
      → (block < g.block_count) × (off + size ≤ g.block_size) × (size % g.read_size ≡ 0)
  in_range_facts block off size h = (ground arith, ground arith, ground arith)

  refused :
      (block off size : ℕ)
      → off + size < 2 ^ 64
      → in_range block off size ≡ false
      → rawread g drv d block off size ≡ abort
  unfolding rawread
  refused block off size small no_range = ground arith

  -- `lfs_bd_rawread` is a read without a loop, where the range and two erase units stay below 2 ^ 64 and
  -- the addresses of the units fit 64 bits: though its comment has it read in chunks of erase units,
  -- it calls the device once at most, for the whole range and at the unit's address, and fails an
  -- assertion on every range that is not in its block, not whole read units, or not in one erase
  -- unit.
  pub rawread-eq-read_in_unit :
      (block off size : ℕ)
      → off + size < 2 ^ 64
      → g.erase_size + g.erase_size < 2 ^ 64
      → g.block_size < 2 ^ 64
      → g.block_count * (g.block_size / g.erase_size) < 2 ^ 64
      → rawread g drv d block off size ≡ read_in_unit block off size
  rawread-eq-read_in_unit block off zero small wide short total =
      elim (Bool-cases (in_range block off 0)) [
        | inl e ↦
            (let facts = in_range_facts block off 0 e in
              rw e (rawread_zero block off facts.0 (omega (arith, facts.1)) short))
        | inr e ↦ rw e (refused block off 0 small e)
      ]
  rawread-eq-read_in_unit block off (suc s) small wide short total =
      let some_bytes : (suc s == 0) ≡ false = ground arith in
      elim (Bool-cases (in_range block off (suc s))) [
        | inl e ↦
            (let facts = in_range_facts block off (suc s) e in
              elim (Bool-cases (leb (off % g.erase_size + suc s) g.erase_size)) [
                | inl one ↦
                    rw (e, some_bytes, one)
                      (rawread_one block off (suc s) (omega arith) facts.0 facts.1 (ground arith)
                        facts.2 wide short total)
                | inr more ↦
                    rw (e, some_bytes, more)
                      (rawread_spans block off (suc s) (omega arith) (ground arith) facts.1 short)
              ])
        | inr e ↦ rw e (refused block off (suc s) small e)
      ]
