-- ===== src/Index/Traverse/Loop.antt =====
-- The loop of `lfs_ctz_traverse` ends, and makes the calls that `visits` lists.
use littlefs_v.Base.{
  ℕ, zero, suc, ◌-◌, ◌*◌, ◌%◌, ◌^◌, ◌≤◌, ◌<◌, List, [], ◌∷◌, false, bit_and, ◌==◌, sub64, Option,
  some, none, ◌≡◌, refl, ap, ◌∙◌, ◌⊎◌, inl, inr, arith, tabulate, Bool-cases, take, drop,
}
use littlefs_v.Base.Bits.{bit_and_low}
use littlefs_v.Errors.{Error, Outcome, ok, err, abort, out_of_fuel, fault}
use littlefs_v.Device.{Geometry, Driver, Cache}
use littlefs_v.Device.View.{view, IsPlacedWrite, Reads, Fails, IsGeometry}
use littlefs_v.Device.Read.{bd_read}
use littlefs_v.Device.Read.Step.{IsReady}
use littlefs_v.Device.Read.Loop.{IsRead, bd_read-IsRead}
use littlefs_v.Index.{le64}
use littlefs_v.Index.Find.{IsList}
use littlefs_v.Index.Traverse.{Traversed, called, read_heads, traverse_loop}
use littlefs_v.Index.Traverse.Visits.{visits, visits-odd, visits-even, ctz64_even}

module _ {D S : Type 0} (g : Geometry) (drv : Driver D) (d : D) (disk : ℕ → ℕ → ℕ)
    (v : IsGeometry g) (reads : Reads drv d disk) (wc : Option Cache) (wp : IsPlacedWrite g wc)
    (cb : S → ℕ → S × Option Error) (at : ℕ → ℕ) (last : ℕ) (l : IsList g (view wc disk) at last)
    (low : last < 2 ^ 63) where
  abbrev after : S × Option Error → (S → S × Option Error) → S × Option Error
  after (s, some e) next = (s, some e)
  after (s, none) next = next s

  -- The calls for a list of blocks, up to the first that does not return 0.
  abbrev pub call_each : S → List ℕ → S × Option Error
  call_each s [] = (s, none)
  call_each s (b ∷ bs) = after (cb s b) (λ s'. call_each s' bs)

  abbrev IsResult : S × Option Error → S → Outcome (Unit {0}) → Type 0
  IsResult calls s (ok u) = calls ≡ (s, none)
  IsResult calls s (err e) = (calls ≡ (s, some e)) ⊎ ((block : ℕ) × Fails drv d block e)
  IsResult calls s abort = ⊥
  IsResult calls s out_of_fuel = ⊥
  IsResult calls s fault = ⊥

  -- What a traversal leaves, where the calls come to `calls`: their state, and their error if they have
  -- one; or an error with which the device failed a read.
  abbrev pub IsTraversed : S × Option Error → Traversed S → Type 0
  IsTraversed calls r = IsResult calls r.data_ r.result

  called-IsTraversed :
      (rc : Cache) (r : S × Option Error) (calls : S → S × Option Error) (next : S → Traversed S)
      → ((s : S) → IsTraversed (calls s) (next s))
      → IsTraversed (after r calls) (called g drv d wc cb rc r next)
  unfolding called
  called-IsTraversed rc (s, some e) calls next f = inl refl
  called-IsTraversed rc (s, none) calls next f = f s

  read_heads-IsTraversed :
      (s : S) (block n : ℕ) (r : Cache × Outcome (List ℕ)) (calls : S × Option Error)
      (next : Cache → List ℕ → Traversed S)
      → IsRead g drv d disk wc block 0 n r
      → ((rc : Cache)
          → IsReady g disk rc
          → IsTraversed calls (next rc (tabulate (view wc disk block) 0 n)))
      → IsTraversed calls (read_heads g drv d wc cb s r next)
  unfolding read_heads
  read_heads-IsTraversed s block n (rc, ok bytes) calls next (e, ready) f = rw e (f rc ready)
  read_heads-IsTraversed s block n (rc, err e) calls next h f = inr (block, h)
  read_heads-IsTraversed s block n (rc, abort) calls next h f = h
  read_heads-IsTraversed s block n (rc, out_of_fuel) calls next h f = h
  read_heads-IsTraversed s block n (rc, fault) calls next h f = h

  -- The rest of a round that reads `count` words.
  abbrev stepping : ℕ → Cache → S → ℕ → ℕ → ℕ → Traversed S
  stepping left rc s head count next = called g drv d wc cb rc (cb s head) (λ s1.
      read_heads g drv d wc cb s1 (bd_read g drv d wc (count * 8) head rc 0 (count * 8))
        (λ rc' bytes. called g drv d wc cb rc' (cb s1 (le64 (take 8 bytes))) (λ s2.
          traverse_loop g drv d wc cb left rc' s2 (le64 (take 8 (drop (8 * (count - 1)) bytes)))
            next)))

  traverse_loop-suc :
      (left : ℕ) (rc : Cache) (s : S) (head index : ℕ)
      → (index == 0) ≡ false
      → traverse_loop g drv d wc cb (suc left) rc s head index
        ≡ stepping left rc s head (2 - bit_and index 1) (sub64 index (2 - bit_and index 1))
  unfolding traverse_loop
  traverse_loop-suc left rc s head index more = rw (traverse_loop, more) refl

  -- A round of the loop, from the words that the block has to have and from the rounds behind it.
  round-IsTraversed :
      (left : ℕ) (rc : Cache) (s : S) (index count : ℕ)
      → IsReady g disk rc
      → index ≤ last
      → count * 8 ≤ g.block_size
      → 0 < count
      → count ≤ 2
      → let words = tabulate (view wc disk (at index)) 0 (count * 8) in
        le64 (take 8 words) ≡ at (index - 1)
        → le64 (take 8 (drop (8 * (count - 1)) words)) ≡ at (index - count)
        → ((rc' : Cache) (s' : S)
            → IsReady g disk rc'
            → IsTraversed
                (call_each s' (visits at (index - count)))
                (traverse_loop g drv d wc cb left rc' s' (at (index - count)) (index - count)))
        → IsTraversed
            (call_each s (at index ∷ at (index - 1) ∷ visits at (index - count)))
            (stepping left rc s (at index) count (index - count))
  round-IsTraversed left rc s index count ready h room pos few first final rest =
      let next : Cache → S → List ℕ → Traversed S = λ rc' s2 bytes.
        traverse_loop g drv d wc cb left rc' s2 (le64 (take 8 (drop (8 * (count - 1)) bytes)))
          (index - count) in
      called-IsTraversed rc (cb s (at index))
        (λ s1. call_each s1 (at (index - 1) ∷ visits at (index - count)))
        (λ s1.
          read_heads g drv d wc cb s1 (bd_read g drv d wc (count * 8) (at index) rc 0 (count * 8))
            (λ rc' bytes.
              called g drv d wc cb rc' (cb s1 (le64 (take 8 bytes))) (λ s2. next rc' s2 bytes)))
        (λ s1.
          read_heads-IsTraversed s1 (at index) (count * 8)
            (bd_read g drv d wc (count * 8) (at index) rc 0 (count * 8))
            (call_each s1 (at (index - 1) ∷ visits at (index - count)))
            (λ rc' bytes.
              called g drv d wc cb rc' (cb s1 (le64 (take 8 bytes))) (λ s2. next rc' s2 bytes))
            (bd_read-IsRead g drv d disk v reads wc (count * 8) (at index) wp (l.inside index h)
              (omega arith) (omega arith) rc 0 (count * 8) ready (omega arith))
            (λ rc' ready'.
              rw (first, final)
                (called-IsTraversed rc' (cb s1 (at (index - 1)))
                  (λ s2. call_each s2 (visits at (index - count)))
                  (λ s2.
                    traverse_loop g drv d wc cb left rc' s2 (at (index - count)) (index - count))
                  (λ s2. rest rc' s2 ready'))))

  -- On a device whose sizes fit together, with one erase unit to a block, and from any block of a
  -- list whose pointers are what the list says and whose last index is below 2 ^ 63, the loop
  -- makes the calls that `visits` lists, up to the first that does not return 0, and returns what
  -- that one returned; or it ends with an error with which the device failed a read.
  pub traverse_loop-IsTraversed :
      (left : ℕ) (rc : Cache) (s : S) (index : ℕ)
      → IsReady g disk rc
      → index ≤ last
      → index < left
      → IsTraversed
          (call_each s (visits at index))
          (traverse_loop g drv d wc cb left rc s (at index) index)
  traverse_loop-IsTraversed zero rc s index ready h enough = absurd (omega arith)
  traverse_loop-IsTraversed (suc left) rc s zero ready h enough =
      unfold traverse_loop in
      called-IsTraversed rc (cb s (at 0)) (λ s1. (s1, none))
        (λ s1. record { data_ = s1; read_cache = rc; result = ok tt }) (λ s1. refl)
  traverse_loop-IsTraversed (suc left) rc s (suc m) ready h enough =
      elim (Bool-cases (suc m % 2 == 0)) [
        | inl e ↦
            (let n = suc m in
              let even : n % 2 ≡ 0 = ground arith in
              let zeros = ctz64_even n even (omega arith) (omega arith) in
              let count : 2 - bit_and n 1 ≡ 2 = omega (arith, bit_and_low 1 n) in
              let back : sub64 n 2 ≡ n - 2 = omega arith in
              let start : (n == 0) ≡ false = ground arith in
              let stepped =
                traverse_loop-suc left rc s (at n) n start
                ∙ ap (λ c. stepping left rc s (at n) c (sub64 n c)) count
                ∙ ap (stepping left rc s (at n) 2) back in
              rw (stepped, visits-even at n even (omega arith))
                (round-IsTraversed left rc s n 2 ready h (omega (arith, l.room n h, zeros))
                  (omega arith) (omega arith) (l.pointers n 0 h (omega arith) (omega arith))
                  (l.pointers n 1 h zeros (omega arith))
                  (λ rc' s' ready'.
                    traverse_loop-IsTraversed left rc' s' (n - 2) ready' (omega arith)
                      (omega arith))))
        | inr o ↦
            (let n = suc m in
              let odd : n % 2 ≡ 1 = ground arith in
              let count : 2 - bit_and n 1 ≡ 1 = omega (arith, bit_and_low 1 n) in
              let back : sub64 n 1 ≡ n - 1 = omega arith in
              let start : (n == 0) ≡ false = ground arith in
              let stepped =
                traverse_loop-suc left rc s (at n) n start
                ∙ ap (λ c. stepping left rc s (at n) c (sub64 n c)) count
                ∙ ap (stepping left rc s (at n) 1) back in
              rw (stepped, visits-odd at n odd)
                (round-IsTraversed left rc s n 1 ready h (omega (arith, l.room n h)) (omega arith)
                  (omega arith) (l.pointers n 0 h (omega arith) (omega arith))
                  (l.pointers n 0 h (omega arith) (omega arith))
                  (λ rc' s' ready'.
                    traverse_loop-IsTraversed left rc' s' (n - 1) ready' (omega arith)
                      (omega arith))))
      ]
