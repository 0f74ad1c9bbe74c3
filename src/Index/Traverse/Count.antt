-- ===== src/Index/Traverse/Count.antt =====
-- The callback of `lfs_fs_size` (src/littlefs_v2/lfs_operations.cpp) on the blocks of one file.
use littlefs_v.Base.{
  ℕ, ◌+◌, ◌%◌, ◌^◌, ◌<◌, List, [], ◌∷◌, Option, some, none, ◌≡◌, sym, ap, ◌∙◌, inl, inr, arith,
  length, add64,
}
use littlefs_v.Errors.{Error, Outcome, ok, err, abort, out_of_fuel, fault}
use littlefs_v.Device.{Geometry, Driver, Cache}
use littlefs_v.Device.View.{view, IsPlacedWrite, Reads, Fails, IsGeometry}
use littlefs_v.Device.Read.Step.{IsReady}
use littlefs_v.Index.Find.{IsList}
use littlefs_v.Index.Traverse.{Traversed, traverse_loop}
use littlefs_v.Index.Traverse.Visits.{visits, length-visits}
use littlefs_v.Index.Traverse.Loop.{IsTraversed, call_each, traverse_loop-IsTraversed}

-- `lfs_fs_size_count`
unfoldable pub size_count : ℕ → ℕ → ℕ × Option Error
size_count size block = (add64 size 1, none)

module _ {D : Type 0} (g : Geometry) (drv : Driver D) (d : D) (disk : ℕ → ℕ → ℕ) (v : IsGeometry g)
    (reads : Reads drv d disk) (wc : Option Cache) (wp : IsPlacedWrite g wc) (at : ℕ → ℕ) (last : ℕ)
    (l : IsList g (view wc disk) at last) (low : last < 2 ^ 62) where
  abbrev counts : ℕ → List ℕ → ℕ × Option Error
  counts = call_each g drv d disk v reads wc wp size_count at last l (omega arith)

  count_all :
      (size : ℕ) (bs : List ℕ)
      → size + length bs < 2 ^ 64
      → counts size bs ≡ (size + length bs, none)
  unfolding size_count
  count_all size [] h = ap (λ t. (t, none)) (omega arith)
  count_all size (b ∷ bs) h =
      let next : add64 size 1 ≡ size + 1 = omega arith in
      rw next (count_all (size + 1) bs (omega arith) ∙ ap (λ t. (t, none)) (omega arith))

  -- A count that ends with 0 is `size`, and one that does not ends with an error of the device's.
  abbrev pub IsCounted : ℕ → Traversed ℕ → Type 0
  IsCounted size r = elim r.result [
    | ok u ↦ r.data_ ≡ size
    | err e ↦ (block : ℕ) × Fails drv d block e
    | abort ↦ ⊥
    | out_of_fuel ↦ ⊥
    | fault ↦ ⊥
  ]

  counted :
      (size s : ℕ) (rc : Cache) (o : Outcome (Unit {0}))
      → IsTraversed g drv d disk v reads wc wp size_count at last l
          (omega arith)
          (size, none)
          (record { data_ = s; read_cache = rc; result = o })
      → IsCounted size (record { data_ = s; read_cache = rc; result = o })
  counted size s rc (ok u) e = sym (ap (λ r. r.0) e)
  counted size s rc (err x) (inl same) =
      (let no : ◌≡◌ {A = Option Error} none (some x) = ap (λ r. r.1) same in absurd (cc))
  counted size s rc (err x) (inr f) = f
  counted size s rc abort e = e
  counted size s rc out_of_fuel e = e
  counted size s rc fault e = e

  -- On a device whose sizes fit together, with one erase unit to a block, and with the callback
  -- that counts blocks from 0, the loop on a list whose pointers are what the list says and whose
  -- last index `last` is below 2 ^ 62 ends with an error with which the device failed a read; or
  -- with the count `last + 1` where `last` is even, and one more than that, `last + 2`, where it
  -- is odd.
  pub traverse_loop-IsCounted :
      (left : ℕ) (rc : Cache)
      → IsReady g disk rc
      → last < left
      → IsCounted
          (last + 1 + last % 2)
          (traverse_loop g drv d wc size_count left rc 0 (at last) last)
  traverse_loop-IsCounted left rc ready enough =
      let low' : last < 2 ^ 63 = omega arith in
      let r = traverse_loop g drv d wc size_count left rc 0 (at last) last in
      let long = length-visits at last in
      let calls : counts 0 (visits at last) ≡ (last + 1 + last % 2, none) =
        count_all 0 (visits at last) (omega (arith, long))
        ∙ ap (λ n. (n, none)) (omega (arith, long)) in
      let t =
        traverse_loop-IsTraversed g drv d disk v reads wc wp size_count at last l (omega arith) left
          rc 0 last ready (omega arith) enough in
      counted (last + 1 + last % 2) r.data_ r.read_cache r.result (rw calls at t)
