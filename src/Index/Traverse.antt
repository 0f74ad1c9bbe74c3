-- ===== src/Index/Traverse.antt =====
-- `lfs_ctz_traverse`: a callback on the blocks of a list, two levels to a read where the index is even.
pub mod Visits
pub mod Loop
pub mod Count
use littlefs_v.Base.{
  ℕ, zero, suc, ◌+◌, ◌-◌, ◌*◌, List, Bool, bit_and, ◌==◌, if◌then◌else◌, Option, none, some, take,
  drop, mul64, sub64,
}
use littlefs_v.Errors.{Error, Outcome, ok, err, abort, out_of_fuel, fault}
use littlefs_v.Device.{Geometry, Driver, Cache}
use littlefs_v.Device.Read.{bd_read}
use littlefs_v.Index.{le64, ctz_index}

-- The callback's data, the read cache and what has been returned.
pub record Traversed (S : Type 0) : Type 0 where
  pub data_ : S
  pub read_cache : Cache
  pub result : Outcome (Unit {0})

module _ {D S : Type 0} (g : Geometry) (drv : Driver D) (d : D) (wc : Option Cache)
    (cb : S → ℕ → S × Option Error) where
  -- The callback on a block, and what is done where it returns 0.
  unfoldable pub called : Cache → S × Option Error → (S → Traversed S) → Traversed S
  called rc (s, some e) next = record { data_ = s; read_cache = rc; result = err e }
  called rc (s, none) next = next s

  -- The bytes of a read, and what is done with them.
  unfoldable pub read_heads :
      S → Cache × Outcome (List ℕ) → (Cache → List ℕ → Traversed S) → Traversed S
  read_heads s (rc, ok bytes) next = next rc bytes
  read_heads s (rc, err e) next = record { data_ = s; read_cache = rc; result = err e }
  read_heads s (rc, abort) next = record { data_ = s; read_cache = rc; result = abort }
  read_heads s (rc, out_of_fuel) next = record { data_ = s; read_cache = rc; result = out_of_fuel }
  read_heads s (rc, fault) next = record { data_ = s; read_cache = rc; result = fault }

  unfoldable pub traverse_loop : ℕ → Cache → S → ℕ → ℕ → Traversed S
  unfolding called read_heads
  traverse_loop zero rc s head index = record { data_ = s; read_cache = rc; result = out_of_fuel }
  traverse_loop (suc left) rc s head index =
      let count = 2 - bit_and index 1 in
      called rc (cb s head) (λ s1.
        if index == 0
        then record { data_ = s1; read_cache = rc; result = ok tt }
        else read_heads s1 (bd_read g drv d wc (count * 8) head rc 0 (count * 8)) (λ rc' bytes.
          called rc' (cb s1 (le64 (take 8 bytes))) (λ s2.
            traverse_loop left rc' s2 (le64 (take 8 (drop (8 * (count - 1)) bytes)))
              (sub64 index count))))

  -- lfs_ctz_traverse. A round takes an index at least, so one more than the index is enough.
  unfoldable pub ctz_traverse : Cache → S → ℕ → ℕ → Traversed S
  ctz_traverse rc s head size =
      let index = (ctz_index g.block_size (size - 1)).0 in
      if size == 0
      then record { data_ = s; read_cache = rc; result = ok tt }
      else traverse_loop (suc index) rc s head index
