-- ===== src/Tests/Index.antt =====
-- A list of four blocks of src/littlefs_v2/lfs_file_index.cpp, each at the block of its index.
use native.Mathlib.Nat.{one-le-pow}
use littlefs_v.Base.{
  [], ◌∷◌, ℕ, zero, suc, ◌+◌, ◌-◌, ◌*◌, ◌^◌, ◌≤◌, ◌≡◌, refl, arith, none, tabulate, ◌==◌,
  if◌then◌else◌,
}
use littlefs_v.Device.View.{view}
use littlefs_v.Device.Read.Step.{IsReady}
use littlefs_v.Index.{ctz64, ctz_from, le64, find_loop, popc64, ctz_index, through_int}
use littlefs_v.Index.Traverse.{traverse_loop}
use littlefs_v.Index.Traverse.Loop.{IsTraversed, call_each, traverse_loop-IsTraversed}
use littlefs_v.Index.Traverse.Count.{size_count, IsCounted, traverse_loop-IsCounted}
use littlefs_v.Index.Find.{IsList, IsFound, find_loop-IsFound}
use littlefs_v.Tests.DeviceWrites.{Shelf, shelf, sizes, sizes-IsGeometry, shelf-Reads, empty_cache}

abbrev four : Shelf
four b o = if o == 0 then b - 1 else 0

abbrev itself : ℕ → ℕ
itself i = i

four-IsList : IsList sizes (view none four) itself 3
unfolding ctz64 ctz_from le64
four-IsList = record { inside = λ i h. omega arith; room = room; pointers = pointers }
  where
    room : (i : ℕ) → i ≤ 3 → 8 * ctz64 i + 8 ≤ 16
    room zero h = omega arith
    room (suc zero) h = omega arith
    room (suc (suc zero)) h = omega arith
    room (suc (suc (suc zero))) h = omega arith
    room (suc (suc (suc (suc i)))) h = absurd (omega arith)

    pointers :
        (i k : ℕ) → i ≤ 3 → k ≤ ctz64 i → 2 ^ k ≤ i → le64 (tabulate (four i) (8 * k) 8) ≡ i - 2 ^ k
    pointers zero k h z p = absurd (omega (arith, one-le-pow k 2 (omega arith)))
    pointers (suc zero) zero h z p = refl
    pointers (suc zero) (suc k) h z p = absurd (omega (arith, z))
    pointers (suc (suc zero)) zero h z p = refl
    pointers (suc (suc zero)) (suc zero) h z p = refl
    pointers (suc (suc zero)) (suc (suc k)) h z p = absurd (omega (arith, z))
    pointers (suc (suc (suc zero))) zero h z p = refl
    pointers (suc (suc (suc zero))) (suc k) h z p = absurd (omega (arith, z))
    pointers (suc (suc (suc (suc i)))) k h z p = absurd (omega arith)

four-IsReady : IsReady sizes four empty_cache
four-IsReady = record {
  placed = omega arith;
  coherent = λ o from to below. absurd (omega arith);
  room = omega arith;
}

find_loop-IsFound_example :
    IsFound sizes shelf four four sizes-IsGeometry
      (shelf-Reads four)
      none
      tt
      itself
      3
      four-IsList
      (omega arith)
      0
      (find_loop sizes shelf four none 4 empty_cache 3 3 0)
find_loop-IsFound_example =
    find_loop-IsFound sizes shelf four four sizes-IsGeometry (shelf-Reads four) none tt itself 3
      four-IsList (omega arith) 4 empty_cache 3 0 four-IsReady (omega arith) (omega arith)
      (omega arith)

-- The last byte of a full first block.
ctz_index_first : ctz_index 128 127 ≡ (0, 127)
unfolding ctz_index popc64 through_int
ctz_index_first = refl

-- The first byte behind the pointer of the second block.
ctz_index_second : ctz_index 128 128 ≡ (1, 8)
unfolding ctz_index popc64 through_int
ctz_index_second = refl

-- Four blocks, counted as five.
traverse_loop-IsCounted_example :
    IsCounted sizes shelf four four sizes-IsGeometry
      (shelf-Reads four)
      none
      tt
      itself
      3
      four-IsList
      (omega arith)
      5
      (traverse_loop sizes shelf four none size_count 4 empty_cache 0 3 3)
traverse_loop-IsCounted_example =
    traverse_loop-IsCounted sizes shelf four four sizes-IsGeometry (shelf-Reads four) none tt itself
      3 four-IsList (omega arith) 4 empty_cache four-IsReady (omega arith)

traverse_loop-IsTraversed_example :
    IsTraversed sizes shelf four four sizes-IsGeometry
      (shelf-Reads four)
      none
      tt
      size_count
      itself
      3
      four-IsList
      (omega arith)
      (call_each sizes shelf four four sizes-IsGeometry
        (shelf-Reads four)
        none
        tt
        size_count
        itself
        3
        four-IsList
        (omega arith)
        0
        (3 ∷ 2 ∷ 2 ∷ 1 ∷ 0 ∷ []))
      (traverse_loop sizes shelf four none size_count 4 empty_cache 0 3 3)
traverse_loop-IsTraversed_example =
    traverse_loop-IsTraversed sizes shelf four four sizes-IsGeometry (shelf-Reads four) none tt
      size_count itself 3 four-IsList (omega arith) 4 empty_cache 0 3 four-IsReady (omega arith)
      (omega arith)
