-- ===== src/Tests/Allocator.antt =====
-- The allocator of src/littlefs_v2/lfs_allocator.cpp over ten blocks, three of them in use.
use littlefs_v.Base.{◌+◌, ◌%◌, ◌<◌, [], ◌∷◌, ◌≡◌, none, arith, refl}
use littlefs_v.Errors.{ok}
use littlefs_v.Allocator.{
  Free, Traversal, get_bit, alloc, grown, alloc_drop, alloc_ack, alloc_lookahead, next_window, scan,
  step, mark_window, mark_all, set_bit, hand_out, skip, clear,
}
use littlefs_v.Utility.Align.{lfs_min}
use littlefs_v.Allocator.Window.{AllBelow}
use littlefs_v.Allocator.Ring.{IsRing}
use littlefs_v.Allocator.Refill.{IsLookahead}
use littlefs_v.Allocator.Alloc.{IsAlloc, alloc-IsAlloc, alloc_drop-IsRing, alloc_ack-IsRing}
use littlefs_v.Allocator.Overflow.{alloc_lookahead_overflows}

abbrev met : Traversal
met = record { blocks = 4 ∷ 0 ∷ 5 ∷ []; result = none }

abbrev stale : Free
stale = record { offset = 4; size = 3; i = 2; ack = 7; buffer = 99 ∷ [] }

abbrev fresh_free : Free
fresh_free = record { offset = 4; size = 0; i = 0; ack = 10; buffer = 99 ∷ [] }

one_word : IsLookahead 8 1 10
one_word = record { bytes = refl; enough = omega arith; low = omega arith }

fresh-IsRing : IsRing 1 (4 ∷ 0 ∷ 5 ∷ []) [] 10 4 fresh_free
unfolding alloc_drop alloc_ack
fresh-IsRing = alloc_drop-IsRing 1 (4 ∷ 0 ∷ 5 ∷ []) 10 stale (omega arith) (omega arith) refl

met-AllBelow : AllBelow 10 (4 ∷ 0 ∷ 5 ∷ [])
met-AllBelow = omega arith

no_growth : grown 8 none met 10 ≡ none
unfolding grown
no_growth = refl

alloc-IsAlloc_example :
    IsAlloc 1
      (4 ∷ 0 ∷ 5 ∷ [])
      []
      10
      4
      (alloc 8 none met 11 (record { free = fresh_free; block_count = 10 }))
alloc-IsAlloc_example =
    alloc-IsAlloc 8 1 10 4 none [] met one_word met-AllBelow refl no_growth 11 fresh_free
      fresh-IsRing (omega arith)

-- The first block from 4 on that is not in use.
alloc_computed : (alloc 8 none met 11 (record { free = fresh_free; block_count = 10 })).1 ≡ ok 6
unfolding alloc scan step mark_window mark_all next_window alloc_lookahead set_bit get_bit hand_out
    skip clear lfs_min
alloc_computed = refl

alloc_drop-IsRing_example : IsRing 1 (4 ∷ []) [] 10 4 (alloc_drop 10 stale)
alloc_drop-IsRing_example = alloc_drop-IsRing 1 (4 ∷ []) 10 stale (omega arith) (omega arith) refl

alloc_ack-IsRing_example : IsRing 1 (4 ∷ 0 ∷ 5 ∷ []) [] 10 4 (alloc_ack 10 fresh_free)
alloc_ack-IsRing_example = alloc_ack-IsRing 1 (4 ∷ 0 ∷ 5 ∷ []) [] 10 4 fresh_free fresh-IsRing

abbrev large : Free
large = record { offset = 0; size = 0; i = 0; ack = 200; buffer = 0 ∷ [] }

alloc_lookahead_overflows_example :
    let f' = next_window 200 8 large in
    (64 < f'.size) × (alloc_lookahead 200 f' ((f'.offset + 64) % 200) ≡ none)
alloc_lookahead_overflows_example =
    alloc_lookahead_overflows 200 1 large (omega arith) (omega arith) (omega arith) refl
      (omega arith) (omega arith) (omega arith) (omega arith)
