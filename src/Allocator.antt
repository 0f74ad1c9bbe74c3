-- ===== src/Allocator.antt =====
-- src/littlefs_v2/lfs_allocator.cpp: blocks are handed out from a window of the device, in which a
-- bitmap marks the blocks that a traversal of the file system has met.
pub mod Bitmap
pub mod Scan
pub mod Window
pub mod Ring
pub mod Refill
pub mod Alloc
pub mod Overflow
use littlefs_v.Base.{
  ℕ, zero, suc, ◌+◌, ◌-◌, ◌*◌, ◌/◌, ◌%◌, ◌^◌, bit_and, bit_or, Bool, true, false, not, List, [],
  ◌∷◌, Option, none, some, ◌==◌, ltb, if◌then◌else◌, add64, sub64, mul64, get_elem?, set,
}
use littlefs_v.Errors.{Error, Outcome, ok, err, abort, out_of_fuel, fault}
use littlefs_v.Utility.Align.{lfs_min}

-- `lfs_free_t`: the window starts at block `offset` and is `size` blocks long, `i` of which have
-- been looked at; `ack` blocks may be looked at before the device is full. A word of the buffer has
-- 64 bits.
pub record Free : Type 0 where
  pub offset : ℕ
  pub size : ℕ
  pub i : ℕ
  pub ack : ℕ
  pub buffer : List ℕ

-- `buffer[offset / 64] |= (uint64_t)1U << (offset % 64)`; `none` is an access past the buffer.
unfoldable pub set_bit : List ℕ → ℕ → Option (List ℕ)
set_bit buffer offset = elim (get_elem? buffer (offset / 64)) [
  | none ↦ none
  | some word ↦ some (set buffer (offset / 64) (bit_or word (2 ^ (offset % 64))))
]

-- `buffer[offset / 64] & ((uint64_t)1U << (offset % 64))`
unfoldable pub get_bit : List ℕ → ℕ → Option Bool
get_bit buffer offset = elim (get_elem? buffer (offset / 64)) [
  | none ↦ none
  | some word ↦ some (not (bit_and word (2 ^ (offset % 64)) == 0))
]

-- `memset(buffer, 0, size)` for `words` words of eight bytes; a short buffer is cleared whole.
unfoldable pub clear : ℕ → List ℕ → List ℕ
clear zero buffer = buffer
clear (suc words) [] = []
clear (suc words) (w ∷ buffer) = 0 ∷ clear words buffer

-- `lfs_alloc_lookahead`; `none` is an access past the buffer. It always returns LFS_ERR_OK.
unfoldable pub alloc_lookahead : ℕ → Free → ℕ → Option Free
alloc_lookahead block_count f block =
    let offset = add64 (sub64 block f.offset) block_count % block_count in
    if ltb offset f.size
    then elim (set_bit f.buffer offset) [
      | none ↦ none
      | some buffer ↦ some (record f { buffer = buffer })
    ]
    else some f

unfoldable pub alloc_ack : ℕ → Free → Free
alloc_ack block_count f = record f { ack = block_count }

unfoldable pub alloc_drop : ℕ → Free → Free
unfolding alloc_ack
alloc_drop block_count f = alloc_ack block_count (record f { size = 0; i = 0 })

-- What `lfs_fs_rawtraverse` does with a callback that never fails: it hands over blocks in turn, and
-- then returns, with an error or without.
pub record Traversal : Type 0 where
  pub blocks : List ℕ
  pub result : Option Error

unfoldable pub mark_all : ℕ → Free → List ℕ → Option Free
mark_all block_count f [] = some f
mark_all block_count f (b ∷ blocks) = elim (alloc_lookahead block_count f b) [
  | none ↦ none
  | some f' ↦ mark_all block_count f' blocks
]

-- `free.i += 1; free.ack -= 1`
unfoldable pub step : Free → Free
step f = record f { i = add64 f.i 1; ack = sub64 f.ack 1 }

-- The eager search for the next free bit, `left` rounds at most.
unfoldable pub skip : ℕ → Free → Outcome Free
skip zero f = out_of_fuel
skip (suc left) f =
    let rest = skip left (step f) in
    if f.i == f.size
    then ok f
    else elim (get_bit f.buffer f.i) [ none ↦ fault | some taken ↦ if taken then rest else ok f ]

-- The search through the window: the offset of a free block with the allocator at it, or none.
unfoldable pub scan : ℕ → Free → Outcome (Option ℕ × Free)
scan zero f = out_of_fuel
scan (suc left) f =
    let rest = scan left (step f) in
    if f.i == f.size then ok (none, f) else elim (get_bit f.buffer f.i) [
      | none ↦ fault
      | some taken ↦ if taken then rest else ok (some f.i, step f)
    ]

-- The part of `lfs_t` that an allocation reads and writes.
pub record Volume : Type 0 where
  pub free : Free
  pub block_count : ℕ

-- A new window behind the old one, and an empty bitmap.
unfoldable pub next_window : ℕ → ℕ → Free → Free
unfolding clear
next_window block_count lookahead_size f = record f {
  offset = add64 f.offset f.size % block_count;
  size = lfs_min (mul64 16 lookahead_size) f.ack;
  i = 0;
  buffer = clear (lookahead_size / 8) f.buffer;
}

-- The free block that the search has found, and the search for the next one.
unfoldable pub hand_out : Volume → ℕ → Free → Volume × Outcome ℕ
hand_out v offset f = elim (skip (suc (f.size - f.i)) f) [
  | ok f' ↦ (record v { free = f' }, ok (add64 f.offset offset % v.block_count))
  | err e ↦ (v, err e)
  | abort ↦ (v, abort)
  | out_of_fuel ↦ (v, out_of_fuel)
  | fault ↦ (v, fault)
]

-- The window once it is marked, or the end of a failed traversal, which drops it.
unfoldable pub mark_window : ℕ → Traversal → Free → Outcome Free × Free
mark_window block_count t f = elim (mark_all block_count f t.blocks) [
  | none ↦ (fault, f)
  | some f' ↦ elim t.result [ some e ↦ (err e, alloc_drop block_count f') | none ↦ (ok f', f') ]
]

-- `lfs_alloc`, with `fuel` windows at most. `grow` is the callback `allocate_block`, which may be
-- null: `none` is LFS_ERR_NOSPC, and a number is the block count that it leaves.
module _ (lookahead_size : ℕ) (grow : Option (ℕ → Option ℕ)) (t : Traversal) where
  -- The device's answer once every block has been looked at.
  unfoldable pub grown : ℕ → Option ℕ
  grown block_count = elim grow [ none ↦ none | some g ↦ g block_count ]

  unfoldable pub alloc : ℕ → Volume → Volume × Outcome ℕ
  alloc zero v = (v, out_of_fuel)
  alloc (suc fuel) v = elim (scan (suc (v.free.size - v.free.i)) v.free) [
    | err e ↦ (v, err e)
    | abort ↦ (v, abort)
    | out_of_fuel ↦ (v, out_of_fuel)
    | fault ↦ (v, fault)
    | ok r ↦ elim r.0 [
      | some offset ↦ hand_out v offset r.1
      | none ↦ elim (r.1.ack == 0) [
        | true ↦ elim (grown v.block_count) [
          | none ↦ (record v { free = r.1 }, err Error.nospc)
          | some count ↦ alloc fuel (record { free = alloc_ack count r.1; block_count = count })
        ]
        | false ↦
            (let marked =
                mark_window v.block_count t (next_window v.block_count lookahead_size r.1) in
              elim marked.0 [
                | ok f ↦ alloc fuel (record v { free = f })
                | err e ↦ (record v { free = marked.1 }, err e)
                | abort ↦ (record v { free = marked.1 }, abort)
                | out_of_fuel ↦ (record v { free = marked.1 }, out_of_fuel)
                | fault ↦ (record v { free = marked.1 }, fault)
              ])
      ]
    ]
  ]
