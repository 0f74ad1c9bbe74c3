-- ===== src/Allocator/Overflow.antt =====
-- A window of 16 times the buffer's bytes, where the buffer has 8 bits to a byte.
use native.Mathlib.Nat.{mod-lt}
use littlefs_v.Base.{
  ℕ, ◌+◌, ◌*◌, ◌/◌, ◌%◌, ◌^◌, ◌≤◌, ◌<◌, List, none, true, ◌≡◌, arith, length, get_elem?_past, ltb,
  add64, sub64, refl,
}
use littlefs_v.Utility.Align.{lfs_min}
use littlefs_v.Allocator.{Free, alloc_lookahead, set_bit, next_window}
use littlefs_v.Allocator.Bitmap.{length-clear}
use littlefs_v.Allocator.Window.{position}

set_bit_past : (buffer : List ℕ) (o : ℕ) → length buffer ≤ o / 64 → set_bit buffer o ≡ none
unfolding set_bit
set_bit_past buffer o h = rw (set_bit, get_elem?_past buffer (o / 64) h) refl

-- With a buffer of `words` words and more than 64 times as many blocks left to look at, a new window
-- has a block in it whose mark is an access past the buffer, the one 64 times `words` from its start.
pub alloc_lookahead_overflows :
    (block_count words : ℕ) (f : Free)
    → block_count < 2 ^ 63
    → 0 < words
    → words < 2 ^ 50
    → length f.buffer ≡ words
    → f.offset < block_count
    → f.size ≤ block_count
    → f.ack ≤ block_count
    → 64 * words < f.ack
    → let f' = next_window block_count (8 * words) f in
      (64 * words < f'.size)
      × (alloc_lookahead block_count f' ((f'.offset + 64 * words) % block_count) ≡ none)
unfolding next_window lfs_min alloc_lookahead
alloc_lookahead_overflows bc words f small pos low long inside short ack many =
    let f' : Free = next_window bc (8 * words) f in
    let size : 64 * words < f'.size = ground arith in
    let start : f'.offset < bc = mod-lt (add64 f.offset f.size) (omega arith) in
    let b = (f'.offset + 64 * words) % bc in
    let b_low : b < bc = mod-lt (f'.offset + 64 * words) (omega arith) in
    let at : add64 (sub64 b f'.offset) bc % bc ≡ 64 * words =
      ground (arith, position bc f'.offset b (64 * words) small start b_low (omega arith)) in
    let past : length f'.buffer ≤ 64 * words / 64 =
      omega (arith, long, length-clear (8 * words / 8) f.buffer) in
    (size, overflow bc f' b (64 * words) at size past)
  where
    overflow :
        (bc : ℕ) (f : Free) (b o : ℕ)
        → add64 (sub64 b f.offset) bc % bc ≡ o
        → o < f.size
        → length f.buffer ≤ o / 64
        → alloc_lookahead bc f b ≡ none
    overflow bc f b o e h p =
        let inside : ltb o f.size ≡ true = ground arith in
        rw (alloc_lookahead, e, inside, set_bit_past f.buffer o p) refl
