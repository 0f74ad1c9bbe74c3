-- ===== src/Allocator/Refill.antt =====
-- The refill of the window in `lfs_alloc`: behind the old window, over all that is left.
use native.Mathlib.Nat.{mod-lt, mod-add-mod}
use littlefs_v.Base.{
  ℕ, ◌+◌, ◌-◌, ◌*◌, ◌/◌, ◌%◌, ◌^◌, ◌≤◌, ◌<◌, false, List, none, some, ◌≡◌, refl, sym, ap, ◌∙◌,
  arith, length,
}
use littlefs_v.Errors.{ok}
use littlefs_v.Utility.Align.{lfs_min}
use littlefs_v.Allocator.{Free, Traversal, mark_all, next_window, mark_window}
use littlefs_v.Allocator.Bitmap.{length-clear, get_bit-clear}
use littlefs_v.Allocator.Window.{IsRoom, Marks, AllBelow, mark_all-IsMarkedBy}
use littlefs_v.Allocator.Ring.{IsRing}

-- A buffer of `words` words, as `lookahead_size` bytes, with a bit for each block.
pub record IsLookahead (lookahead_size words bc : ℕ) : Type 0 where
  pub bytes : lookahead_size ≡ 8 * words
  pub enough : bc ≤ 64 * words
  pub low : lookahead_size < 2 ^ 59

mark_window-ends :
    (bc : ℕ) (t : Traversal) (f f' : Free)
    → mark_all bc f t.blocks ≡ some f'
    → t.result ≡ none
    → mark_window bc t f ≡ (ok f', f')
unfolding mark_window
mark_window-ends bc t f f' marks ends = rw (mark_window, marks, ends) refl

place_behind :
    (bc base end n offset i : ℕ)
    → offset ≡ end % bc
    → i ≡ 0
    → end % bc ≡ (base + n) % bc
    → (offset + i) % bc ≡ (base + n) % bc
place_behind bc base end n offset i e z place =
    let here : offset + i ≡ end % bc + 0 = omega arith in
    let there : end + 0 ≡ end = omega arith in
    ap (λ x. x % bc) here ∙ mod-add-mod end bc 0 ∙ ap (λ x. x % bc) there ∙ place

-- The window after a refill: at its start, and not empty.
pub record IsRefilled (used handed : List ℕ) (bc base words : ℕ) (t : Traversal) (f next : Free)
    : Type 0 where
  pub f' : Free
  pub returns : mark_window bc t next ≡ (ok f', f')
  pub ring : IsRing words used handed bc base f'
  pub first : f'.i ≡ 0
  pub left : f'.ack ≡ f.ack
  pub all : 0 < f'.size

module _ (lookahead_size words bc base : ℕ) (handed : List ℕ) (t : Traversal)
    (l : IsLookahead lookahead_size words bc) (below : AllBelow bc t.blocks)
    (ends : t.result ≡ none) where
  pub next_window-IsRefilled :
      (f : Free)
      → IsRing words t.blocks handed bc base f
      → f.i ≡ f.size
      → 0 < f.ack
      → IsRefilled t.blocks handed bc base words t f (next_window bc lookahead_size f)
  unfolding next_window lfs_min
  next_window-IsRefilled f r end pos =
      let n : Free = next_window bc lookahead_size f in
      let count : lookahead_size / 8 ≡ words = omega (arith, l.bytes) in
      let size : n.size ≡ f.ack = ground (arith, l.low, l.bytes, l.enough, r.ack) in
      let offset : n.offset ≡ (f.offset + f.size) % bc =
        ap (λ x. x % bc) (omega (arith, r.small, r.inside, r.short)) in
      let long : length n.buffer ≡ words = length-clear (lookahead_size / 8) f.buffer ∙ r.long in
      let room : IsRoom bc n = record {
        small = r.small;
        inside = rw offset (mod-lt (f.offset + f.size) (omega (arith, r.start)));
        short = omega (arith, size, r.ack);
        fits = omega (arith, size, r.ack, long, l.enough);
      } in
      let empty : Marks bc (λ x. false) n = λ o h.
        get_bit-clear (lookahead_size / 8) f.buffer o (omega (arith, room.fits, long, count))
          (omega (arith, room.fits, long, r.long)) in
      let m = mark_all-IsMarkedBy bc t.blocks (λ x. false) n below room empty in
      record {
        f' = m.f';
        returns = mark_window-ends bc t n m.f' m.returns ends;
        ring = record {
          small = r.small;
          start = r.start;
          inside = omega (arith, m.same.offset, room.inside);
          short = omega (arith, m.same.size, size, r.ack);
          ack = omega (arith, m.same.ack, r.ack);
          long = m.same.long ∙ long;
          window = record {
            at = omega (arith, m.same.i);
            left = omega (arith, m.same.size, m.same.ack, size);
            small = omega (arith, m.same.size, size, r.ack, r.small);
            low = omega (arith, m.same.ack, r.ack, r.small);
            marks = λ o h p. m.marks o p ∙ ap some (ground arith);
          };
          place =
              place_behind bc base (f.offset + f.size) (bc - m.f'.ack) m.f'.offset m.f'.i
                (m.same.offset ∙ offset) m.same.i
                (ap (λ x. (f.offset + x) % bc) (sym end)
                  ∙ r.place
                  ∙ ap (λ a. (base + (bc - a)) % bc) (sym m.same.ack));
          passed = λ k p. r.passed k (omega (arith, m.same.ack));
          recent = rw m.same.ack r.recent;
        };
        first = m.same.i;
        left = m.same.ack;
        all = omega (arith, m.same.size, size);
      }
