-- ===== src/Allocator/Window.antt =====
-- A new window: the bitmap that a traversal leaves marks the blocks that it has met.
use native.Mathlib.Nat.{mod-eq_of_lt, mod-eq-sub-mod}
use native.Mathlib.Decide.{dec_lt}
use littlefs_v.Base.{
  ℕ, ◌+◌, ◌-◌, ◌*◌, ◌%◌, ◌^◌, ◌≤◌, ◌<◌, Bool, false, List, [], ◌∷◌, ◌||◌, ltb, some, ◌==◌,
  if◌then◌else◌, ◌≡◌, refl, ap, ◌∙◌, arith, length, add64, sub64, Bool-cases, inl, inr,
}
use littlefs_v.Allocator.{Free, get_bit, alloc_lookahead, mark_all}
use littlefs_v.Allocator.Bitmap.{with_bit, set_bit_with, get_bit-with_bit, length-with_bit}
use littlefs_v.Allocator.Scan.{member}

-- A remainder below twice the divisor.
pub wrap : (n m : ℕ) → n < m + m → n % m ≡ (if ltb n m then n else n - m)
wrap n m h = elim (dec_lt n m) [
  | yes p ↦ mod-eq_of_lt p ∙ ground arith
  | no q ↦
      (let down : n % m ≡ (n - m) % m = mod-eq-sub-mod (omega arith) in
        down ∙ mod-eq_of_lt (omega arith) ∙ ground arith)
]

-- The bit of a block in a window at `start`, and the block at a bit.
pub position :
    (block_count start b o : ℕ)
    → block_count < 2 ^ 63
    → start < block_count
    → b < block_count
    → o < block_count
    → (add64 (sub64 b start) block_count % block_count == o) ≡ (b == (start + o) % block_count)
position block_count start b o small s p q =
    let e : add64 (sub64 b start) block_count ≡ b + block_count - start = omega arith in
    rw e (ground (arith, wrap (b + block_count - start) block_count, wrap (start + o) block_count))

-- A window that its buffer has room for.
pub record IsRoom (block_count : ℕ) (f : Free) : Type 0 where
  pub small : block_count < 2 ^ 63
  pub inside : f.offset < block_count
  pub short : f.size ≤ block_count
  pub fits : f.size ≤ 64 * length f.buffer

module _ (block_count : ℕ) where
  abbrev marked : Free → ℕ → Free
  marked f b =
      let o = add64 (sub64 b f.offset) block_count % block_count in
      if ltb o f.size then record f { buffer = with_bit f.buffer o } else f

  alloc_lookahead-marked :
      (f : Free) (b : ℕ)
      → IsRoom block_count f
      → alloc_lookahead block_count f b ≡ some (marked f b)
  unfolding alloc_lookahead
  alloc_lookahead-marked f b r =
      let o = add64 (sub64 b f.offset) block_count % block_count in
      elim (Bool-cases (ltb o f.size)) [
        | inl in_window ↦ rw (in_window, set_bit_with f.buffer o (ground (arith, r.fits))) refl
        | inr out ↦ rw out refl
      ]

  marked-IsRoom : (f : Free) (b : ℕ) → IsRoom block_count f → IsRoom block_count (marked f b)
  marked-IsRoom f b r =
      let o = add64 (sub64 b f.offset) block_count % block_count in
      elim (Bool-cases (ltb o f.size)) [
        | inl in_window ↦ rw in_window (record {
          small = r.small;
          inside = r.inside;
          short = r.short;
          fits = omega (arith, r.fits, length-with_bit f.buffer o);
        })
        | inr out ↦ rw out r
      ]

  -- The bits of the window are `u`.
  abbrev pub Marks : (ℕ → Bool) → Free → Type 0
  Marks u f = (o : ℕ) → o < f.size → get_bit f.buffer o ≡ some (u ((f.offset + o) % block_count))

  -- The same window, over another buffer.
  pub record IsSame (f f' : Free) : Type 0 where
    pub offset : f'.offset ≡ f.offset
    pub size : f'.size ≡ f.size
    pub i : f'.i ≡ f.i
    pub ack : f'.ack ≡ f.ack
    pub long : length f'.buffer ≡ length f.buffer

  marked-IsSame : (f : Free) (b : ℕ) → IsSame f (marked f b)
  marked-IsSame f b =
      let o = add64 (sub64 b f.offset) block_count % block_count in
      elim (Bool-cases (ltb o f.size)) [
        | inl in_window ↦ rw in_window (record {
          offset = refl;
          size = refl;
          i = refl;
          ack = refl;
          long = length-with_bit f.buffer o;
        })
        | inr out ↦
            rw out (record { offset = refl; size = refl; i = refl; ack = refl; long = refl })
      ]

  marked-Marks :
      (u : ℕ → Bool) (f : Free) (b : ℕ)
      → IsRoom block_count f
      → b < block_count
      → Marks u f
      → Marks (λ x. b == x || u x) (marked f b)
  marked-Marks u f b r h m =
      let p = add64 (sub64 b f.offset) block_count % block_count in
      elim (Bool-cases (ltb p f.size)) [
        | inl in_window ↦ rw in_window (λ o q.
            get_bit-with_bit f.buffer p o (ground (arith, r.fits))
            ∙ rw
                (
                  position block_count f.offset b o r.small r.inside h (omega (arith, q, r.short)),
                  m o q,
                )
                (ground arith))
        | inr out ↦ rw out (λ o q.
            let elsewhere : (b == (f.offset + o) % block_count) ≡ false = ground (
              arith,
              position block_count f.offset b o r.small r.inside h (omega (arith, q, r.short)),
            ) in
            rw elsewhere (m o q))
      ]

  abbrev pub AllBelow : List ℕ → Type 0
  AllBelow [] = Unit
  AllBelow (b ∷ bs) = (b < block_count) × AllBelow bs

  -- What a list of blocks leaves: the same window, in which they are marked as well.
  pub record IsMarkedBy (blocks : List ℕ) (u : ℕ → Bool) (f : Free) : Type 0 where
    pub f' : Free
    pub returns : mark_all block_count f blocks ≡ some f'
    pub same : IsSame f f'
    pub marks : Marks (λ x. member blocks x || u x) f'

  IsSame-trans : (f g h : Free) → IsSame f g → IsSame g h → IsSame f h
  IsSame-trans f g h p q = record {
    offset = q.offset ∙ p.offset;
    size = q.size ∙ p.size;
    i = q.i ∙ p.i;
    ack = q.ack ∙ p.ack;
    long = q.long ∙ p.long;
  }

  or-swap : (a b c : Bool) → (a || (b || c)) ≡ ((b || a) || c)
  or-swap a b c = ground arith

  pub mark_all-IsMarkedBy :
      (blocks : List ℕ) (u : ℕ → Bool) (f : Free)
      → AllBelow blocks
      → IsRoom block_count f
      → Marks u f
      → IsMarkedBy blocks u f
  unfolding mark_all
  mark_all-IsMarkedBy [] u f below r m = record {
    f' = f;
    returns = refl;
    same = record { offset = refl; size = refl; i = refl; ack = refl; long = refl };
    marks = m;
  }
  mark_all-IsMarkedBy (b ∷ blocks) u f below r m =
      let rest =
        mark_all-IsMarkedBy blocks (λ x. b == x || u x) (marked f b) below.1 (marked-IsRoom f b r)
          (marked-Marks u f b r below.0 m) in
      record {
        f' = rest.f';
        returns = rw (mark_all, alloc_lookahead-marked f b r) rest.returns;
        same = IsSame-trans f (marked f b) rest.f' (marked-IsSame f b) rest.same;
        marks = λ o q.
            rest.marks o q
            ∙ ap some (
                ground (
                  arith,
                  or-swap (member blocks ((rest.f'.offset + o) % block_count))
                      (b == (rest.f'.offset + o) % block_count)
                      (u ((rest.f'.offset + o) % block_count)),
                ));
      }
