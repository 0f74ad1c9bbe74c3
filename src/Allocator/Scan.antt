-- ===== src/Allocator/Scan.antt =====
-- The search through a window: which block it stops at, and what it has passed.
use littlefs_v.Base.{
  ℕ, zero, suc, ◌+◌, ◌-◌, ◌%◌, ◌^◌, ◌≤◌, ◌<◌, Bool, true, false, List, [], ◌∷◌, Option, none, ◌||◌,
  some, ◌==◌, ◌≡◌, sym, ap, ◌∙◌, arith, add64, sub64, Bool-cases, inl, inr, ◌⊎◌,
}
use littlefs_v.Errors.{Outcome, ok}
use littlefs_v.Allocator.{Free, get_bit, step, skip, scan}

abbrev pub member : List ℕ → ℕ → Bool
member [] b = false
member (x ∷ xs) b = b == x || member xs b

-- `n` blocks further.
abbrev pub advance : Free → ℕ → Free
advance f n = record f { i = f.i + n; ack = f.ack - n }

-- A window at block `offset` whose part from `i` on is marked exactly where a block is in `used`.
pub record IsWindow (used : List ℕ) (block_count : ℕ) (f : Free) : Type 0 where
  pub at : f.i ≤ f.size
  pub left : f.size ≤ f.i + f.ack
  pub small : f.size < 2 ^ 63
  pub low : f.ack < 2 ^ 63
  pub marks :
      (o : ℕ)
      → f.i ≤ o
      → o < f.size
      → get_bit f.buffer o ≡ some (member used ((f.offset + o) % block_count))

module _ (used : List ℕ) (block_count : ℕ) where
  abbrev pub taken : Free → ℕ → Bool
  taken f o = member used ((f.offset + o) % block_count)

  step-advance : (f : Free) → IsWindow used block_count f → f.i < f.size → step f ≡ advance f 1
  unfolding step
  step-advance f w h =
      let e : add64 f.i 1 ≡ f.i + 1 = omega (arith, w.small) in
      let e' : sub64 f.ack 1 ≡ f.ack - 1 = omega (arith, w.left, w.low) in
      λ k. record f { i = e k; ack = e' k }

  pub advance-IsWindow :
      (f : Free) (n : ℕ)
      → IsWindow used block_count f
      → f.i + n ≤ f.size
      → IsWindow used block_count (advance f n)
  advance-IsWindow f n w h = record {
    at = h;
    left = omega (arith, w.left);
    small = w.small;
    low = omega (arith, w.low);
    marks = λ o p q. w.marks o (omega arith) q;
  }

  advance_twice : (f : Free) (n : ℕ) → advance (advance f 1) n ≡ advance f (suc n)
  advance_twice f n =
      let e : f.i + 1 + n ≡ f.i + suc n = omega arith in
      let e' : f.ack - 1 - n ≡ f.ack - suc n = omega arith in λ k. record f { i = e k; ack = e' k }

  -- The next `n` blocks are all taken.
  abbrev pub AllTaken : Free → ℕ → Type 0
  AllTaken f n = (k : ℕ) → k < n → taken f (f.i + k) ≡ true

  pub AllTaken-suc :
      (f : Free) (n : ℕ) → taken f f.i ≡ true → AllTaken (advance f 1) n → AllTaken f (suc n)
  AllTaken-suc f n first rest zero p = ap (taken f) (omega arith) ∙ first
  AllTaken-suc f n first rest (suc k) p =
      let e : f.i + suc k ≡ f.i + 1 + k = omega arith in ap (taken f) e ∙ rest k (omega arith)

  -- The eager search has passed `n` taken blocks and stands at a free one or at the end.
  pub record Skipped (f : Free) (r : Outcome Free) : Type 0 where
    pub n : ℕ
    pub returns : r ≡ ok (advance f n)
    pub inside : f.i + n ≤ f.size
    pub all_taken : AllTaken f n

  advance-zero : (f : Free) → advance f 0 ≡ f
  advance-zero f =
      let e : f.i + 0 ≡ f.i = omega arith in
      let e' : f.ack - 0 ≡ f.ack = omega arith in λ k. record f { i = e k; ack = e' k }

  -- A search that has passed a taken block goes on as the search from the next block does.
  Skipped-suc :
      (f : Free) (r : Outcome Free)
      → taken f f.i ≡ true
      → f.i < f.size
      → Skipped (advance f 1) r
      → Skipped f r
  Skipped-suc f r t h s = record {
    n = suc s.n;
    returns = s.returns ∙ ap ok (advance_twice f s.n);
    inside = omega (arith, s.inside);
    all_taken = AllTaken-suc f s.n t s.all_taken;
  }

  mark_here :
      (f : Free)
      → IsWindow used block_count f
      → f.i < f.size
      → get_bit f.buffer f.i ≡ some (taken f f.i)
  mark_here f w h = w.marks f.i (omega arith) h

  pub skip-Skipped :
      (left : ℕ) (f : Free)
      → IsWindow used block_count f
      → f.size < f.i + left
      → Skipped f (skip left f)
  unfolding skip
  skip-Skipped zero f w h = absurd (omega (arith, w.at))
  skip-Skipped (suc left) f w h = elim (Bool-cases (f.i == f.size)) [
    | inl end ↦ record {
      n = 0;
      returns = rw end (ap ok (sym (advance-zero f)));
      inside = ground (arith, w.at);
      all_taken = λ k p. absurd (omega arith);
    }
    | inr more ↦
        (let inside : f.i < f.size = ground (arith, w.at) in
          elim (Bool-cases (taken f f.i)) [
            | inl t ↦
                rw (more, mark_here f w inside, t, step-advance f w inside)
                  (Skipped-suc f (skip left (advance f 1)) t inside (
                    skip-Skipped left (advance f 1) (advance-IsWindow f 1 w (omega arith))
                      (omega arith)))
            | inr free ↦ record {
              n = 0;
              returns = rw (more, mark_here f w inside, free) (ap ok (sym (advance-zero f)));
              inside = ground (arith, w.at);
              all_taken = λ k p. absurd (omega arith);
            }
          ])
  ]

  -- The search has found the block after `n` taken ones, or has taken every one to the end.
  pub record Scanned (f : Free) (r : Outcome (Option ℕ × Free)) : Type 0 where
    pub n : ℕ
    pub all_taken : AllTaken f n
    pub returns :
        ((r ≡ ok (some (f.i + n), advance f (suc n)))
          × (f.i + n < f.size)
          × (taken f (f.i + n) ≡ false))
        ⊎ ((r ≡ ok (none, advance f n)) × (f.i + n ≡ f.size))

  Scanned-suc :
      (f : Free) (r : Outcome (Option ℕ × Free))
      → taken f f.i ≡ true
      → Scanned (advance f 1) r
      → Scanned f r
  Scanned-suc f r t s = record {
    n = suc s.n;
    all_taken = AllTaken-suc f s.n t s.all_taken;
    returns =
        (let e : f.i + 1 + s.n ≡ f.i + suc s.n = omega arith in
          elim s.returns [
            | inl found ↦ inl (
              found.0 ∙ (λ k. ok (some (e k), advance_twice f (suc s.n) k)),
              omega (arith, found.1),
              ap (taken f) (sym e) ∙ found.2,
            )
            | inr end ↦
                inr (end.0 ∙ ap (λ t. ok (none, t)) (advance_twice f s.n), omega (arith, end.1))
          ]);
  }

  pub scan-Scanned :
      (left : ℕ) (f : Free)
      → IsWindow used block_count f
      → f.size < f.i + left
      → Scanned f (scan left f)
  unfolding scan
  scan-Scanned zero f w h = absurd (omega (arith, w.at))
  scan-Scanned (suc left) f w h = elim (Bool-cases (f.i == f.size)) [
    | inl end ↦ record {
      n = 0;
      all_taken = λ k p. absurd (omega arith);
      returns = inr (rw end (ap (λ t. ok (none, t)) (sym (advance-zero f))), ground arith);
    }
    | inr more ↦
        (let inside : f.i < f.size = ground (arith, w.at) in
          elim (Bool-cases (taken f f.i)) [
            | inl t ↦
                rw (more, mark_here f w inside, t, step-advance f w inside)
                  (Scanned-suc f (scan left (advance f 1)) t (
                    scan-Scanned left (advance f 1) (advance-IsWindow f 1 w (omega arith))
                      (omega arith)))
            | inr free ↦ record {
              n = 0;
              all_taken = λ k p. absurd (omega arith);
              returns =
                  (let e : f.i ≡ f.i + 0 = omega arith in
                    inl (
                      rw (more, mark_here f w inside, free, step-advance f w inside)
                          (λ k. ok (some (e k), advance f 1)),
                      omega (arith, inside),
                      ap (taken f) (sym e) ∙ free,
                    ));
            }
          ])
  ]
