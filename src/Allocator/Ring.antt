-- ===== src/Allocator/Ring.antt =====
-- What the allocator keeps from one acknowledgement to the next: the blocks that it has looked at
-- run once around the device from `base`, and every one of them is in use or has been handed out.
use native.Mathlib.Nat.{mod-add-mod}
use native.Mathlib.Decide.{dec_lt}
use littlefs_v.Base.{
  ℕ, ◌+◌, ◌-◌, ◌%◌, ◌^◌, ◌≤◌, ◌<◌, true, false, List, [], ◌∷◌, ◌||◌, ltb, if◌then◌else◌, ◌≡◌, ◌≢◌,
  refl, sym, ap, ◌∙◌, arith, length,
}
use littlefs_v.Allocator.{Free}
use littlefs_v.Allocator.Scan.{member, advance, IsWindow, AllTaken, advance-IsWindow}
use littlefs_v.Allocator.Window.{wrap}

-- Each block is one of the `n` from `base` on.
abbrev pub AllRecent : ℕ → ℕ → ℕ → List ℕ → Type 0
AllRecent bc base n [] = Unit
AllRecent bc base n (b ∷ bs) = ((k : ℕ) × (k < n) × (b ≡ (base + k) % bc)) × AllRecent bc base n bs

-- `words` is the length of the buffer, in words.
pub record IsRing (words : ℕ) (used handed : List ℕ) (bc base : ℕ) (f : Free) : Type 0 where
  pub small : bc < 2 ^ 63
  pub start : base < bc
  pub inside : f.offset < bc
  pub short : f.size ≤ bc
  pub ack : f.ack ≤ bc
  pub long : length f.buffer ≡ words
  pub window : IsWindow used bc f
  pub place : (f.offset + f.i) % bc ≡ (base + (bc - f.ack)) % bc
  pub passed :
      (k : ℕ)
      → k < bc - f.ack
      → (member used ((base + k) % bc) || member handed ((base + k) % bc)) ≡ true
  pub recent : AllRecent bc base (bc - f.ack) handed

module _ (words : ℕ) (used handed : List ℕ) (bc base : ℕ) where
  -- The block at a bit of the window, counted from `base`.
  place_at :
      (f : Free) (d : ℕ)
      → IsRing words used handed bc base f
      → (f.offset + (f.i + d)) % bc ≡ (base + (bc - f.ack + d)) % bc
  place_at f d r =
      let e : f.offset + f.i + d ≡ f.offset + (f.i + d) = omega arith in
      let e' : base + (bc - f.ack) + d ≡ base + (bc - f.ack + d) = omega arith in
      ap (λ t. t % bc) (sym e)
      ∙ sym (mod-add-mod (f.offset + f.i) bc d)
      ∙ ap (λ t. (t + d) % bc) r.place
      ∙ mod-add-mod (base + (bc - f.ack)) bc d
      ∙ ap (λ t. t % bc) e'

  -- Less than once around, no block comes twice.
  apart_on_ring :
      (k j : ℕ)
      → bc < 2 ^ 63
      → base < bc
      → k < bc
      → j < bc
      → k ≢ j
      → (base + k) % bc ≢ (base + j) % bc
  apart_on_ring k j small start p q n = ground (arith, wrap (base + k) bc, wrap (base + j) bc)

  AllRecent-mono : (n m : ℕ) (bs : List ℕ) → n ≤ m → AllRecent bc base n bs → AllRecent bc base m bs
  AllRecent-mono n m [] h r = tt
  AllRecent-mono n m (b ∷ bs) h ((k, p, e), r) = ((k, omega arith, e), AllRecent-mono n m bs h r)

  not_recent :
      (n k : ℕ) (bs : List ℕ)
      → bc < 2 ^ 63
      → base < bc
      → n ≤ k
      → k < bc
      → AllRecent bc base n bs
      → member bs ((base + k) % bc) ≡ false
  not_recent n k [] small start h p r = refl
  not_recent n k (b ∷ bs) small start h p ((j, q, e), r) = ground (
    arith,
    apart_on_ring k j small start p (omega arith) (omega arith),
    not_recent n k bs small start h p r,
  )

  -- A block at or behind the place of the search has not been handed out.
  pub fresh :
      (f : Free) (d : ℕ)
      → IsRing words used handed bc base f
      → f.i + d < f.size
      → member handed ((f.offset + (f.i + d)) % bc) ≡ false
  fresh f d r h = rw (place_at f d r) (
      not_recent (bc - f.ack) (bc - f.ack + d) handed r.small r.start (omega arith)
        (omega (arith, r.window.left, r.ack)) r.recent)

  -- Once all blocks have been looked at, each is in use or has been handed out.
  pub none_left :
      (f : Free) (b : ℕ)
      → IsRing words used handed bc base f
      → f.ack ≡ 0
      → b < bc
      → (member used b || member handed b) ≡ true
  none_left f b r e h =
      let k = if ltb b base then b + bc - base else b - base in
      let k_low : k < bc = ground (arith, r.start) in
      let at : (base + k) % bc ≡ b = ground (arith, wrap (base + k) bc, r.start) in
      ap (λ t. member used t || member handed t) (sym at) ∙ r.passed k (omega arith)

  -- Going over taken blocks.
  pub IsRing-advance :
      (f : Free) (m : ℕ)
      → IsRing words used handed bc base f
      → f.i + m ≤ f.size
      → AllTaken used bc f m
      → IsRing words used handed bc base (advance f m)
  IsRing-advance f m r h all =
      let more : bc - f.ack + m ≡ bc - (f.ack - m) = omega (arith, r.window.left, r.ack) in
      record {
        small = r.small;
        start = r.start;
        inside = r.inside;
        short = r.short;
        ack = omega (arith, r.ack);
        long = r.long;
        window = advance-IsWindow used bc f m r.window h;
        place = place_at f m r ∙ ap (λ t. (base + t) % bc) more;
        passed = λ k p. elim (dec_lt k (bc - f.ack)) [
          | yes early ↦ r.passed k early
          | no late ↦
              (let d = k - (bc - f.ack) in
                let at : bc - f.ack + d ≡ k = omega arith in
                let x : (f.offset + (f.i + d)) % bc ≡ (base + k) % bc =
                  place_at f d r ∙ ap (λ t. (base + t) % bc) at in
                let t : member used ((f.offset + (f.i + d)) % bc) ≡ true =
                  all d (omega (arith, more)) in
                ground (arith, ap (member used) x, t))
        ];
        recent = AllRecent-mono (bc - f.ack) (bc - (f.ack - m)) handed (omega arith) r.recent;
      }

-- Going over a block that is handed out.
pub IsRing-hand :
    (words : ℕ) (used handed : List ℕ) (bc base : ℕ) (f : Free)
    → IsRing words used handed bc base f
    → f.i < f.size
    → IsRing words used ((f.offset + f.i) % bc ∷ handed) bc base (advance f 1)
IsRing-hand words used handed bc base f r h =
    let b = (f.offset + f.i) % bc in
    let n = bc - f.ack in
    let more : n + 1 ≡ bc - (f.ack - 1) = omega (arith, r.window.left, r.ack) in
    record {
      small = r.small;
      start = r.start;
      inside = r.inside;
      short = r.short;
      ack = omega (arith, r.ack);
      long = r.long;
      window = advance-IsWindow used bc f 1 r.window (omega arith);
      place = place_at words used handed bc base f 1 r ∙ ap (λ t. (base + t) % bc) more;
      passed = λ k p. elim (dec_lt k n) [
        | yes early ↦ ground (arith, r.passed k early)
        | no late ↦
            (let at : n ≡ k = omega (arith, more) in
              ground (arith, r.place, ap (λ t. (base + t) % bc) at))
      ];
      recent = (
        (n, omega (arith, more), r.place),
        AllRecent-mono words used handed bc base n (bc - (f.ack - 1)) handed (omega (arith, more))
            r.recent,
      );
    }
