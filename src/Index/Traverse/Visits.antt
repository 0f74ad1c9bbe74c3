-- ===== src/Index/Traverse/Visits.antt =====
-- Which blocks `lfs_ctz_traverse` hands to its callback, and how often.
use native.Mathlib.Nat.{pow-suc, one-le-pow, div-div-eq-div-mul, div-eq_of_lt}
use littlefs_v.Base.{
  ℕ, zero, suc, ◌+◌, ◌-◌, ◌*◌, ◌/◌, ◌%◌, ◌^◌, ◌≤◌, ◌<◌, List, [], ◌∷◌, true, false, bit_and, ◌==◌,
  if◌then◌else◌, ◌≡◌, refl, sym, ap, ◌∙◌, inl, inr, arith, Bool-cases, length,
}
use littlefs_v.Base.Bits.{bit, bit_and_pow, bit_and_low}
use littlefs_v.Index.{ctz64, ctz_from}

-- The blocks with the indices `2 * k` to 0.
abbrev pub down_from : (ℕ → ℕ) → ℕ → List ℕ
down_from at zero = at 0 ∷ []
down_from at (suc k) = at (suc k * 2) ∷ at (k * 2 + 1) ∷ down_from at k

-- The blocks from index `n` down: an odd one is followed by the block below it twice.
abbrev pub visits : (ℕ → ℕ) → ℕ → List ℕ
visits at n = if n % 2 == 0 then down_from at (n / 2) else at n ∷ at (n - 1) ∷ down_from at (n / 2)

length-down_from : (at : ℕ → ℕ) (k : ℕ) → length (down_from at k) ≡ k * 2 + 1
length-down_from at zero = refl
length-down_from at (suc k) = omega (arith, length-down_from at k)

-- A list of calls for the blocks from index `n` down has one for each of the `n + 1` blocks, and where
-- `n` is odd one more.
pub length-visits : (at : ℕ → ℕ) (n : ℕ) → length (visits at n) ≡ n + 1 + n % 2
length-visits at n = ground (arith, length-down_from at (n / 2))

pub visits-odd :
    (at : ℕ → ℕ) (n : ℕ) → n % 2 ≡ 1 → visits at n ≡ at n ∷ at (n - 1) ∷ visits at (n - 1)
visits-odd at n odd =
    let here : (n % 2 == 0) ≡ false = ground arith in
    let below : ((n - 1) % 2 == 0) ≡ true = ground arith in
    let half : (n - 1) / 2 ≡ n / 2 = omega arith in
    rw (here, below) (ap (λ k. at n ∷ at (n - 1) ∷ down_from at k) (sym half))

pub visits-even :
    (at : ℕ → ℕ) (n : ℕ) → n % 2 ≡ 0 → 0 < n → visits at n ≡ at n ∷ at (n - 1) ∷ visits at (n - 2)
visits-even at n even pos =
    let k = n / 2 - 1 in
    let here : (n % 2 == 0) ≡ true = ground arith in
    let below : ((n - 2) % 2 == 0) ≡ true = ground arith in
    let half : n / 2 ≡ suc k = omega arith in
    let rest : (n - 2) / 2 ≡ k = omega arith in
    let top : suc k * 2 ≡ n = omega arith in
    let next : k * 2 + 1 ≡ n - 1 = omega arith in
    rw (here, below, half, rest) (λ i. at (top i) ∷ at (next i) ∷ down_from at k)

no_bit : (x p : ℕ) → x < 2 → 0 < p → x * p ≡ 0 → x ≡ 0
no_bit zero p h pos e = refl
no_bit (suc zero) p h pos e = absurd (omega arith)
no_bit (suc (suc x)) p h pos e = absurd (omega arith)

-- A number with a bit from `from` on has no fewer zeros at its end than that, if those below are zeros.
ctz_from-ge :
    (left from a : ℕ) → 0 < a / 2 ^ from → a < 2 ^ (from + left) → from ≤ ctz_from left from a
unfolding ctz_from
ctz_from-ge zero from a pos low =
    let e : from + 0 ≡ from = omega arith in
    absurd (omega (arith, div-eq_of_lt {n = a} {m = 2 ^ from} (rw e at low)))
ctz_from-ge (suc left) from a pos low = elim (Bool-cases (bit_and a (2 ^ from) == 0)) [
  | inl z ↦
      (let next : from + suc left ≡ suc from + left = omega arith in
        let halved : a / 2 ^ suc from ≡ a / 2 ^ from / 2 =
          ap (λ p. a / p) (omega (arith, pow-suc 2 from))
          ∙ sym (div-div-eq-div-mul a (2 ^ from) 2) in
        let clear : bit a from * 2 ^ from ≡ 0 = sym (bit_and_pow from a) ∙ ground arith in
        let none : bit a from ≡ 0 =
          no_bit (bit a from) (2 ^ from) (omega arith) (one-le-pow from 2 (omega arith)) clear in
        rw z (omega (arith, ctz_from-ge left (suc from) a (omega arith) (rw next at low))))
  | inr found ↦ rw found (omega arith)
]

-- An even index has a zero at its end, so its block points two blocks down.
pub ctz64_even : (n : ℕ) → n % 2 ≡ 0 → 0 < n → n < 2 ^ 63 → 1 ≤ ctz64 n
unfolding ctz64 ctz_from
ctz64_even n even pos low =
    let clear : (bit_and n 1 == 0) ≡ true = ground (arith, bit_and_low 1 n) in
    rw (ctz_from, clear) (ctz_from-ge 63 1 n (omega arith) (omega arith))
