-- ===== src/Utility/Align.antt =====
-- `lfs_max`, `lfs_min`, `lfs_aligndown` and `lfs_alignup` of include/lfs_utility.h, on `uint64_t`.
use native.Mathlib.Nat.{mod-lt, mod-eq-zero_of_dvd, dvd-mul_left, div-add-mod'}
use littlefs_v.Base.{
  ℕ, ◌+◌, ◌-◌, ◌*◌, ◌/◌, ◌%◌, ◌^◌, ◌≤◌, ◌<◌, ◌≡◌, ◌∙◌, ap, arith, ltb, if◌then◌else◌, add64, sub64,
}

unfoldable pub lfs_max : ℕ → ℕ → ℕ
lfs_max a b = if ltb b a then a else b

unfoldable pub lfs_min : ℕ → ℕ → ℕ
lfs_min a b = if ltb a b then a else b

-- `a % alignment` is at most `a`, so the subtraction cannot wrap.
unfoldable pub lfs_aligndown : ℕ → ℕ → ℕ
lfs_aligndown a alignment = a - a % alignment

unfoldable pub lfs_alignup : ℕ → ℕ → ℕ
lfs_alignup a alignment = lfs_aligndown (sub64 (add64 a alignment) 1) alignment

pub lfs_aligndown_bounds : (a n : ℕ) → 0 < n → (lfs_aligndown a n ≤ a) × (a < lfs_aligndown a n + n)
unfolding lfs_aligndown
lfs_aligndown_bounds a n h = omega (arith, mod-lt a h)

pub lfs_aligndown-mod : (a n : ℕ) → lfs_aligndown a n % n ≡ 0
unfolding lfs_aligndown
lfs_aligndown-mod a n =
    let e : a - a % n ≡ a / n * n = omega (arith, div-add-mod' a n) in
    ap (λ t. t % n) e ∙ mod-eq-zero_of_dvd n (dvd-mul_left n (a / n))

-- What is aligned already stays.
pub lfs_aligndown_self : (a n : ℕ) → a % n ≡ 0 → lfs_aligndown a n ≡ a
unfolding lfs_aligndown
lfs_aligndown_self a n h = omega arith

-- Where the sum fits 64 bits, `lfs_alignup` is the least multiple from `a` on.
pub lfs_alignup_bounds :
    (a n : ℕ)
    → 0 < n
    → a + n ≤ 2 ^ 64
    → (a ≤ lfs_alignup a n) × (lfs_alignup a n < a + n) × (lfs_alignup a n % n ≡ 0)
unfolding lfs_alignup
lfs_alignup_bounds a n h fits =
    let e : sub64 (add64 a n) 1 ≡ a + n - 1 = omega arith in
    let b = lfs_aligndown_bounds (a + n - 1) n h in
    rw e (omega arith, omega arith, lfs_aligndown-mod (a + n - 1) n)
