-- ===== src/Base/Bits.antt =====
-- `&`, `|` and `^` at every width: parts above and below a bit, masks, single bits.
mod Halves
mod Xor
mod And
pub use Xor.*
pub use And.*
use Prim.Native.Nat.{
  ℕ, zero, suc, ◌+◌, ◌-◌, ◌*◌, ◌/◌, ◌%◌, ◌^◌, ◌≤◌, ◌<◌, min, max, bit_and, bit_or, bit_xor,
  bit_and-bitwise, bit_or-bitwise, bit_xor-bitwise,
}
use mathlib.Core.Logic.{◌≢◌}
use mathlib.Core.Path.{◌≡◌, refl, ap, ap₂, ◌∙◌, sym}
use native.Mathlib.Nat.{
  pow-suc, one-le-pow, mul-add-mod_self_right, mod-eq_of_lt, mod-lt, div-add-mod',
  div-div-eq-div-mul, zero-div,
}
use native.Mathlib.Omega.{arith}
use littlefs_v.Base.Bits.Halves.{bit_or_halves, bit_and_halves, bit_xor_halves}

two-pow-suc : (k : ℕ) → 2 ^ suc k ≡ 2 * 2 ^ k
two-pow-suc k = omega (arith, pow-suc 2 k)

scale-suc : (q k : ℕ) → q * 2 ^ suc k ≡ q * 2 ^ k + q * 2 ^ k
scale-suc q k = omega (arith, ap (λ (p : ℕ). q * p) (two-pow-suc k))

-- Values of `k` bits stay within `k` bits.
pub bit_xor-lt : (k a b : ℕ) → a < 2 ^ k → b < 2 ^ k → bit_xor a b < 2 ^ k
bit_xor-lt zero a b p q =
    let za : a ≡ 0 = omega arith in let zb : b ≡ 0 = omega arith in rw (za, zb) (omega arith)
bit_xor-lt (suc k) a b p q = omega (
  arith,
  two-pow-suc k,
  bit_xor_halves a b,
  bit_xor-lt k (a / 2) (b / 2) (omega (arith, two-pow-suc k)) (omega (arith, two-pow-suc k)),
)

-- `^` of a high part and a low one that do not overlap, with another such value.
pub bit_xor_parts :
    (k q r s t : ℕ)
    → r < 2 ^ k
    → t < 2 ^ k
    → bit_xor (q * 2 ^ k + r) (s * 2 ^ k + t) ≡ bit_xor q s * 2 ^ k + bit_xor r t
bit_xor_parts zero q r s t p u =
    let zr : r ≡ 0 = omega arith in
    let zt : t ≡ 0 = omega arith in
    let eq : q * 2 ^ 0 + 0 ≡ q = omega arith in
    let es : s * 2 ^ 0 + 0 ≡ s = omega arith in rw (zr, zt, eq, es) (omega arith)
bit_xor_parts (suc k) q r s t p u =
    let hq : (q * 2 ^ suc k + r) / 2 ≡ q * 2 ^ k + r / 2 = omega (arith, scale-suc q k) in
    let hs : (s * 2 ^ suc k + t) / 2 ≡ s * 2 ^ k + t / 2 = omega (arith, scale-suc s k) in
    omega (
      arith,
      two-pow-suc k,
      scale-suc q k,
      scale-suc s k,
      scale-suc (bit_xor q s) k,
      bit_xor_halves r t,
      bit_xor_halves (q * 2 ^ suc k + r) (s * 2 ^ suc k + t),
      ap₂ bit_xor hq hs,
      bit_xor_parts k q (r / 2) s (t / 2) (omega (arith, two-pow-suc k))
          (omega (arith, two-pow-suc k)),
    )

bit_or-zero_below : (n a : ℕ) → a ≤ n → bit_or a 0 ≡ a
bit_or-zero_below zero zero p = refl
bit_or-zero_below zero (suc a) p = absurd (omega arith)
bit_or-zero_below (suc n) a p =
    omega (arith, bit_or_halves a 0, bit_or-zero_below n (a / 2) (omega arith))

pub bit_or-zero : (a : ℕ) → bit_or a 0 ≡ a
bit_or-zero a = bit_or-zero_below a a (omega arith)

bit_and-zero_below : (n a : ℕ) → a ≤ n → bit_and a 0 ≡ 0
bit_and-zero_below zero zero p = refl
bit_and-zero_below zero (suc a) p = absurd (omega arith)
bit_and-zero_below (suc n) a p =
    omega (arith, bit_and_halves a 0, bit_and-zero_below n (a / 2) (omega arith))

pub bit_and-zero : (a : ℕ) → bit_and a 0 ≡ 0
bit_and-zero a = bit_and-zero_below a a (omega arith)

-- Fields that do not overlap: `(q << k) | r` is a sum.
pub bit_or_disjoint : (k q r : ℕ) → r < 2 ^ k → bit_or (q * 2 ^ k) r ≡ q * 2 ^ k + r
bit_or_disjoint zero q r p =
    let z : r ≡ 0 = omega arith in rw z (omega (arith, bit_or-zero (q * 2 ^ 0)))
bit_or_disjoint (suc k) q r p =
    let h : q * 2 ^ suc k / 2 ≡ q * 2 ^ k = omega (arith, scale-suc q k) in
    omega (
      arith,
      scale-suc q k,
      two-pow-suc k,
      bit_or_halves (q * 2 ^ suc k) r,
      ap (λ t. bit_or t (r / 2)) h,
      bit_or_disjoint k q (r / 2) (omega (arith, two-pow-suc k)),
    )

mod_unique : (q m r : ℕ) → r < m → (q * m + r) % m ≡ r
mod_unique q m r h = rw (mul-add-mod_self_right q m r) (mod-eq_of_lt h)

-- The remainder by the next power of two, from that of the half.
mod_halves : (b k : ℕ) → b % 2 ^ suc k ≡ b / 2 % 2 ^ k * 2 + b % 2
mod_halves b k =
    let q = b / 2 / 2 ^ k in
    let r = b / 2 % 2 ^ k in
    let fits : r < 2 ^ k = mod-lt (b / 2) (omega (arith, one-le-pow k 2)) in
    let e : b ≡ q * 2 ^ suc k + (r * 2 + b % 2) =
      omega (arith, div-add-mod' (b / 2) (2 ^ k), scale-suc q k) in
    ap (λ t. t % 2 ^ suc k) e
    ∙ mod_unique q (2 ^ suc k) (r * 2 + b % 2) (omega (arith, two-pow-suc k))

-- A mask of `k` ones at the bottom is the remainder by `2 ^ k`.
pub bit_and_low : (k a : ℕ) → bit_and a (2 ^ k - 1) ≡ a % 2 ^ k
bit_and_low zero a = omega (arith, bit_and-zero a)
bit_and_low (suc k) a =
    let h : (2 ^ suc k - 1) / 2 ≡ 2 ^ k - 1 = omega (arith, two-pow-suc k, one-le-pow k 2) in
    omega (
      arith,
      two-pow-suc k,
      one-le-pow k 2,
      bit_and_halves a (2 ^ suc k - 1),
      ap (λ t. bit_and (a / 2) t) h,
      bit_and_low k (a / 2),
      mod_halves a k,
    )

-- A mask that leaves out the `k` lowest bits keeps those of the rest.
pub bit_and_high : (k a m : ℕ) → bit_and a (m * 2 ^ k) ≡ bit_and (a / 2 ^ k) m * 2 ^ k
bit_and_high zero a m =
    let em : m * 2 ^ 0 ≡ m = omega arith in
    let ea : a / 2 ^ 0 ≡ a = omega arith in rw (em, ea) (omega arith)
bit_and_high (suc k) a m =
    let h : m * 2 ^ suc k / 2 ≡ m * 2 ^ k = omega (arith, scale-suc m k) in
    let e : a / 2 ^ suc k ≡ a / 2 / 2 ^ k =
      ap (λ t. a / t) (two-pow-suc k) ∙ sym (div-div-eq-div-mul a 2 (2 ^ k)) in
    omega (
      arith,
      bit_and_halves a (m * 2 ^ suc k),
      scale-suc m k,
      scale-suc (bit_and (a / 2 / 2 ^ k) m) k,
      ap (λ t. bit_and (a / 2) t) h,
      ap (λ t. bit_and t m * 2 ^ suc k) e,
      bit_and_high k (a / 2) m,
    )

pub zero-bit_or : (a : ℕ) → bit_or 0 a ≡ a
zero-bit_or a = simp bit_or-bitwise

pub zero-bit_and : (a : ℕ) → bit_and 0 a ≡ 0
zero-bit_and a = simp bit_and-bitwise

half_parts : (k q r : ℕ) → (q * 2 ^ suc k + r) / 2 ≡ q * 2 ^ k + r / 2
half_parts k q r = omega (arith, scale-suc q k)

-- `|` works on the parts above and below bit `k` apart.
pub bit_or_parts :
    (k q r s t : ℕ)
    → r < 2 ^ k
    → t < 2 ^ k
    → bit_or (q * 2 ^ k + r) (s * 2 ^ k + t) ≡ bit_or q s * 2 ^ k + bit_or r t
bit_or_parts zero q r s t p u =
    let zr : r ≡ 0 = omega arith in
    let zt : t ≡ 0 = omega arith in
    let eq : q * 2 ^ 0 + 0 ≡ q = omega arith in
    let es : s * 2 ^ 0 + 0 ≡ s = omega arith in rw (zr, zt, eq, es) (omega arith)
bit_or_parts (suc k) q r s t p u = omega (
  arith,
  two-pow-suc k,
  scale-suc q k,
  scale-suc s k,
  scale-suc (bit_or q s) k,
  bit_or_halves r t,
  bit_or_halves (q * 2 ^ suc k + r) (s * 2 ^ suc k + t),
  ap₂ bit_or (half_parts k q r) (half_parts k s t),
  bit_or_parts k q (r / 2) s (t / 2) (omega (arith, two-pow-suc k)) (omega (arith, two-pow-suc k)),
)

-- So does `&`.
pub bit_and_parts :
    (k q r s t : ℕ)
    → r < 2 ^ k
    → t < 2 ^ k
    → bit_and (q * 2 ^ k + r) (s * 2 ^ k + t) ≡ bit_and q s * 2 ^ k + bit_and r t
bit_and_parts zero q r s t p u =
    let zr : r ≡ 0 = omega arith in
    let zt : t ≡ 0 = omega arith in
    let eq : q * 2 ^ 0 + 0 ≡ q = omega arith in
    let es : s * 2 ^ 0 + 0 ≡ s = omega arith in rw (zr, zt, eq, es) (omega arith)
bit_and_parts (suc k) q r s t p u = omega (
  arith,
  two-pow-suc k,
  scale-suc q k,
  scale-suc s k,
  scale-suc (bit_and q s) k,
  bit_and_halves r t,
  bit_and_halves (q * 2 ^ suc k + r) (s * 2 ^ suc k + t),
  ap₂ bit_and (half_parts k q r) (half_parts k s t),
  bit_and_parts k q (r / 2) s (t / 2) (omega (arith, two-pow-suc k)) (omega (arith, two-pow-suc k)),
)

-- Bit `k` of `a`.
abbrev pub bit : ℕ → ℕ → ℕ
bit a k = a / 2 ^ k % 2

bit-suc : (a k : ℕ) → bit a (suc k) ≡ bit (a / 2) k
bit-suc a k =
    ap (λ t. t % 2) (ap (λ t. a / t) (two-pow-suc k) ∙ sym (div-div-eq-div-mul a 2 (2 ^ k)))

-- `|` bit by bit.
pub bit-bit_or : (k a b : ℕ) → bit (bit_or a b) k ≡ max (bit a k) (bit b k)
bit-bit_or zero a b = omega (arith, bit_or_halves a b)
bit-bit_or (suc k) a b =
    let half : bit_or a b / 2 ≡ bit_or (a / 2) (b / 2) = omega (arith, bit_or_halves a b) in
    rw (bit-suc (bit_or a b) k, bit-suc a k, bit-suc b k, half) (bit-bit_or k (a / 2) (b / 2))

pub zero-bit : (k : ℕ) → bit 0 k ≡ 0
zero-bit k = omega (arith, zero-div (2 ^ k))

-- A power of two has one bit.
pub bit_of_pow : (j k : ℕ) → (j ≡ k → bit (2 ^ j) k ≡ 1) × (j ≢ k → bit (2 ^ j) k ≡ 0)
bit_of_pow zero zero = (λ e. refl, λ n. absurd (n refl))
bit_of_pow zero (suc k) = (λ e. absurd (omega arith), λ n. bit-suc 1 k ∙ zero-bit k)
bit_of_pow (suc j) zero = (λ e. absurd (omega arith), λ n. omega (arith, two-pow-suc j))
bit_of_pow (suc j) (suc k) =
    let half : 2 ^ suc j / 2 ≡ 2 ^ j = omega (arith, two-pow-suc j) in
    let down : bit (2 ^ suc j) (suc k) ≡ bit (2 ^ j) k =
      bit-suc (2 ^ suc j) k ∙ ap (λ t. bit t k) half in
    (λ e. down ∙ (bit_of_pow j k).0 (omega arith), λ n. down ∙ (bit_of_pow j k).1 (omega arith))

-- The test of a bit by `&`.
pub bit_and_pow : (k a : ℕ) → bit_and a (2 ^ k) ≡ bit a k * 2 ^ k
bit_and_pow k a =
    let one : 1 * 2 ^ k ≡ 2 ^ k = omega arith in
    ap (bit_and a) (sym one) ∙ bit_and_high k a 1 ∙ ap (λ t. t * 2 ^ k) (bit_and_low 1 (a / 2 ^ k))
