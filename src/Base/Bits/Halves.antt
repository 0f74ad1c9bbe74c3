-- ===== src/Base/Bits/Halves.antt =====
-- The lowest digit of `&`, `|` and `^`, and what is left of the numbers above it.
use Prim.Native.Nat.{
  ℕ, zero, suc, ◌+◌, ◌-◌, ◌*◌, ◌/◌, ◌%◌, ◌≤◌, ◌<◌, min, max, bit_and, bit_or, bit_xor, digits,
  differ, bit_and-bitwise, bit_or-bitwise, bit_xor-bitwise,
}
use mathlib.Core.Path.{◌≡◌, refl, ap, ◌∙◌, sym}
use native.Mathlib.Omega.{arith}

-- The operations are a recursion on a count of digits, which may be larger than it has to be.
module _ (z : ℕ → ℕ) (f : ℕ → ℕ → ℕ) where
  no_digits : (count y : ℕ) → digits z f count 0 y ≡ z y
  no_digits zero y = refl
  no_digits (suc count) y = refl

  surplus :
      (count extra x y : ℕ) → x ≤ count → digits z f (count + extra) x y ≡ digits z f count x y
  surplus count extra zero y h = no_digits (count + extra) y ∙ sym (no_digits count y)
  surplus zero extra (suc x) y h = absurd (omega arith)
  surplus (suc count) extra (suc x) y h =
      let more : suc count + extra ≡ suc (count + extra) = omega arith in
      ap (λ n. digits z f n (suc x) y) more
      ∙ ap (λ t. t * 2 + f (suc x % 2) (y % 2))
          (surplus count extra (suc x / 2) (y / 2) (omega arith))

  module _ (ends : (y : ℕ) → z y ≡ f 0 (y % 2) + 2 * z (y / 2)) where
    digits_halves :
        (x y : ℕ) → digits z f x x y ≡ f (x % 2) (y % 2) + 2 * digits z f (x / 2) (x / 2) (y / 2)
    digits_halves zero y = ends y
    digits_halves (suc x) y =
        let half = suc x / 2 in
        let count : half + (x - half) ≡ x = omega arith in
        omega (
          arith,
          ap (λ n. digits z f n half (y / 2)) count,
          surplus half (x - half) half (y / 2) (omega arith),
        )

pub bit_or_halves : (x y : ℕ) → bit_or x y ≡ max (x % 2) (y % 2) + 2 * bit_or (x / 2) (y / 2)
bit_or_halves x y = simp bit_or-bitwise (digits_halves (λ y. y) max (λ y. omega arith) x y)

pub bit_and_halves : (x y : ℕ) → bit_and x y ≡ min (x % 2) (y % 2) + 2 * bit_and (x / 2) (y / 2)
bit_and_halves x y = simp bit_and-bitwise (digits_halves (λ y. 0) min (λ y. omega arith) x y)

differ_bits : (x y : ℕ) → x < 2 → y < 2 → differ x y ≡ (x + y) % 2
differ_bits zero y p q = omega arith
differ_bits (suc zero) zero p q = refl
differ_bits (suc zero) (suc zero) p q = refl
differ_bits (suc zero) (suc (suc y)) p q = absurd (omega arith)
differ_bits (suc (suc x)) y p q = absurd (omega arith)

pub bit_xor_halves : (x y : ℕ) → bit_xor x y ≡ (x + y) % 2 + 2 * bit_xor (x / 2) (y / 2)
bit_xor_halves x y = simp bit_xor-bitwise (
    omega (
      arith,
      digits_halves (λ y. y) differ (λ y. omega arith) x y,
      differ_bits (x % 2) (y % 2) (omega arith) (omega arith),
    ))
