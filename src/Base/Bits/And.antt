-- ===== src/Base/Bits/And.antt =====
-- `&` in either order, and its bound.
use Prim.Native.Nat.{ℕ, zero, suc, ◌+◌, ◌/◌, ◌≤◌, bit_and}
use mathlib.Core.Path.{◌≡◌, refl}
use native.Mathlib.Omega.{arith}
use littlefs_v.Base.Bits.Halves.{bit_and_halves}

bit_and_comm_below : (n a b : ℕ) → a ≤ n → b ≤ n → bit_and a b ≡ bit_and b a
bit_and_comm_below zero zero zero p q = refl
bit_and_comm_below zero zero (suc b) p q = absurd (omega arith)
bit_and_comm_below zero (suc a) b p q = absurd (omega arith)
bit_and_comm_below (suc n) a b p q = omega (
  arith,
  bit_and_halves a b,
  bit_and_halves b a,
  bit_and_comm_below n (a / 2) (b / 2) (omega arith) (omega arith),
)

pub bit_and_comm : (a b : ℕ) → bit_and a b ≡ bit_and b a
bit_and_comm a b = bit_and_comm_below (a + b) a b (omega arith) (omega arith)

bit_and-le_below : (n a b : ℕ) → a ≤ n → b ≤ n → bit_and a b ≤ b
bit_and-le_below zero zero zero p q = omega arith
bit_and-le_below zero zero (suc b) p q = absurd (omega arith)
bit_and-le_below zero (suc a) b p q = absurd (omega arith)
bit_and-le_below (suc n) a b p q =
    omega
      (arith, bit_and_halves a b, bit_and-le_below n (a / 2) (b / 2) (omega arith) (omega arith))

pub bit_and-le : (a b : ℕ) → bit_and a b ≤ b
bit_and-le a b = bit_and-le_below (a + b) a b (omega arith) (omega arith)
