-- ===== src/Base/Multiples.antt =====
-- Multiples of a size, as numbers that leave no remainder.
use Prim.Native.Nat.{ℕ, ◌+◌, ◌-◌, ◌%◌, ◌≤◌, ◌<◌}
use mathlib.Core.Path.{◌≡◌, ap}
use native.Mathlib.Decide.{dec_lt}
use native.Mathlib.Nat.{
  mod-eq-zero_of_dvd, dvd_of_mod-eq-zero, dvd-sub, dvd-add, mod-add-mod, mod-eq_of_lt,
}
use native.Mathlib.Omega.{arith}

pub sub-mod-zero : (a b n : ℕ) → a % n ≡ 0 → b % n ≡ 0 → (a - b) % n ≡ 0
sub-mod-zero a b n p q =
    mod-eq-zero_of_dvd n (dvd-sub n (dvd_of_mod-eq-zero n p) (dvd_of_mod-eq-zero n q))

pub add-mod-zero : (a b n : ℕ) → a % n ≡ 0 → b % n ≡ 0 → (a + b) % n ≡ 0
add-mod-zero a b n p q =
    mod-eq-zero_of_dvd n (dvd-add n (dvd_of_mod-eq-zero n p) (dvd_of_mod-eq-zero n q))

-- From one multiple to a later one there is at least one size.
pub gap_of_multiples : (a d n : ℕ) → a % n ≡ 0 → (a + d) % n ≡ 0 → 0 < d → n ≤ d
gap_of_multiples a d n p q pos = elim (dec_lt d n) [
  | yes h ↦ absurd (
      omega (
        arith,
        mod-eq_of_lt h,
        mod-add-mod a n d,
        ap (λ t. (t + d) % n) p,
        ap (λ t. t % n) zero_add,
      ))
  | no h ↦ omega arith
]
  where
    zero_add : 0 + d ≡ d
    zero_add = omega arith
