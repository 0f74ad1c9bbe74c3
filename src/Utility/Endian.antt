-- ===== src/Utility/Endian.antt =====
-- Words and their bytes: the byte order helpers of include/lfs_utility.h, on a little-endian machine.
use littlefs_v.Base.{
  ℕ, zero, suc, ◌+◌, ◌*◌, ◌/◌, ◌%◌, ◌^◌, ◌<◌, bit_and, bit_or, List, [], ◌∷◌, ◌≡◌, ap, ◌∙◌, arith,
  u32, ◌<<◌, ◌>>◌,
}
use littlefs_v.Base.Bits.{bit_and_low, bit_and_high, bit_or_disjoint}

unfoldable pub bswap32 : ℕ → ℕ
bswap32 a =
    bit_or
      (bit_or (bit_or (u32 (bit_and a 0xff << 24)) (u32 (bit_and a 0xff00 << 8)))
        (bit_and a 0xff0000 >> 8))
      (bit_and a 0xff000000 >> 24)

-- A number as so many bytes, the lowest first: how the machine keeps a word.
unfoldable pub bytes_of : ℕ → ℕ → List ℕ
bytes_of zero a = []
bytes_of (suc n) a = a % 256 ∷ bytes_of n (a / 256)

-- `lfs_fromle32`, `lfs_tole32`, `lfs_fromle64` and `lfs_tole64` change nothing.
unfoldable pub fromle32 : ℕ → ℕ
fromle32 a = a

unfoldable pub tole32 : ℕ → ℕ
tole32 a = a

unfoldable pub fromle64 : ℕ → ℕ
fromle64 a = a

unfoldable pub tole64 : ℕ → ℕ
tole64 a = a

unfoldable pub frombe32 : ℕ → ℕ
frombe32 a = bswap32 a

unfoldable pub tobe32 : ℕ → ℕ
tobe32 a = bswap32 a

-- The four bytes of a word, in the other order.
pub bswap32_sum :
    (a : ℕ)
    → a < 2 ^ 32
    → bswap32 a
      ≡ a % 256 * 2 ^ 24 + a / 2 ^ 8 % 256 * 2 ^ 16 + a / 2 ^ 16 % 256 * 2 ^ 8 + a / 2 ^ 24 % 256
unfolding bswap32
bswap32_sum a h =
    let b0 : bit_and a 0xff ≡ a % 256 = bit_and_low 8 a in
    let b1 : bit_and a 0xff00 ≡ a / 2 ^ 8 % 256 * 2 ^ 8 =
      bit_and_high 8 a 0xff ∙ ap (λ t. t * 2 ^ 8) (bit_and_low 8 (a / 2 ^ 8)) in
    let b2 : bit_and a 0xff0000 ≡ a / 2 ^ 16 % 256 * 2 ^ 16 =
      bit_and_high 16 a 0xff ∙ ap (λ t. t * 2 ^ 16) (bit_and_low 8 (a / 2 ^ 16)) in
    let b3 : bit_and a 0xff000000 ≡ a / 2 ^ 24 % 256 * 2 ^ 24 =
      bit_and_high 24 a 0xff ∙ ap (λ t. t * 2 ^ 24) (bit_and_low 8 (a / 2 ^ 24)) in
    let w0 : u32 (bit_and a 0xff << 24) ≡ a % 256 * 2 ^ 24 = omega (arith, b0) in
    let w1 : u32 (bit_and a 0xff00 << 8) ≡ a / 2 ^ 8 % 256 * 2 ^ 16 = omega (arith, b1) in
    let w2 : bit_and a 0xff0000 >> 8 ≡ a / 2 ^ 16 % 256 * 2 ^ 8 = omega (arith, b2) in
    let w3 : bit_and a 0xff000000 >> 24 ≡ a / 2 ^ 24 % 256 = omega (arith, b3) in
    let o1 = bit_or_disjoint 24 (a % 256) (a / 2 ^ 8 % 256 * 2 ^ 16) (omega arith) in
    let x1 : ℕ = a % 256 * 2 ^ 24 + a / 2 ^ 8 % 256 * 2 ^ 16 in
    let o2 : bit_or x1 (a / 2 ^ 16 % 256 * 2 ^ 8) ≡ x1 + a / 2 ^ 16 % 256 * 2 ^ 8 =
      or_above 16 (x1 / 2 ^ 16) x1 (a / 2 ^ 16 % 256 * 2 ^ 8) (omega arith) (omega arith) in
    let x2 : ℕ = x1 + a / 2 ^ 16 % 256 * 2 ^ 8 in
    let o3 : bit_or x2 (a / 2 ^ 24 % 256) ≡ x2 + a / 2 ^ 24 % 256 =
      or_above 8 (x2 / 2 ^ 8) x2 (a / 2 ^ 24 % 256) (omega arith) (omega arith) in
    rw (bswap32, w0, w1, w2, w3, o1, o2) o3
  where
    or_above : (k q a r : ℕ) → a ≡ q * 2 ^ k → r < 2 ^ k → bit_or a r ≡ a + r
    or_above k q a r e h = rw e (bit_or_disjoint k q r h)

-- The word of four bytes, the highest first, is what they make up as digits.
pub bswap32-lt : (a : ℕ) → a < 2 ^ 32 → bswap32 a < 2 ^ 32
bswap32-lt a h = omega (arith, bswap32_sum a h)

-- Swapping the bytes of a 32-bit word twice gives the word back.
pub bswap32_twice : (a : ℕ) → a < 2 ^ 32 → bswap32 (bswap32 a) ≡ a
bswap32_twice a h = omega (arith, bswap32_sum a h, bswap32_sum (bswap32 a) (bswap32-lt a h))
