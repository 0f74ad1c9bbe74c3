-- ===== src/Utility/Sequence.antt =====
-- `lfs_scmp` of include/lfs_utility.h: which of two revision counts is the later one, on a circle of
-- 2 ^ 32.
use littlefs_v.Base.{ℕ, ◌+◌, ◌%◌, ◌^◌, ◌<◌, Bool, true, false, ◌&&◌, ltb, sub32, ◌≡◌, arith}

-- The difference as the 32 bits of an `int`.
unfoldable pub scmp : ℕ → ℕ → ℕ
scmp a b = sub32 a b

-- `lfs_scmp(a, b) > 0`
unfoldable pub is_later : ℕ → ℕ → Bool
unfolding scmp
is_later a b = ltb 0 (scmp a b) && ltb (scmp a b) (2 ^ 31)

-- Of a count and the one that comes up to 2 ^ 31 - 1 steps after it, wherever the counts wrap, the
-- second is the later one and the first is not.
pub is_later_lem :
    (a n : ℕ)
    → a < 2 ^ 32
    → 0 < n
    → n < 2 ^ 31
    → (is_later ((a + n) % 2 ^ 32) a ≡ true) × (is_later a ((a + n) % 2 ^ 32) ≡ false)
unfolding is_later
is_later_lem a n h pos low = (ground arith, ground arith)
