-- ===== src/Utility/Pair.antt =====
-- Block pairs of include/lfs_utility.h: the two blocks that hold the versions of a metadata log.
use Prim.Native.Nat.{◌^◌}
use littlefs_v.Base.{ℕ, ◌-◌, Bool, true, false, not, ◌&&◌, ◌||◌, ◌≡◌, ◌↔◌, ◌⊎◌, arith, ◌==◌}

-- `lfs_block_t pair[2]`
pub record Pair : Type 0 where
  pub first : ℕ
  pub second : ℕ

-- LFS_BLOCK_NULL
abbrev pub block_null : ℕ
block_null = 2 ^ 64 - 1

-- LFS_BLOCK_INLINE
abbrev pub block_inline : ℕ
block_inline = 2 ^ 64 - 2

unfoldable pub pair_swap : Pair → Pair
pair_swap p = record { first = p.second; second = p.first }

unfoldable pub pair_isnull : Pair → Bool
pair_isnull p = p.first == block_null || p.second == block_null

-- `lfs_pair_cmp`: true, the int 1, where the pairs share no block.
unfoldable pub pair_cmp : Pair → Pair → Bool
pair_cmp a b =
    not
      (a.first == b.first || (a.second == b.second || (a.first == b.second || a.second == b.first)))

unfoldable pub pair_sync : Pair → Pair → Bool
pair_sync a b =
    (a.first == b.first && a.second == b.second) || (a.first == b.second && a.second == b.first)

-- Two pairs are in sync exactly when they are the same pair, in this order or the other.
pub pair_sync_iff : (a b : Pair) → (pair_sync a b ≡ true) ↔ ((a ≡ b) ⊎ (a ≡ pair_swap b))
unfolding pair_sync pair_swap
pair_sync_iff a b = ground arith

-- `lfs_pair_cmp` gives 0 exactly when a block stands in both pairs.
pub pair_cmp_iff :
    (a b : Pair)
    → (pair_cmp a b ≡ false) ↔ (
        ((a.first ≡ b.first) ⊎ (a.first ≡ b.second))
        ⊎ ((a.second ≡ b.first) ⊎ (a.second ≡ b.second)))
unfolding pair_cmp
pair_cmp_iff a b = ground arith

-- Which order either pair is written in makes no difference to `lfs_pair_cmp` and `lfs_pair_sync`,
-- nor which of the two pairs comes first, and pairs in sync compare as 0.
pub pair_order_irrelevant :
    (a b : Pair)
    → (pair_cmp (pair_swap a) b ≡ pair_cmp a b)
      × (pair_cmp a b ≡ pair_cmp b a)
      × (pair_sync (pair_swap a) b ≡ pair_sync a b)
      × (pair_sync a b ≡ pair_sync b a)
      × ((not (pair_sync a b) || not (pair_cmp a b)) ≡ true)
unfolding pair_cmp pair_sync pair_swap
pair_order_irrelevant a b = ground arith
