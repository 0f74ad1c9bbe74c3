-- ===== src/Device/Read/Lookup.antt =====
-- What a hit and a limit say of the bytes ahead.
use littlefs_v.Base.{
  ℕ, ◌+◌, ◌-◌, ◌≤◌, ◌<◌, ◌≡◌, refl, ◌⊎◌, ◌∙◌, ap, arith, tabulate, length, get_or,
  slice-eq-tabulate, tabulate, zero, suc, ◌∷◌,
}
use littlefs_v.Utility.Align.{lfs_min}
use littlefs_v.Device.{Geometry, Cache}
use littlefs_v.Device.View.{byte_in, IsPlaced}
use littlefs_v.Device.Read.{hit, limit, lookup, cached}

-- The next `n` of `diff` bytes all stand in the cache.
pub record IsHit (c : Cache) (block offset diff n : ℕ) : Type 0 where
  pub some_bytes : 0 < n
  pub no_more : n ≤ diff
  pub same_block : block ≡ c.block
  pub from_start : c.offset ≤ offset
  pub to_end : offset + n ≤ c.offset + c.size

-- None of the next `n` of `diff` bytes stands in the cache, and `n` is `diff` or leads up to it.
pub record IsLimit (c : Cache) (block offset diff n : ℕ) : Type 0 where
  pub some_bytes : 0 < n
  pub no_more : n ≤ diff
  pub outside : (block ≡ c.block → ⊥) ⊎ ((offset + n ≤ c.offset) ⊎ (c.offset + c.size ≤ offset))
  pub length : (n ≡ diff) ⊎ (offset + n ≡ c.offset)

module _ {g : Geometry} (c : Cache) (block offset diff : ℕ) (p : IsPlaced g c)
    (pos : 0 < diff) where
  pub lookup-IsHit : (n : ℕ) → lookup c block offset diff ≡ hit n → IsHit c block offset diff n
  unfolding lookup lfs_min
  lookup-IsHit n e = record {
    some_bytes = ground (arith, p.bound);
    no_more = ground (arith, p.bound);
    same_block = ground (arith, p.bound);
    from_start = ground (arith, p.bound);
    to_end = ground (arith, p.bound);
  }

  pub lookup-IsLimit :
      (n : ℕ) → lookup c block offset diff ≡ limit n → IsLimit c block offset diff n
  unfolding lookup lfs_min
  lookup-IsLimit n e = record {
    some_bytes = ground (arith, p.bound);
    no_more = ground (arith, p.bound);
    outside = ground (arith, p.bound);
    length = ground (arith, p.bound);
  }

-- A hit copies the bytes that the cache holds there.
pub cached-eq-tabulate :
    (c : Cache) (offset n : ℕ)
    → c.offset ≤ offset
    → offset + n ≤ c.offset + c.size
    → c.size ≤ length c.buffer
    → cached c offset n ≡ tabulate (byte_in c) offset n
unfolding cached
cached-eq-tabulate c offset n from to fits =
    slice-eq-tabulate c.buffer (offset - c.offset) n 0 (omega arith) ∙ shifted offset n from
  where
    shifted :
        (o k : ℕ)
        → c.offset ≤ o
        → tabulate (λ i. get_or c.buffer i 0) (o - c.offset) k ≡ tabulate (byte_in c) o k
    shifted o zero h = refl
    shifted o (suc k) h =
        let e : suc (o - c.offset) ≡ suc o - c.offset = omega arith in
        ap (λ l. byte_in c o ∷ l)
          (ap (λ t. tabulate (λ i. get_or c.buffer i 0) t k) e ∙ shifted (suc o) k (omega arith))
