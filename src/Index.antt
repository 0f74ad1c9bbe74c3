-- ===== src/Index.antt =====
-- src/littlefs_v2/lfs_file_index.cpp: a file's blocks as a list in which the block with index `i` points
-- back to the blocks with the indices `i - 2 ^ k`, for each `k` up to the number of zeros at the end of
-- `i`. Here: `lfs_ctz_index` and `lfs_ctz_find`, with the bit counts of include/lfs_utility.h.
pub mod Find
pub mod Traverse
use littlefs_v.Base.{
  ℕ, zero, suc, ◌+◌, ◌-◌, ◌*◌, ◌/◌, ◌%◌, ◌^◌, bit_and, List, [], ◌∷◌, Bool, true, false, ltb, ◌==◌,
  if◌then◌else◌, add64, sub64, mul64, Option, ◌>>◌,
}
use littlefs_v.Errors.{Error, Outcome, ok, err, abort, out_of_fuel, fault}
use littlefs_v.Utility.Align.{lfs_min}
use littlefs_v.Utility.Pair.{block_null}
use littlefs_v.Device.{Geometry, Driver, Cache}
use littlefs_v.Device.Read.{bd_read}

-- How many bits a number has, of `width` at most; 64 less this is `__builtin_clzll`.
unfoldable pub bit_length : ℕ → ℕ → ℕ
bit_length zero a = 0
bit_length (suc width) a = let rest = bit_length width (a / 2) in if a == 0 then 0 else suc rest

unfoldable pub npw2_64 : ℕ → ℕ
npw2_64 a = if a == 1 then 1 else 64 - (64 - bit_length 64 (sub64 a 1))

-- The loop of `lfs_ctz64`, `left` bits from bit `result` on.
unfoldable pub ctz_from : ℕ → ℕ → ℕ → ℕ
ctz_from zero result a = 0
ctz_from (suc left) result a =
    let rest = ctz_from left (suc result) a in if bit_and a (2 ^ result) == 0 then rest else result

unfoldable pub ctz64 : ℕ → ℕ
ctz64 a = ctz_from 64 0 a

-- The three steps of `lfs_popc64`; `+` binds stronger than `&` in the last one.
unfoldable pub popc64 : ℕ → ℕ
popc64 a =
    let pairs = sub64 a (bit_and (a >> 1) 0x5555555555555555) in
    let fours =
      add64 (bit_and pairs 0x3333333333333333) (bit_and (pairs >> 2) 0x3333333333333333) in
    mul64 (bit_and (add64 fours (fours >> 4)) 0x0f0f0f0f0f0f0f0f) 0x0101010101010101 >> 56

-- An `int` made of a `uint64_t`, and a `uint64_t` made of that.
unfoldable pub through_int : ℕ → ℕ
through_int i = if ltb (i % 2 ^ 32) (2 ^ 31) then i % 2 ^ 32 else 2 ^ 64 - 2 ^ 32 + i % 2 ^ 32

-- lfs_ctz_index: the index of the block with a file's byte, and the byte's offset there.
unfoldable pub ctz_index : ℕ → ℕ → ℕ × ℕ
ctz_index block_size size =
    let b = sub64 block_size 16 in
    let i = size / b in
    let i' = sub64 size (mul64 8 (popc64 (i - 1) + 2)) / b in
    if i == 0
    then (0, size)
    else (through_int i', sub64 (sub64 size (mul64 b i')) (mul64 8 (popc64 i')))

-- A word of the device's little-endian order.
unfoldable pub le64 : List ℕ → ℕ
le64 [] = 0
le64 (b ∷ bytes) = b + 256 * le64 bytes

module _ {D : Type 0} (g : Geometry) (drv : Driver D) (d : D) (wc : Option Cache) where
  unfoldable pub skip_of : ℕ → ℕ → ℕ
  skip_of current target = lfs_min (sub64 (npw2_64 (add64 (current - target) 1)) 1) (ctz64 current)

  -- The loop of `lfs_ctz_find`, with the read cache that it leaves.
  unfoldable pub find_loop : ℕ → Cache → ℕ → ℕ → ℕ → Cache × Outcome ℕ
  find_loop zero rc head current target = (rc, out_of_fuel)
  find_loop (suc left) rc head current target =
      let skip = skip_of current target in
      let r = bd_read g drv d wc 8 head rc (mul64 8 skip) 8 in
      if ltb target current
      then elim r.1 [
        | ok bytes ↦ find_loop left r.0 (le64 bytes) (sub64 current (2 ^ skip)) target
        | err e ↦ (r.0, err e)
        | abort ↦ (r.0, abort)
        | out_of_fuel ↦ (r.0, out_of_fuel)
        | fault ↦ (r.0, fault)
      ]
      else (rc, ok head)

  -- A block and an offset in it.
  abbrev pub Place : Type 0
  Place = ℕ × ℕ

  abbrev pub placed : ℕ → Cache × Outcome ℕ → Cache × Outcome Place
  placed offset (rc, ok block) = (rc, ok (block, offset))
  placed offset (rc, err e) = (rc, err e)
  placed offset (rc, abort) = (rc, abort)
  placed offset (rc, out_of_fuel) = (rc, out_of_fuel)
  placed offset (rc, fault) = (rc, fault)

  -- lfs_ctz_find. As many rounds as there are blocks behind the target, and one more, are enough.
  unfoldable pub ctz_find : Cache → ℕ → ℕ → ℕ → Cache × Outcome Place
  ctz_find rc head size pos =
      let current = (ctz_index g.block_size (size - 1)).0 in
      let target = (ctz_index g.block_size pos).0 in
      if size == 0
      then (rc, ok (block_null, 0))
      else placed (ctz_index g.block_size pos).1
          (find_loop (suc (current - target)) rc head current target)
