-- ===== src/BlockDevice/Memory/Grow.antt =====
-- `allocate_block` of `fs::MemoryBlockDevice`: more blocks behind the ones it has.
use native.Mathlib.Nat.{mod-eq_of_lt}
use littlefs_v.Base.{
  ℕ, ◌+◌, ◌-◌, ◌*◌, ◌^◌, ◌<◌, ◌≡◌, refl, ◌∙◌, arith, List, ltb, if◌then◌else◌, add64, mul64, length,
  get_or, take, replicate, length-append, length-take, length-replicate, get_or-append_left,
  get_or-append_right, get_or-take, get_or-replicate,
}
use littlefs_v.Device.{done}
use littlefs_v.BlockDevice.Memory.{MemoryBlockDevice, resize, allocate_block}
use littlefs_v.BlockDevice.Memory.Bytes.{IsSound, byte_at, address-in, apart}

length-resize : (s : List ℕ) (n : ℕ) → length (resize s n) ≡ n
unfolding resize
length-resize s n = omega (
  arith,
  length-append (take n s) (replicate (n - length s) 0xff),
  length-take n s,
  length-replicate {A = ℕ} (n - length s) 0xff,
)

get_or-resize :
    (s : List ℕ) (n i : ℕ)
    → i < n
    → get_or (resize s n) i 0 ≡ (if ltb i (length s) then get_or s i 0 else 0xff)
unfolding resize
get_or-resize s n i h = ground (
  arith,
  length-take n s,
  get_or-take n s i 0,
  get_or-append_left (take n s) (replicate (n - length s) 0xff) i 0,
  get_or-append_right (take n s) (replicate (n - length s) 0xff) i 0,
  get_or-replicate {A = ℕ} (n - length s) 0xff (i - length s) 0,
)

grown : MemoryBlockDevice → MemoryBlockDevice
grown m = record m {
  block_count = m.block_count + 8;
  storage = resize m.storage (m.block_size * (m.block_count + 8));
}

allocate_block-grown :
    (m : MemoryBlockDevice)
    → m.block_count + 8 < 2 ^ 64
    → m.block_size * (m.block_count + 8) < 2 ^ 64
    → allocate_block m ≡ (grown m, done tt)
unfolding allocate_block grown
allocate_block-grown m small fits =
    let count : add64 m.block_count 8 ≡ m.block_count + 8 = omega arith in
    let size : mul64 m.block_size (m.block_count + 8) ≡ m.block_size * (m.block_count + 8) =
      mod-eq_of_lt fits in
    rw count (rw size refl)

allocate_block_holds :
    (m : MemoryBlockDevice)
    → IsSound m
    → m.block_count + 8 < 2 ^ 64
    → m.block_size * (m.block_count + 8) < 2 ^ 64
    → let (m', reply) = allocate_block m in
      (reply ≡ done tt)
      × IsSound m'
      × (m'.block_count ≡ m.block_count + 8)
      × ((b o : ℕ)
          → b < m.block_count + 8
          → o < m.block_size
          → byte_at m' b o ≡ (if ltb b m.block_count then byte_at m b o else 0xff))
unfolding grown
allocate_block_holds m v small fits =
    let n = m.block_size in
    let m' = grown m in
    rw (allocate_block-grown m small fits) (
      refl,
      record { whole = length-resize m.storage (n * (m.block_count + 8)); fits = fits },
      refl,
      λ b o bi oi.
          get_or-resize m.storage (n * (m.block_count + 8)) (b * n + o)
            (omega (arith, address-in m' b bi))
          ∙ ground (arith, v.whole, apart b m.block_count n),
    )

-- On a sound device whose size after growth fits 64 bits, `allocate_block` adds eight blocks of
-- 0xFF, keeps every byte of the blocks from before, and leaves the device sound.
pub allocate_block_lem :
    (m : MemoryBlockDevice)
    → IsSound m
    → m.block_count + 8 < 2 ^ 64
    → m.block_size * (m.block_count + 8) < 2 ^ 64
    → (b o : ℕ) → b < m.block_count + 8
    → o < m.block_size
    → let (m', reply) = allocate_block m in
      (reply ≡ done tt)
      × IsSound m'
      × (m'.block_count ≡ m.block_count + 8)
      × (byte_at m' b o ≡ (if ltb b m.block_count then byte_at m b o else 0xff))
allocate_block_lem m v small fits b o p q =
    let (replied, sound, count, rest) = allocate_block_holds m v small fits in
    (replied, sound, count, rest b o p q)
