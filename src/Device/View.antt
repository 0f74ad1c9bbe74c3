-- ===== src/Device/View.antt =====
-- What a block holds as its readers see it: the bytes of the write cache over those on the device.
use littlefs_v.Base.{
  ℕ, ◌+◌, ◌-◌, ◌%◌, ◌^◌, ◌≤◌, ◌<◌, Bool, ◌&&◌, ◌≡◌, List, tabulate, leb, ltb, ◌==◌, if◌then◌else◌,
  length, get_or, Option, none, some,
}
use littlefs_v.Device.{Geometry, Cache, Driver, done, failed}
use littlefs_v.Errors.{Error}

abbrev pub covers : Cache → ℕ → ℕ → Bool
covers c block o = block == c.block && (leb c.offset o && ltb o (c.offset + c.size))

abbrev pub byte_in : Cache → ℕ → ℕ
byte_in c o = get_or c.buffer (o - c.offset) 0

-- `disk block o` is the byte of the device at that place.
abbrev pub view : Option Cache → (ℕ → ℕ → ℕ) → ℕ → ℕ → ℕ
view none disk block o = disk block o
view (some c) disk block o = if covers c block o then byte_in c o else disk block o

-- A cache whose bytes lie in its buffer, whose end fits an offset and whose start is aligned.
pub record IsPlaced (g : Geometry) (c : Cache) : Type 0 where
  pub fits : c.size ≤ length c.buffer
  pub bound : c.offset + c.size < 2 ^ 64
  pub aligned : c.offset % g.read_size ≡ 0

abbrev pub IsPlacedWrite : Geometry → Option Cache → Type 0
IsPlacedWrite g none = Unit
IsPlacedWrite g (some c) = IsPlaced g c

-- A read cache that holds what stands on the device, where its block is one of the device.
abbrev pub IsCoherent : ℕ → Cache → (ℕ → ℕ → ℕ) → Type 0
IsCoherent block_count c disk =
    (o : ℕ)
    → c.offset ≤ o
    → o < c.offset + c.size
    → c.block < block_count
    → byte_in c o ≡ disk c.block o

-- What a device's `read` promises: when it returns 0, the buffer holds the bytes at that place.
abbrev pub Reads : {D : Type 0} → Driver D → D → (ℕ → ℕ → ℕ) → Type 0
Reads drv d disk =
    (block off size : ℕ) (bytes : List ℕ)
    → drv.read d block off size ≡ done bytes
    → bytes ≡ tabulate (disk block) off size

-- Some read of the block fails with this error.
abbrev pub Fails : {D : Type 0} → Driver D → D → ℕ → Error → Type 0
Fails drv d block e = (off : ℕ) × (size : ℕ) × (drv.read d block off size ≡ failed e)

-- The sizes that `lfs_init` checks, with one erase unit to a block, and bounds that keep sums of
-- offsets from wrapping.
pub record IsGeometry (g : Geometry) : Type 0 where
  pub reads : 0 < g.read_size
  pub caches : g.read_size ≤ g.cache_size
  pub cache_aligned : g.cache_size % g.read_size ≡ 0
  pub one_unit : g.erase_size ≡ g.block_size
  pub block_aligned : g.block_size % g.read_size ≡ 0
  pub cache_in_block : g.cache_size ≤ g.block_size
  pub small : g.block_size ≤ 2 ^ 32
  pub few : g.block_count ≤ 2 ^ 62
