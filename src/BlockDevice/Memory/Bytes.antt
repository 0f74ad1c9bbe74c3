-- ===== src/BlockDevice/Memory/Bytes.antt =====
-- What `fs::MemoryBlockDevice` keeps: each byte under its block and offset, and nothing else moves.
use native.Mathlib.Nat.{mul-le-mul_right}
use native.Mathlib.Decide.{dec_lt}
use littlefs_v.Base.{
  ℕ, ◌+◌, ◌-◌, ◌*◌, ◌^◌, ◌≤◌, ◌<◌, ◌≡◌, refl, ap, ◌∙◌, ◌⊎◌, inl, inr, arith, ◌&&◌, List, ◌++◌, ltb,
  leb, ◌==◌, if◌then◌else◌, add64, mul64, length, get_or, slice, take, drop, tabulate, replicate,
  length-append, length-take, length-drop, length-replicate, get_or-append_left,
  get_or-append_right, get_or-take, get_or-drop, get_or-replicate, slice-eq-tabulate,
  tabulate-shift,
}
use littlefs_v.Device.{done}
use littlefs_v.BlockDevice.Memory.{MemoryBlockDevice, store, read, write, erase}

-- The vector holds the blocks, and its length fits a `size_t`.
pub record IsSound (m : MemoryBlockDevice) : Type 0 where
  pub whole : length m.storage ≡ m.block_size * m.block_count
  pub fits : m.block_size * m.block_count < 2 ^ 64

-- The byte at an offset of a block.
abbrev pub byte_at : MemoryBlockDevice → ℕ → ℕ → ℕ
byte_at m block off = get_or m.storage (block * m.block_size + off) 0

length-store :
    (s : List ℕ) (at : ℕ) (bytes : List ℕ)
    → at + length bytes ≤ length s
    → length (store s at bytes) ≡ length s
unfolding store
length-store s at bytes h = omega (
  arith,
  length-append (take at s) (bytes ++ drop (at + length bytes) s),
  length-append bytes (drop (at + length bytes) s),
  length-take at s,
  length-drop (at + length bytes) s,
)

get_or-store :
    (s : List ℕ) (at : ℕ) (bytes : List ℕ) (i : ℕ)
    → at + length bytes ≤ length s
    → get_or (store s at bytes) i 0
      ≡ (if leb at i && ltb i (at + length bytes) then get_or bytes (i - at) 0 else get_or s i 0)
unfolding store
get_or-store s at bytes i h =
    let rest = bytes ++ drop (at + length bytes) s in
    ground (
      arith,
      length-take at s,
      get_or-append_left (take at s) rest i 0,
      get_or-append_right (take at s) rest i 0,
      get_or-take at s i 0,
      get_or-append_left bytes (drop (at + length bytes) s) (i - at) 0,
      get_or-append_right bytes (drop (at + length bytes) s) (i - at) 0,
      get_or-drop (at + length bytes) s (i - at - length bytes) 0,
    )

-- Blocks do not overlap.
address-lt :
    (m : MemoryBlockDevice) (b o c : ℕ)
    → b < c
    → o < m.block_size
    → b * m.block_size + o < c * m.block_size
address-lt m b o c h p = omega (arith, mul-le-mul_right m.block_size h)

-- The bytes of a block lie in the vector.
pub address-in :
    (m : MemoryBlockDevice) (b : ℕ)
    → b < m.block_count
    → b * m.block_size + m.block_size ≤ m.block_size * m.block_count
address-in m b h = omega (arith, mul-le-mul_right m.block_size h)

pub apart :
    (b c s : ℕ)
    → ((b ≡ c) × (b * s ≡ c * s))
      ⊎ (((b < c) × (b * s + s ≤ c * s)) ⊎ ((c < b) × (c * s + s ≤ b * s)))
apart b c s = elim (dec_lt b c) [
  | yes h ↦ inr (inl (h, omega (arith, mul-le-mul_right s h)))
  | no n ↦ elim (dec_lt c b) [
    | yes h ↦ inr (inr (h, omega (arith, mul-le-mul_right s h)))
    | no k ↦ (let e : b ≡ c = omega arith in inl (e, ap (λ t. t * s) e))
  ]
]

-- An address is in the range written exactly when its block and offset are.
in_range :
    (m : MemoryBlockDevice) (block off : ℕ) (bytes : List ℕ) (b o : ℕ)
    → o < m.block_size
    → off + length bytes ≤ m.block_size
    → let at = block * m.block_size + off in
      let i = b * m.block_size + o in
      (if leb at i && ltb i (at + length bytes)
        then get_or bytes (i - at) 0
        else get_or m.storage i 0)
      ≡ (if b == block && (leb off o && ltb o (off + length bytes))
          then get_or bytes (o - off) 0
          else byte_at m b o)
in_range m block off bytes b o p fits = ground (arith, apart b block m.block_size)

pub write_holds :
    (m : MemoryBlockDevice) (block off : ℕ) (bytes : List ℕ)
    → IsSound m
    → block < m.block_count
    → off + length bytes ≤ m.block_size
    → off + length bytes < 2 ^ 64
    → let (m', reply) = write m block off bytes in
      (reply ≡ done tt)
      × IsSound m'
      × ((b o : ℕ)
          → b < m.block_count
          → o < m.block_size
          → byte_at m' b o ≡ (
              if b == block && (leb off o && ltb o (off + length bytes))
              then get_or bytes (o - off) 0
              else byte_at m b o))
unfolding write
write_holds m block off bytes v inside fits small =
    let at = block * m.block_size + off in
    let end = address-in m block inside in
    let address : add64 (mul64 block m.block_size) off ≡ at = omega (arith, end, v.fits) in
    let room : at + length bytes ≤ length m.storage = omega (arith, end, v.whole) in
    let m' : MemoryBlockDevice = record m { storage = store m.storage at bytes } in
    let enters : write m block off bytes ≡ (m', done tt) = rw address (ground arith) in
    rw enters (
      refl,
      record { whole = length-store m.storage at bytes room ∙ v.whole; fits = v.fits },
      λ b o bi oi.
          get_or-store m.storage at bytes (b * m.block_size + o) room
          ∙ in_range m block off bytes b o oi fits,
    )

-- On a sound device, a write inside a block succeeds and leaves the device sound. Each byte of each
-- block is then the byte written, if it stands in the range written, and else the byte from before.
pub write_lem :
    (m : MemoryBlockDevice) (block off : ℕ) (bytes : List ℕ)
    → IsSound m
    → block < m.block_count
    → off + length bytes ≤ m.block_size
    → off + length bytes < 2 ^ 64
    → (b o : ℕ) → b < m.block_count
    → o < m.block_size
    → let (m', reply) = write m block off bytes in
      (reply ≡ done tt)
      × IsSound m'
      × (byte_at m' b o ≡ (
          if b == block && (leb off o && ltb o (off + length bytes))
          then get_or bytes (o - off) 0
          else byte_at m b o))
write_lem m block off bytes v inside fits small b o p q =
    let (replied, sound, rest) = write_holds m block off bytes v inside fits small in
    (replied, sound, rest b o p q)

-- On a sound device, a read inside a block succeeds with the bytes of that range, and changes nothing.
pub read_lem :
    (m : MemoryBlockDevice) (block off size : ℕ)
    → IsSound m
    → block < m.block_count
    → off + size ≤ m.block_size
    → off + size < 2 ^ 64
    → read m block off size ≡ (m, done (tabulate (byte_at m block) off size))
unfolding read
read_lem m block off size v inside fits small =
    let base = block * m.block_size in
    let end = address-in m block inside in
    let address : add64 (mul64 block m.block_size) off ≡ base + off = omega (arith, end, v.fits) in
    let room : base + off + size ≤ length m.storage = omega (arith, end, v.whole) in
    let bytes : slice m.storage (base + off) size ≡ tabulate (byte_at m block) off size =
      slice-eq-tabulate m.storage (base + off) size 0 room
      ∙ tabulate-shift (λ i. get_or m.storage i 0) base off size in
    rw (address, bytes) (ground arith)

erase_holds :
    (m : MemoryBlockDevice) (block : ℕ)
    → IsSound m
    → block < m.block_count
    → let (m', reply) = erase m block in
      (reply ≡ done tt)
      × IsSound m'
      × ((b o : ℕ)
          → b < m.block_count
          → o < m.block_size
          → byte_at m' b o ≡ (if b == block then 0xff else byte_at m b o))
unfolding erase
erase_holds m block v inside =
    let n = m.block_size in
    let blank : List ℕ = replicate n 0xff in
    let end = address-in m block inside in
    let long = length-replicate {A = ℕ} n 0xff in
    let address : mul64 block n ≡ block * n + 0 = omega (arith, end, v.fits) in
    let room : block * n + 0 + length blank ≤ length m.storage =
      omega (arith, end, v.whole, long) in
    let m' : MemoryBlockDevice = record m { storage = store m.storage (block * n + 0) blank } in
    let enters : erase m block ≡ (m', done tt) = rw address (ground arith) in
    rw enters (
      refl,
      record { whole = length-store m.storage (block * n + 0) blank room ∙ v.whole; fits = v.fits },
      λ b o bi oi.
          get_or-store m.storage (block * n + 0) blank (b * n + o) room
          ∙ in_range m block 0 blank b o oi (omega (arith, long))
          ∙ ground (arith, long, get_or-replicate {A = ℕ} n 0xff (o - 0) 0),
    )

-- On a sound device, an erase of a block below the count succeeds and leaves the device sound, with
-- 0xFF in every byte of that block and the bytes of the others from before.
pub erase_lem :
    (m : MemoryBlockDevice) (block : ℕ)
    → IsSound m
    → block < m.block_count
    → (b o : ℕ) → b < m.block_count
    → o < m.block_size
    → let (m', reply) = erase m block in
      (reply ≡ done tt)
      × IsSound m'
      × (byte_at m' b o ≡ (if b == block then 0xff else byte_at m b o))
erase_lem m block v inside b o p q =
    let (replied, sound, rest) = erase_holds m block v inside in (replied, sound, rest b o p q)
