-- ===== src/BlockDevice/Memory.antt =====
-- `fs::MemoryBlockDevice`: blocks one after the other in a vector of bytes.
pub mod Bytes
pub mod Grow
pub mod ReadBack
use littlefs_v.Base.{
  ℕ, ◌+◌, ◌-◌, List, ◌++◌, Bool, ◌||◌, ltb, leb, if◌then◌else◌, add64, mul64, slice, take, drop,
  length, replicate,
}
use littlefs_v.Errors.{Error}
use littlefs_v.Device.{Reply, done, failed}
use littlefs_v.BlockDevice.{BlockDevice}

pub record MemoryBlockDevice : Type 0 where
  pub block_size : ℕ
  pub block_count : ℕ
  pub storage : List ℕ

-- `std::vector::resize(n, 0xFF)`
unfoldable pub resize : List ℕ → ℕ → List ℕ
resize bytes n = take n bytes ++ replicate (n - length bytes) 0xff

unfoldable pub create : ℕ → ℕ → MemoryBlockDevice
create block_size block_count = record {
  block_size = block_size;
  block_count = block_count;
  storage = replicate (mul64 block_size block_count) 0xff;
}

-- `memcpy(&storage[at], bytes, …)`
unfoldable pub store : List ℕ → ℕ → List ℕ → List ℕ
store storage at bytes = take at storage ++ (bytes ++ drop (at + length bytes) storage)

unfoldable pub out_of_range : MemoryBlockDevice → ℕ → ℕ → ℕ → Bool
out_of_range m block off size = leb m.block_count block || ltb m.block_size (add64 off size)

unfoldable pub read : MemoryBlockDevice → ℕ → ℕ → ℕ → MemoryBlockDevice × Reply (List ℕ)
unfolding out_of_range
read m block off size =
    if out_of_range m block off size
    then (m, failed Error.io)
    else (m, done (slice m.storage (add64 (mul64 block m.block_size) off) size))

-- The size is that of the bytes.
unfoldable pub write : MemoryBlockDevice → ℕ → ℕ → List ℕ → MemoryBlockDevice × Reply (Unit {0})
unfolding out_of_range
write m block off bytes =
    if out_of_range m block off (length bytes) then (m, failed Error.io) else (
      record m { storage = store m.storage (add64 (mul64 block m.block_size) off) bytes },
      done tt,
    )

unfoldable pub erase : MemoryBlockDevice → ℕ → MemoryBlockDevice × Reply (Unit {0})
erase m block = if leb m.block_count block then (m, failed Error.io) else (
  record m { storage = store m.storage (mul64 block m.block_size) (replicate m.block_size 0xff) },
  done tt,
)

unfoldable pub sync : MemoryBlockDevice → MemoryBlockDevice × Reply (Unit {0})
sync m = (m, done tt)

unfoldable pub set_block_count : MemoryBlockDevice → ℕ → MemoryBlockDevice
set_block_count m count = record m {
  block_count = count;
  storage = resize m.storage (mul64 m.block_size count);
}

unfoldable pub allocate_block : MemoryBlockDevice → MemoryBlockDevice × Reply (Unit {0})
allocate_block m =
    let new_count = add64 m.block_count 8 in
    (
      record m {
        block_count = new_count;
        storage = resize m.storage (mul64 m.block_size new_count);
      },
      done tt,
    )

abbrev pub memory : BlockDevice MemoryBlockDevice
memory = record {
  read = read;
  write = write;
  erase = erase;
  sync = sync;
  allocate_block = allocate_block;
  get_block_size = λ m. m.block_size;
  get_block_count = λ m. m.block_count;
  set_block_count = set_block_count;
}
