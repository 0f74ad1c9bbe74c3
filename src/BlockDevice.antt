-- ===== src/BlockDevice.antt =====
-- include/lfs_block_device.h: the interface `IBlockDevice`, over the state `D` of an
-- implementation. A call returns the new state and its reply.
pub mod Run
pub mod Memory
pub mod Crypto
pub mod Faults
pub mod Statistics
use littlefs_v.Base.{ℕ, List}
use littlefs_v.Device.{Reply}

pub record BlockDevice (D : Type 0) : Type 0 where
  pub read : D → ℕ → ℕ → ℕ → D × Reply (List ℕ)
  pub write : D → ℕ → ℕ → List ℕ → D × Reply (Unit {0})
  pub erase : D → ℕ → D × Reply (Unit {0})
  pub sync : D → D × Reply (Unit {0})
  pub allocate_block : D → D × Reply (Unit {0})
  pub get_block_size : D → ℕ
  pub get_block_count : D → ℕ
  pub set_block_count : D → ℕ → D
