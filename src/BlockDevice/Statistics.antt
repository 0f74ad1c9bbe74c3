-- ===== src/BlockDevice/Statistics.antt =====
-- `fs::StatisticsBlockDevice`: counts of the calls, and of the bytes that they move.
pub mod Counts
use littlefs_v.Base.{ℕ, List, length, add64}
use littlefs_v.Device.{Reply}
use littlefs_v.BlockDevice.{BlockDevice}

pub record Stats : Type 0 where
  pub reads_count : ℕ
  pub writes_count : ℕ
  pub erases_count : ℕ
  pub syncs_count : ℕ
  pub bytes_read : ℕ
  pub bytes_written : ℕ

unfoldable pub zero_stats : Stats
zero_stats = record {
  reads_count = 0;
  writes_count = 0;
  erases_count = 0;
  syncs_count = 0;
  bytes_read = 0;
  bytes_written = 0;
}

module _ {D : Type 0} (underlying : BlockDevice D) where
  unfoldable pub read : Stats × D → ℕ → ℕ → ℕ → (Stats × D) × Reply (List ℕ)
  read (s, d) block off size =
      let r = underlying.read d block off size in
      (
        (
          record s { reads_count = add64 s.reads_count 1; bytes_read = add64 s.bytes_read size },
          r.0,
        ),
        r.1,
      )

  unfoldable pub write : Stats × D → ℕ → ℕ → List ℕ → (Stats × D) × Reply (Unit {0})
  write (s, d) block off bytes =
      let r = underlying.write d block off bytes in
      (
        (
          record s {
            writes_count = add64 s.writes_count 1;
            bytes_written = add64 s.bytes_written (length bytes);
          },
          r.0,
        ),
        r.1,
      )

  unfoldable pub erase : Stats × D → ℕ → (Stats × D) × Reply (Unit {0})
  erase (s, d) block =
      let r = underlying.erase d block in
      ((record s { erases_count = add64 s.erases_count 1 }, r.0), r.1)

  unfoldable pub sync : Stats × D → (Stats × D) × Reply (Unit {0})
  sync (s, d) =
      let r = underlying.sync d in ((record s { syncs_count = add64 s.syncs_count 1 }, r.0), r.1)

  unfoldable pub reset_stats : Stats × D → Stats × D
  unfolding zero_stats
  reset_stats (s, d) = (zero_stats, d)
