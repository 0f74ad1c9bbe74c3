-- ===== src/BlockDevice/Run.antt =====
-- A client's calls of a block device, one after the other.
use littlefs_v.Base.{ℕ, List, [], ◌∷◌, length, ◌≡◌}
use littlefs_v.Device.{Reply, done, failed}
use littlefs_v.BlockDevice.{BlockDevice}

pub data Call : Type 0 where
  read : ℕ → ℕ → ℕ → Call
  write : ℕ → ℕ → List ℕ → Call
  erase : ℕ → Call
  sync : Call

-- What a call hands back: the bytes of a read, else nothing.
abbrev pub Answer : Type 0
Answer = Reply (List ℕ)

abbrev pub answer : Reply (Unit {0}) → Answer
answer (done u) = done []
answer (failed e) = failed e

module _ {D : Type 0} (dev : BlockDevice D) where
  unfoldable pub call : D → Call → D × Answer
  call d (read block off size) = dev.read d block off size
  call d (write block off bytes) = let r = dev.write d block off bytes in (r.0, answer r.1)
  call d (erase block) = let r = dev.erase d block in (r.0, answer r.1)
  call d sync = let r = dev.sync d in (r.0, answer r.1)

  unfoldable pub run : D → List Call → D × List Answer
  unfolding call
  run d [] = (d, [])
  run d (c ∷ calls) = let r = call d c in let rest = run r.0 calls in (rest.0, r.1 ∷ rest.1)

-- A write is read back: it succeeds, and a read of the same range then hands back the same bytes
-- and leaves the device as it is.
pub record ReadsBack {D : Type 0} (dev : BlockDevice D) (d : D) (block off : ℕ) (bytes : List ℕ)
    : Type 0 where
  pub succeeds : (dev.write d block off bytes).1 ≡ done tt
  pub same :
      let d' = (dev.write d block off bytes).0 in
      dev.read d' block off (length bytes) ≡ (d', done bytes)
