-- ===== src/BlockDevice/Faults.antt =====
-- `fs::FaultInjectBlockDevice`: a device that loses power, or spoils a write, on demand.
pub mod PowerCut
use littlefs_v.Base.{
  ℕ, ◌+◌, bit_xor, Bool, true, false, ◌&&◌, List, [], ◌∷◌, leb, if◌then◌else◌, Option, none, some,
}
use littlefs_v.Errors.{Error}
use littlefs_v.Device.{Reply, done, failed}
use littlefs_v.BlockDevice.{BlockDevice}

-- `fail_after_writes` is `none` where the `int` is negative; the count of writes is below 2 ^ 31.
pub record FaultInject (D : Type 0) : Type 0 where
  pub device : D
  pub fail_after_writes : Option ℕ
  pub write_count : ℕ
  pub corrupt_next_write : Bool

-- Simulating sudden power cut / disk error
unfoldable pub has_failed : Option ℕ → ℕ → Bool
has_failed none count = false
has_failed (some limit) count = leb limit count

-- Invert first byte to simulate write corruption
unfoldable pub corrupt : List ℕ → List ℕ
corrupt [] = []
corrupt (b ∷ bytes) = bit_xor b 0xff ∷ bytes

module _ {D : Type 0} (underlying : BlockDevice D) where
  unfoldable pub create : D → FaultInject D
  create d = record {
    device = d;
    fail_after_writes = none;
    write_count = 0;
    corrupt_next_write = false;
  }

  unfoldable pub set_fail_after_writes : FaultInject D → Option ℕ → FaultInject D
  set_fail_after_writes f count = record f { fail_after_writes = count; write_count = 0 }

  unfoldable pub set_corrupt_next_write : FaultInject D → Bool → FaultInject D
  set_corrupt_next_write f b = record f { corrupt_next_write = b }

  unfoldable pub read : FaultInject D → ℕ → ℕ → ℕ → FaultInject D × Reply (List ℕ)
  read f block off size =
      let r = underlying.read f.device block off size in (record f { device = r.0 }, r.1)

  unfoldable pub write : FaultInject D → ℕ → ℕ → List ℕ → FaultInject D × Reply (Unit {0})
  unfolding has_failed corrupt
  write f block off bytes =
      if has_failed f.fail_after_writes f.write_count
      then (f, failed Error.io)
      else (let r =
            underlying.write f.device block off
              (if f.corrupt_next_write then corrupt bytes else bytes) in
          (
            record f { device = r.0; write_count = f.write_count + 1; corrupt_next_write = false },
            r.1,
          ))

  unfoldable pub erase : FaultInject D → ℕ → FaultInject D × Reply (Unit {0})
  erase f block = let r = underlying.erase f.device block in (record f { device = r.0 }, r.1)

  unfoldable pub sync : FaultInject D → FaultInject D × Reply (Unit {0})
  unfolding has_failed
  sync f =
      if has_failed f.fail_after_writes f.write_count
      then (f, failed Error.io)
      else (let r = underlying.sync f.device in (record f { device = r.0 }, r.1))
