-- ===== src/BlockDevice/Faults/PowerCut.antt =====
-- A power cut after a number of writes: what reaches the device is a prefix of what was written.
use littlefs_v.Base.{
  ℕ, zero, suc, ◌+◌, ◌-◌, ◌≤◌, ◌<◌, List, [], ◌∷◌, false, ◌≡◌, refl, ap, ◌∙◌, arith, length, take,
  leb, if◌then◌else◌, some,
}
use littlefs_v.Errors.{Error}
use littlefs_v.Device.{failed}
use littlefs_v.BlockDevice.{BlockDevice}
use littlefs_v.BlockDevice.Faults.{FaultInject, write, sync}

-- A range to write, and the device after a list of them.
pub record Chunk : Type 0 where
  pub block : ℕ
  pub off : ℕ
  pub bytes : List ℕ

module _ {D : Type 0} (underlying : BlockDevice D) where
  abbrev pub write_all : D → List Chunk → D
  write_all d [] = d
  write_all d (c ∷ cs) = write_all (underlying.write d c.block c.off c.bytes).0 cs

  abbrev pub inject_all : FaultInject D → List Chunk → FaultInject D
  inject_all f [] = f
  inject_all f (c ∷ cs) = inject_all (write underlying f c.block c.off c.bytes).0 cs

  -- Once the limit is reached, a write fails with LFS_ERR_IO and nothing changes.
  write-failed :
      (f : FaultInject D) (limit block off : ℕ) (bytes : List ℕ)
      → f.fail_after_writes ≡ some limit
      → limit ≤ f.write_count
      → write underlying f block off bytes ≡ (f, failed Error.io)
  unfolding write
  write-failed f limit block off bytes e h = ground arith

  inject_all-failed :
      (f : FaultInject D) (limit : ℕ) (cs : List Chunk)
      → f.fail_after_writes ≡ some limit
      → limit ≤ f.write_count
      → inject_all f cs ≡ f
  inject_all-failed f limit [] e h = refl
  inject_all-failed f limit (c ∷ cs) e h =
      ap (λ r. inject_all r.0 cs) (write-failed f limit c.block c.off c.bytes e h)
      ∙ inject_all-failed f limit cs e h

  abbrev counted : FaultInject D → Chunk → FaultInject D
  counted f c = record f {
    device = (underlying.write f.device c.block c.off c.bytes).0;
    write_count = f.write_count + 1;
    corrupt_next_write = false;
  }

  write-counted :
      (f : FaultInject D) (limit : ℕ) (c : Chunk)
      → f.fail_after_writes ≡ some limit
      → f.corrupt_next_write ≡ false
      → f.write_count < limit
      → (write underlying f c.block c.off c.bytes).0 ≡ counted f c
  unfolding write
  write-counted f limit c e clean h = ground arith

  sync-failed :
      (f : FaultInject D) (limit : ℕ)
      → f.fail_after_writes ≡ some limit
      → limit ≤ f.write_count
      → sync underlying f ≡ (f, failed Error.io)
  unfolding sync
  sync-failed f limit e h = ground arith

  sync-open :
      (f : FaultInject D) (limit : ℕ)
      → f.fail_after_writes ≡ some limit
      → f.write_count < limit
      → (sync underlying f).1 ≡ (underlying.sync f.device).1
  unfolding sync
  sync-open f limit e h = ground arith

  -- The statement below, with the writes that are left as a number of their own.
  abbrev Cut : FaultInject D → ℕ → List Chunk → ℕ → Type 0
  Cut f limit cs n =
      ((inject_all f cs).device ≡ write_all f.device (take n cs))
      × ((sync underlying (inject_all f cs)).1 ≡ (
          if leb limit (f.write_count + length cs)
          then failed Error.io
          else (underlying.sync (inject_all f cs).device).1))

  inject_all-Cut :
      (n : ℕ) (f : FaultInject D) (limit : ℕ) (cs : List Chunk)
      → n ≡ limit - f.write_count
      → f.fail_after_writes ≡ some limit
      → f.corrupt_next_write ≡ false
      → Cut f limit cs n
  inject_all-Cut zero f limit cs left e clean =
      let stays = inject_all-failed f limit cs e (omega arith) in
      rw stays (refl, ap (λ r. r.1) (sync-failed f limit e (omega arith)) ∙ ground arith)
  inject_all-Cut (suc n) f limit [] left e clean =
      (refl, sync-open f limit e (omega arith) ∙ ground arith)
  inject_all-Cut (suc n) f limit (c ∷ cs) left e clean =
      let rest = inject_all-Cut n (counted f c) limit cs (omega arith) e refl in
      let step = write-counted f limit c e clean (omega arith) in
      (ap (λ x. (inject_all x cs).device) step ∙ rest.0, rw step (rest.1 ∙ ground arith))

  -- With a limit set and no corruption asked for, the writes that reach the underlying device are
  -- the first so many of the list, as many as the limit still leaves. A `sync` afterwards replies
  -- LFS_ERR_IO if the list has at least so many, and else as the underlying device does.
  pub inject_all-take :
      (f : FaultInject D) (limit : ℕ) (cs : List Chunk)
      → f.fail_after_writes ≡ some limit
      → f.corrupt_next_write ≡ false
      → let f' = inject_all f cs in
        (f'.device ≡ write_all f.device (take (limit - f.write_count) cs))
        × ((sync underlying f').1 ≡ (
            if leb limit (f.write_count + length cs)
            then failed Error.io
            else (underlying.sync f'.device).1))
  inject_all-take f limit cs e clean =
      inject_all-Cut (limit - f.write_count) f limit cs refl e clean
