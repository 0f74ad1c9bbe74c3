-- ===== src/Tests/BlockDevices.antt =====
-- The devices of include/lfs_block_device.h: two blocks of four bytes in memory, and the decorators
-- on them.
use littlefs_v.Base.{ℕ, ◌≡◌, refl, arith, List, [], ◌∷◌, false, replicate, take, some}
use littlefs_v.Errors.{Error}
use littlefs_v.Device.{done, failed}
use littlefs_v.BlockDevice.Run
use littlefs_v.BlockDevice.Run.{Call, run, ReadsBack}
use littlefs_v.BlockDevice.Memory.{MemoryBlockDevice, memory, read}
use littlefs_v.BlockDevice.Memory.Bytes.{IsSound, read_lem}
use littlefs_v.BlockDevice.Memory.ReadBack.{memory-ReadsBack}
use littlefs_v.BlockDevice.Crypto.{crypto, transform}
use littlefs_v.BlockDevice.Crypto.Undo.{crypto-ReadsBack}
use littlefs_v.BlockDevice.Faults.{FaultInject, sync}
use littlefs_v.BlockDevice.Faults.PowerCut.{Chunk, write_all, inject_all, inject_all-take}
use littlefs_v.BlockDevice.Statistics.{Stats}
use littlefs_v.BlockDevice.Statistics.Counts.{statistics, tally, IsSum, statistics-run}

abbrev two_blocks : MemoryBlockDevice
two_blocks = record { block_size = 4; block_count = 2; storage = replicate 8 0xff }

two_blocks-IsSound : IsSound two_blocks
two_blocks-IsSound = record { whole = refl; fits = omega arith }

read_lem_example : read two_blocks 1 1 2 ≡ (two_blocks, done (0xff ∷ 0xff ∷ []))
read_lem_example =
    read_lem two_blocks 1 1 2 two_blocks-IsSound (omega arith) (omega arith) (omega arith)

memory-ReadsBack_example : ReadsBack memory two_blocks 1 1 (7 ∷ 8 ∷ [])
memory-ReadsBack_example =
    memory-ReadsBack two_blocks 1 1 (7 ∷ 8 ∷ []) two_blocks-IsSound (omega arith) (omega arith)
      (omega arith)

abbrev key : ℕ
key = 0x0123456789abcdef

mixed-ReadsBack : ReadsBack memory two_blocks 1 1 (transform key 1 1 (7 ∷ 8 ∷ []))
unfolding transform
mixed-ReadsBack =
    memory-ReadsBack two_blocks 1 1 (transform key 1 1 (7 ∷ 8 ∷ [])) two_blocks-IsSound
      (omega arith) (omega arith) (omega arith)

crypto-ReadsBack_example : ReadsBack (crypto key memory) two_blocks 1 1 (7 ∷ 8 ∷ [])
crypto-ReadsBack_example = crypto-ReadsBack key memory two_blocks 1 1 (7 ∷ 8 ∷ []) mixed-ReadsBack

abbrev failing : FaultInject MemoryBlockDevice
failing = record {
  device = two_blocks;
  fail_after_writes = some 2;
  write_count = 0;
  corrupt_next_write = false;
}

abbrev chunks : List Chunk
chunks =
    record { block = 0; off = 0; bytes = 1 ∷ [] }
    ∷ record { block = 0; off = 1; bytes = 2 ∷ [] }
    ∷ record { block = 0; off = 2; bytes = 3 ∷ [] }
    ∷ []

inject_all-take_example :
    let f' = inject_all memory failing chunks in
    (f'.device ≡ write_all memory two_blocks (take 2 chunks))
    × ((sync memory f').1 ≡ failed Error.io)
inject_all-take_example = inject_all-take memory failing 2 chunks refl refl

abbrev calls : List Call
calls = Run.write 0 1 (5 ∷ 6 ∷ []) ∷ Run.read 0 0 4 ∷ Run.sync ∷ []

abbrev none_yet : Stats
none_yet = record {
  reads_count = 0;
  writes_count = 0;
  erases_count = 0;
  syncs_count = 0;
  bytes_read = 0;
  bytes_written = 0;
}

statistics-run_example :
    let r = run (statistics memory) (none_yet, two_blocks) calls in
    (r.1 ≡ (run memory two_blocks calls).1)
    × (r.0.1 ≡ (run memory two_blocks calls).0)
    × IsSum memory none_yet (tally memory calls) r.0.0
statistics-run_example = statistics-run memory calls none_yet two_blocks
