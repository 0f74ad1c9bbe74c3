-- ===== src/BlockDevice/Memory/ReadBack.antt =====
-- `fs::MemoryBlockDevice` reads back what is written inside a block.
use littlefs_v.Base.{
  ℕ, ◌+◌, ◌-◌, ◌≤◌, ◌<◌, ◌^◌, ◌≡◌, sym, ap, ◌∙◌, List, arith, length, tabulate, eq-tabulate, get_or,
  ◌==◌, leb, ltb, ◌&&◌, if◌then◌else◌,
}
use littlefs_v.Device.{done}
use littlefs_v.BlockDevice.Run.{ReadsBack}
use littlefs_v.BlockDevice.Memory.{MemoryBlockDevice, memory, write}
use littlefs_v.BlockDevice.Memory.Bytes.{IsSound, byte_at, write_holds, read_lem}

write_sizes :
    (m : MemoryBlockDevice) (block off : ℕ) (bytes : List ℕ)
    → let m' = (write m block off bytes).0 in
      (m'.block_size ≡ m.block_size) × (m'.block_count ≡ m.block_count)
unfolding write
write_sizes m block off bytes = ground arith

inside_range :
    (block off : ℕ) (bytes : List ℕ) (i old : ℕ)
    → i < length bytes
    → (if block == block && (leb off (off + i) && ltb (off + i) (off + length bytes))
        then get_or bytes (off + i - off) 0
        else old)
      ≡ get_or bytes i 0
inside_range block off bytes i old p =
    let e : off + i - off ≡ i = omega arith in rw e (ground arith)

-- On a sound device, writing a range inside a block succeeds, and the range is read back as it was
-- written.
pub memory-ReadsBack :
    (m : MemoryBlockDevice) (block off : ℕ) (bytes : List ℕ)
    → IsSound m
    → block < m.block_count
    → off + length bytes ≤ m.block_size
    → off + length bytes < 2 ^ 64
    → ReadsBack memory m block off bytes
memory-ReadsBack m block off bytes v inside fits small =
    let m' = (write m block off bytes).0 in
    let (replied, sound, holds) = write_holds m block off bytes v inside fits small in
    let sizes = write_sizes m block off bytes in
    let same : bytes ≡ tabulate (byte_at m' block) off (length bytes) =
      eq-tabulate bytes (byte_at m' block) off 0 (λ i p. sym (
        holds block (off + i) inside (omega arith)
        ∙ inside_range block off bytes i (byte_at m block (off + i)) p)) in
    record {
      succeeds = replied;
      same =
          read_lem m' block off (length bytes) sound (omega (arith, sizes)) (omega (arith, sizes))
            small
          ∙ ap (λ l. (m', done l)) (sym same);
    }
