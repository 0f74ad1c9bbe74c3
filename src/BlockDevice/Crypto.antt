-- ===== src/BlockDevice/Crypto.antt =====
-- `fs::CryptoBlockDevice`: bytes mixed with a stream of the key, the block and the position.
pub mod Undo
use littlefs_v.Base.{ℕ, ◌*◌, ◌%◌, ◌^◌, bit_and, bit_xor, List, [], ◌∷◌, add64, mul64, ◌>>◌}
use littlefs_v.Device.{Reply, done, failed}
use littlefs_v.BlockDevice.{BlockDevice}

-- The byte that `data[i]` is mixed with, at `pos = off + i`.
unfoldable pub mask : ℕ → ℕ → ℕ → ℕ
mask key block pos =
    let block_key = bit_xor key (mul64 block 0x9e3779b97f4a7c15) in
    let key_byte = bit_and (block_key >> (pos % 8 * 8)) 0xff % 2 ^ 8 in
    bit_xor key_byte (bit_and (mul64 pos 37) 0xff % 2 ^ 8)

unfoldable pub transform : ℕ → ℕ → ℕ → List ℕ → List ℕ
transform key block off [] = []
transform key block off (b ∷ bytes) =
    bit_xor b (mask key block off) ∷ transform key block (add64 off 1) bytes

-- A read's bytes are mixed back, an error is passed on.
abbrev pub decoded : ℕ → ℕ → ℕ → Reply (List ℕ) → Reply (List ℕ)
decoded key block off (done bytes) = done (transform key block off bytes)
decoded key block off (failed e) = failed e

module _ {D : Type 0} (key : ℕ) (underlying : BlockDevice D) where
  unfoldable pub read : D → ℕ → ℕ → ℕ → D × Reply (List ℕ)
  read d block off size =
      let r = underlying.read d block off size in (r.0, decoded key block off r.1)

  unfoldable pub write : D → ℕ → ℕ → List ℕ → D × Reply (Unit {0})
  write d block off bytes = underlying.write d block off (transform key block off bytes)

  abbrev pub crypto : BlockDevice D
  crypto = record underlying { read = read; write = write }
