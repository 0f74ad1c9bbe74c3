-- ===== src/BlockDevice/Crypto/Undo.antt =====
-- The mixing undoes itself, so the decorated device reads back what was written through it.
use littlefs_v.Base.{ℕ, List, [], ◌∷◌, ◌≡◌, refl, ap, ap₂, ◌∙◌, sym, add64, length, suc}
use littlefs_v.Base.Bits.{bit_xor_cancel}
use littlefs_v.Device.{done}
use littlefs_v.BlockDevice.{BlockDevice}
use littlefs_v.BlockDevice.Run.{ReadsBack}
use littlefs_v.BlockDevice.Crypto.{mask, decoded, transform, read, write, crypto}

length-transform :
    (key block off : ℕ) (bytes : List ℕ) → length (transform key block off bytes) ≡ length bytes
unfolding transform
length-transform key block off [] = refl
length-transform key block off (b ∷ bytes) = ap suc (length-transform key block (add64 off 1) bytes)

-- Mixing twice with the same key, at the same place, gives the bytes back.
pub transform_twice :
    (key block off : ℕ) (bytes : List ℕ)
    → transform key block off (transform key block off bytes) ≡ bytes
unfolding transform
transform_twice key block off [] = refl
transform_twice key block off (b ∷ bytes) =
    ap₂ ◌∷◌ (bit_xor_cancel b (mask key block off)) (transform_twice key block (add64 off 1) bytes)

-- Where the underlying device reads back the mixed bytes, the decorated one reads back the bytes.
pub crypto-ReadsBack :
    {D : Type 0} (key : ℕ) (underlying : BlockDevice D) (d : D) (block off : ℕ) (bytes : List ℕ)
    → ReadsBack underlying d block off (transform key block off bytes)
    → ReadsBack (crypto key underlying) d block off bytes
unfolding read write
crypto-ReadsBack key underlying d block off bytes back =
    let d' = (underlying.write d block off (transform key block off bytes)).0 in
    let got = back.same in
    let long = length-transform key block off bytes in
    let got' : underlying.read d' block off (length bytes)
        ≡ (d', done (transform key block off bytes)) =
      ap (underlying.read d' block off) (sym long) ∙ got in
    record {
      succeeds = back.succeeds;
      same =
          ap (λ r. (r.0, decoded key block off r.1)) got'
          ∙ ap (λ l. (d', done l)) (transform_twice key block off bytes);
    }
