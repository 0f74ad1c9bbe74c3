-- ===== src/Commit/Stored.antt =====
-- What a commit stores of a tag is what the two readers of the log take it for.
use littlefs_v.Base.{ℕ, zero, suc, ◌*◌, ◌/◌, ◌%◌, ◌^◌, ◌<◌, ◌≡◌, ap, ◌∙◌, arith, bit_and, bit_xor}
use littlefs_v.Base.Bits.{bit_and_low, bit_xor-lt, bit_xor_comm, bit_xor_cancel}
use littlefs_v.Utility.Endian.{bytes_of, frombe32, tobe32, bswap32, bswap32_twice, bswap32-lt}
use littlefs_v.Index.{le64}
use littlefs_v.Metadata.Get.{earlier_tag}
use littlefs_v.Commit.{stored_word}

pub le64-bytes_of : (n x : ℕ) → x < 256 ^ n → le64 (bytes_of n x) ≡ x
unfolding le64 bytes_of
le64-bytes_of zero x h = omega arith
le64-bytes_of (suc n) x h =
    let more : 256 ^ suc n ≡ 256 * 256 ^ n = grind arith in
    let rest = le64-bytes_of n (x / 256) (omega (arith, more)) in omega (arith, rest)

pub frombe32-tobe32 : (x : ℕ) → x < 2 ^ 32 → frombe32 (le64 (bytes_of 4 (tobe32 x))) ≡ x
unfolding frombe32 tobe32
frombe32-tobe32 x h =
    rw (le64-bytes_of 4 (bswap32 x) (omega (arith, bswap32-lt x h))) (bswap32_twice x h)

-- A tag is read as it was committed, in both directions: forwards, from the tag before it, as
-- `lfs_dir_fetchmatch` does, and backwards, the tag before it from the tag, as `lfs_dir_getslice` does.
-- The tag has 31 bits; so has, for the second, the one before it, and 32 for the first.
pub stored_word_read :
    (ptag tag : ℕ)
    → tag < 2 ^ 31
    → ptag < 2 ^ 32
    → (bit_xor (frombe32 (le64 (stored_word ptag tag))) ptag ≡ tag)
      × (earlier_tag (stored_word ptag tag) tag ≡ ptag % 2 ^ 31)
unfolding stored_word earlier_tag
stored_word_read ptag tag valid fits =
    let own : bit_and tag 0x7fffffff ≡ tag = bit_and_low 31 tag ∙ omega arith in
    let low : bit_xor tag ptag < 2 ^ 32 = bit_xor-lt 32 tag ptag (omega arith) fits in
    let word = frombe32-tobe32 (bit_xor tag ptag) low in
    let back : bit_xor (bit_xor tag ptag) tag ≡ ptag =
      ap (λ t. bit_xor t tag) (bit_xor_comm tag ptag) ∙ bit_xor_cancel ptag tag in
    rw (stored_word, own, earlier_tag, word, back) (bit_xor_cancel tag ptag, bit_and_low 31 ptag)
