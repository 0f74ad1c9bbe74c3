-- ===== src/Utility/Crc/Table.antt =====
-- The table against the bits.
use littlefs_v.Base.{
  ℕ, zero, suc, ◌+◌, ◌*◌, ◌/◌, ◌%◌, ◌^◌, ◌<◌, bit_xor, List, [], ◌∷◌, ◌++◌, get_or, Bool, true, ◌≡◌,
  refl, sym, ap, ap₂, ◌∙◌, arith, ◌==◌, ◌&&◌,
}
use littlefs_v.Base.Bits.{
  bit_xor-div, bit_xor-mod, bit_xor_assoc, bit_xor_comm, bit_xor_left_comm, bit_xor_self,
  bit_xor-zero, zero-bit_xor, bit_xor_parts, bit_and_low, bit_xor-lt,
}
use littlefs_v.Utility.Crc.{rtable, crc_nibble, crc_byte, lfs_crc}
use littlefs_v.Utility.Crc.Reference.{polynomial, shift_bit, shift_bits, crc_bitwise}

abbrev pub IsBytes : List ℕ → Type 0
IsBytes [] = Unit
IsBytes (b ∷ bs) = (b < 256) × IsBytes bs

shift_bit-xor : (a b : ℕ) → shift_bit (bit_xor a b) ≡ bit_xor (shift_bit a) (shift_bit b)
unfolding shift_bit
shift_bit-xor a b = ground (
  arith,
  bit_xor-div a b,
  bit_xor-mod a b,
  bit_xor_assoc (a / 2) (b / 2) polynomial,
  bit_xor_assoc (a / 2) polynomial (b / 2),
  bit_xor_assoc (a / 2) polynomial (bit_xor (b / 2) polynomial),
  bit_xor_comm (b / 2) polynomial,
  bit_xor_left_comm polynomial (b / 2) polynomial,
  bit_xor_self polynomial,
  bit_xor-zero (b / 2),
)

shift_bits-xor :
    (n a b : ℕ) → shift_bits n (bit_xor a b) ≡ bit_xor (shift_bits n a) (shift_bits n b)
unfolding shift_bits
shift_bits-xor zero a b = refl
shift_bits-xor (suc n) a b = rw (shift_bit-xor a b) (shift_bits-xor n (shift_bit a) (shift_bit b))

-- The low half byte leaves four zero bits behind.
shift_bits-high : (h : ℕ) → shift_bits 4 (h * 16) ≡ h
unfolding shift_bits shift_bit
shift_bits-high h = ground arith

entry : ℕ → ℕ
entry n = get_or rtable n 0

entries_agree : ℕ → Bool
unfolding entry
entries_agree zero = true
entries_agree (suc n) = (shift_bits 4 n == entry n) && entries_agree n

entries_agree_at : (n k : ℕ) → entries_agree n ≡ true → k < n → shift_bits 4 k ≡ entry k
unfolding entries_agree
entries_agree_at zero k h p = absurd (omega arith)
entries_agree_at (suc n) k h p = ground (arith, entries_agree_at n k)

-- The sixteen entries are the sixteen half bytes, shifted out.
shift_bits-low : (n : ℕ) → n < 16 → shift_bits 4 n ≡ entry n
unfolding entries_agree shift_bits shift_bit
shift_bits-low n h = entries_agree_at 16 n refl h

-- A number as the exclusive or of its high part and its last half byte.
join_parts : (c : ℕ) → bit_xor (c / 16 * 16) (c % 16) ≡ c
join_parts c =
    let whole : c / 16 * 16 ≡ c / 16 * 2 ^ 4 + 0 = omega arith in
    let low : c % 16 ≡ 0 * 2 ^ 4 + c % 16 = omega arith in
    ap₂ bit_xor whole low
    ∙ bit_xor_parts 4 (c / 16) 0 0 (c % 16) (omega arith) (omega arith)
    ∙ omega (arith, bit_xor-zero (c / 16), zero-bit_xor (c % 16))

-- Four steps are one lookup.
shift_bits-eq-lookup : (c : ℕ) → shift_bits 4 c ≡ bit_xor (c / 16) (entry (c % 16))
shift_bits-eq-lookup c =
    ap (shift_bits 4) (sym (join_parts c))
    ∙ shift_bits-xor 4 (c / 16 * 16) (c % 16)
    ∙ ap₂ bit_xor (shift_bits-high (c / 16)) (shift_bits-low (c % 16) (omega arith))

bit_xor-div_4 : (a b : ℕ) → bit_xor a b / 4 ≡ bit_xor (a / 4) (b / 4)
bit_xor-div_4 a b =
    let split : (x : ℕ) → x / 4 ≡ x / 2 / 2 = λ x. omega arith in
    split (bit_xor a b)
    ∙ ap (λ t. t / 2) (bit_xor-div a b)
    ∙ bit_xor-div (a / 2) (b / 2)
    ∙ ap₂ bit_xor (sym (split a)) (sym (split b))

bit_xor-div_16 : (a b : ℕ) → bit_xor a b / 16 ≡ bit_xor (a / 16) (b / 16)
bit_xor-div_16 a b =
    let split : (x : ℕ) → x / 16 ≡ x / 4 / 4 = λ x. omega arith in
    split (bit_xor a b)
    ∙ ap (λ t. t / 4) (bit_xor-div_4 a b)
    ∙ bit_xor-div_4 (a / 4) (b / 4)
    ∙ ap₂ bit_xor (sym (split a)) (sym (split b))

crc_nibble_lookup :
    (c part : ℕ) → crc_nibble c part ≡ bit_xor (c / 16) (entry (bit_xor c part % 16))
unfolding crc_nibble entry
crc_nibble_lookup c part = ap (λ t. bit_xor (c / 16) (entry t)) (bit_and_low 4 (bit_xor c part))

crc_nibble-eq :
    (c part : ℕ) → shift_bits 4 (bit_xor c part) ≡ bit_xor (crc_nibble c part) (part / 16)
crc_nibble-eq c part =
    let e = entry (bit_xor c part % 16) in
    shift_bits-eq-lookup (bit_xor c part)
    ∙ ap (λ t. bit_xor t e) (bit_xor-div_16 c part)
    ∙ bit_xor_assoc (c / 16) (part / 16) e
    ∙ ap (bit_xor (c / 16)) (bit_xor_comm (part / 16) e)
    ∙ sym (bit_xor_assoc (c / 16) e (part / 16))
    ∙ ap (λ t. bit_xor t (part / 16)) (sym (crc_nibble_lookup c part))

shift_bits-add_four : (c : ℕ) → shift_bits 8 c ≡ shift_bits 4 (shift_bits 4 c)
unfolding shift_bits
shift_bits-add_four c = refl

crc_byte-eq : (c byte : ℕ) → byte < 256 → crc_byte c byte ≡ shift_bits 8 (bit_xor c byte)
unfolding crc_byte
crc_byte-eq c byte h =
    let c' = crc_nibble c byte in
    let done : byte / 16 / 16 ≡ 0 = omega arith in
    sym (
      shift_bits-add_four (bit_xor c byte)
      ∙ ap (shift_bits 4) (crc_nibble-eq c byte)
      ∙ crc_nibble-eq c' (byte / 16)
      ∙ ap (bit_xor (crc_nibble c' (byte / 16))) done
      ∙ bit_xor-zero (crc_nibble c' (byte / 16)))

abbrev AllBelow : ℕ → List ℕ → Type 0
AllBelow bound [] = Unit
AllBelow bound (x ∷ xs) = (x < bound) × AllBelow bound xs

get_or-lt :
    (bound : ℕ) (xs : List ℕ) (i : ℕ) → 0 < bound → AllBelow bound xs → get_or xs i 0 < bound
get_or-lt bound [] i p h = p
get_or-lt bound (x ∷ xs) zero p h = h.0
get_or-lt bound (x ∷ xs) (suc i) p h = get_or-lt bound xs i p h.1

entry-lt : (n : ℕ) → entry n < 2 ^ 32
unfolding entry
entry-lt n = get_or-lt (2 ^ 32) rtable n (omega arith) (omega arith)

crc_byte-lt : (c byte : ℕ) → c < 2 ^ 32 → crc_byte c byte < 2 ^ 32
unfolding crc_byte
crc_byte-lt c byte h = nibble-lt (crc_nibble c byte) (byte / 16) (nibble-lt c byte h)
  where
    nibble-lt : (d part : ℕ) → d < 2 ^ 32 → crc_nibble d part < 2 ^ 32
    nibble-lt d part p =
        rw (crc_nibble_lookup d part)
          (bit_xor-lt 32 (d / 16) (entry (bit_xor d part % 16)) (omega arith) (entry-lt _))

-- A checksum stays within 32 bits.
pub lfs_crc-lt : (crc : ℕ) (bytes : List ℕ) → crc < 2 ^ 32 → lfs_crc crc bytes < 2 ^ 32
unfolding lfs_crc
lfs_crc-lt crc [] h = h
lfs_crc-lt crc (b ∷ bs) h = lfs_crc-lt (crc_byte crc b) bs (crc_byte-lt crc b h)

-- On bytes, the table gives the checksum that the division bit by bit gives.
pub lfs_crc-eq-crc_bitwise :
    (crc : ℕ) (bytes : List ℕ) → IsBytes bytes → lfs_crc crc bytes ≡ crc_bitwise crc bytes
unfolding lfs_crc crc_bitwise
lfs_crc-eq-crc_bitwise crc [] h = refl
lfs_crc-eq-crc_bitwise crc (b ∷ bs) h =
    rw (← crc_byte-eq crc b h.0) (lfs_crc-eq-crc_bitwise (crc_byte crc b) bs h.1)

-- A checksum can be taken piece by piece.
pub lfs_crc-append :
    (crc : ℕ) (xs ys : List ℕ) → lfs_crc crc (xs ++ ys) ≡ lfs_crc (lfs_crc crc xs) ys
unfolding lfs_crc
lfs_crc-append crc [] ys = refl
lfs_crc-append crc (x ∷ xs) ys = lfs_crc-append (crc_byte crc x) xs ys
