-- ===== src/Allocator/Bitmap.antt =====
-- The bitmap of the allocator: a mark is seen where it was set, and nowhere else.
use native.Mathlib.Decide.{ℕ_discrete}
use native.Mathlib.Nat.{one-le-pow}
use littlefs_v.Base.{
  ℕ, zero, suc, ◌*◌, ◌/◌, ◌%◌, ◌^◌, ◌<◌, bit_and, bit_or, Bool, true, false, not, List, [], ◌∷◌,
  some, ◌==◌, if◌then◌else◌, ◌≡◌, ◌≢◌, refl, sym, ap, ◌∙◌, arith, length, set, get_or, length-set,
  get_elem?-eq-get_or, get_elem?-set_ne, get_or-set_self,
}
use littlefs_v.Base.Bits.{zero-bit, bit, bit-bit_or, bit_of_pow, bit_and_pow}
use littlefs_v.Allocator.{set_bit, get_bit, clear}

abbrev pub test : ℕ → ℕ → Bool
test word k = not (bit_and word (2 ^ k) == 0)

test-bit : (word k : ℕ) → test word k ≡ (bit word k == 1)
test-bit word k = elim (ℕ_discrete (bit word k) 0) [
  | yes z ↦ ground (arith, bit_and_pow k word, ap (λ t. t * 2 ^ k) z)
  | no n ↦
      (let one : bit word k ≡ 1 = omega arith in
        ground (arith, bit_and_pow k word, ap (λ t. t * 2 ^ k) one, one-le-pow k 2))
]

test_set_self : (word k : ℕ) → test (bit_or word (2 ^ k)) k ≡ true
test_set_self word k =
    test-bit (bit_or word (2 ^ k)) k
    ∙ ground (arith, bit-bit_or k word (2 ^ k), (bit_of_pow k k).0 refl)

test_set_ne : (word k j : ℕ) → k ≢ j → test (bit_or word (2 ^ k)) j ≡ test word j
test_set_ne word k j n =
    test-bit (bit_or word (2 ^ k)) j
    ∙ ground (arith, bit-bit_or j word (2 ^ k), (bit_of_pow k j).1 n)
    ∙ sym (test-bit word j)

-- A bit of a buffer, wherever the buffer has a word for it.
pub get_bit-test :
    (buffer : List ℕ) (o : ℕ)
    → o / 64 < length buffer
    → get_bit buffer o ≡ some (test (get_or buffer (o / 64) 0) (o % 64))
unfolding get_bit
get_bit-test buffer o h = rw (get_elem?-eq-get_or buffer (o / 64) 0 h, get_bit) refl

abbrev pub with_bit : List ℕ → ℕ → List ℕ
with_bit buffer o = set buffer (o / 64) (bit_or (get_or buffer (o / 64) 0) (2 ^ (o % 64)))

pub set_bit_with :
    (buffer : List ℕ) (o : ℕ) → o / 64 < length buffer → set_bit buffer o ≡ some (with_bit buffer o)
unfolding set_bit
set_bit_with buffer o h = rw (get_elem?-eq-get_or buffer (o / 64) 0 h, set_bit) refl

word-with_bit :
    (buffer : List ℕ) (o j : ℕ)
    → o / 64 < length buffer
    → o / 64 ≡ j / 64
    → get_bit (with_bit buffer o) j
      ≡ some (test (bit_or (get_or buffer (j / 64) 0) (2 ^ (o % 64))) (j % 64))
word-with_bit buffer o j h e =
    let v = bit_or (get_or buffer (o / 64) 0) (2 ^ (o % 64)) in
    get_bit-test (with_bit buffer o) j (omega (arith, length-set buffer (o / 64) v))
    ∙ ap (λ t. some (test t (j % 64)))
        (ap (λ t. get_or (with_bit buffer o) t 0) (sym e)
          ∙ get_or-set_self buffer (o / 64) v 0 h
          ∙ ap (λ t. bit_or (get_or buffer t 0) (2 ^ (o % 64))) e)

pub get_bit-with_bit :
    (buffer : List ℕ) (o j : ℕ)
    → o / 64 < length buffer
    → get_bit (with_bit buffer o) j ≡ (if o == j then some true else get_bit buffer j)
get_bit-with_bit buffer o j h = elim (ℕ_discrete (o / 64) (j / 64)) [
  | yes e ↦ elim (ℕ_discrete o j) [
    | yes same ↦
        word-with_bit buffer o j h e
        ∙ ap (λ t. some (test (bit_or (get_or buffer (j / 64) 0) (2 ^ (t % 64))) (j % 64))) same
        ∙ ap some (test_set_self (get_or buffer (j / 64) 0) (j % 64))
        ∙ ground arith
    | no differ ↦
        word-with_bit buffer o j h e
        ∙ ap some (test_set_ne (get_or buffer (j / 64) 0) (o % 64) (j % 64) (omega arith))
        ∙ sym (get_bit-test buffer j (omega arith))
        ∙ ground arith
  ]
  | no n ↦
      unfold get_bit in
      (let v = bit_or (get_or buffer (o / 64) 0) (2 ^ (o % 64)) in
        rw (get_elem?-set_ne buffer (o / 64) (j / 64) v n, get_bit) (ground arith))
]

pub length-clear : (n : ℕ) (buffer : List ℕ) → length (clear n buffer) ≡ length buffer
unfolding clear
length-clear zero buffer = refl
length-clear (suc n) [] = refl
length-clear (suc n) (w ∷ buffer) = ap suc (length-clear n buffer)

pub length-with_bit : (buffer : List ℕ) (o : ℕ) → length (with_bit buffer o) ≡ length buffer
length-with_bit buffer o =
    length-set buffer (o / 64) (bit_or (get_or buffer (o / 64) 0) (2 ^ (o % 64)))

-- The words that have been cleared have no bit set.
pub get_bit-clear :
    (words : ℕ) (buffer : List ℕ) (o : ℕ)
    → o / 64 < words
    → o / 64 < length buffer
    → get_bit (clear words buffer) o ≡ some false
unfolding clear
get_bit-clear words buffer o p q =
    get_bit-test (clear words buffer) o (omega (arith, length-clear words buffer))
    ∙ ap (λ w. some (test w (o % 64))) (word-clear words buffer (o / 64) p q)
    ∙ ap some (test-bit 0 (o % 64) ∙ ground (arith, zero-bit (o % 64)))
  where
    word-clear : (n : ℕ) (ws : List ℕ) (k : ℕ) → k < n → k < length ws → get_or (clear n ws) k 0 ≡ 0
    word-clear zero ws k h l = absurd (omega arith)
    word-clear (suc n) [] k h l = absurd (omega arith)
    word-clear (suc n) (w ∷ ws) zero h l = refl
    word-clear (suc n) (w ∷ ws) (suc k) h l = word-clear n ws k (omega arith) (omega arith)

-- Setting a bit of a buffer that has a word for it succeeds, marks that bit, and leaves every other as
-- it was.
pub set_bit_lem :
    (buffer : List ℕ) (o j : ℕ)
    → o / 64 < length buffer
    → (buffer' : List ℕ) × (set_bit buffer o ≡ some buffer')
      × (get_bit buffer' j ≡ (if o == j then some true else get_bit buffer j))
set_bit_lem buffer o j h =
    (with_bit buffer o, set_bit_with buffer o h, get_bit-with_bit buffer o j h)
