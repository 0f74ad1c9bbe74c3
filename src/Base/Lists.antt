-- ===== src/Base/Lists.antt =====
-- Byte arrays and other C arrays as lists, indexed by native numbers.
use Prim.Native.Nat.{ℕ, zero, suc, ◌+◌, ◌-◌, ◌≤◌, ◌<◌, min}
use mathlib.Core.Path.{◌≡◌, refl, ap, ap₂, ◌∙◌}
use mathlib.Core.Logic.{◌≢◌}
use mathlib.Core.List.{List, [], ◌∷◌, ◌++◌}
use mathlib.Core.Option.{Option, none, some}
use native.Mathlib.Omega.{arith}

module _ {ℓ} {A : Type ℓ} where
  abbrev pub length : List A → ℕ
  length [] = 0
  length (x ∷ xs) = suc (length xs)

  abbrev pub get_or : List A → ℕ → A → A
  get_or [] i d = d
  get_or (x ∷ xs) zero d = x
  get_or (x ∷ xs) (suc i) d = get_or xs i d

  -- A write out of bounds changes nothing.
  abbrev pub set : List A → ℕ → A → List A
  set [] i v = []
  set (x ∷ xs) zero v = v ∷ xs
  set (x ∷ xs) (suc i) v = x ∷ set xs i v

  abbrev pub take : ℕ → List A → List A
  take zero xs = []
  take (suc n) [] = []
  take (suc n) (x ∷ xs) = x ∷ take n xs

  abbrev pub drop : ℕ → List A → List A
  drop zero xs = xs
  drop (suc n) [] = []
  drop (suc n) (x ∷ xs) = drop n xs

  abbrev pub replicate : ℕ → A → List A
  replicate zero a = []
  replicate (suc n) a = a ∷ replicate n a

  -- `memcpy(dst, &src[from], n)` as the bytes that are copied.
  abbrev pub slice : List A → ℕ → ℕ → List A
  slice xs from n = take n (drop from xs)

  pub length-append : (xs ys : List A) → length (xs ++ ys) ≡ length xs + length ys
  length-append [] ys = omega arith
  length-append (x ∷ xs) ys = omega (arith, length-append xs ys)

  pub length-set : (xs : List A) (i : ℕ) (v : A) → length (set xs i v) ≡ length xs
  length-set [] i v = refl
  length-set (x ∷ xs) zero v = refl
  length-set (x ∷ xs) (suc i) v = ap suc (length-set xs i v)

  pub get_or-set_self :
      (xs : List A) (i : ℕ) (v d : A) → i < length xs → get_or (set xs i v) i d ≡ v
  get_or-set_self [] i v d h = absurd (omega arith)
  get_or-set_self (x ∷ xs) zero v d h = refl
  get_or-set_self (x ∷ xs) (suc i) v d h = get_or-set_self xs i v d (omega arith)

  pub get_or-set_ne :
      (xs : List A) (i j : ℕ) (v d : A) → i ≢ j → get_or (set xs i v) j d ≡ get_or xs j d
  get_or-set_ne [] i j v d h = refl
  get_or-set_ne (x ∷ xs) zero zero v d h = absurd (h refl)
  get_or-set_ne (x ∷ xs) zero (suc j) v d h = refl
  get_or-set_ne (x ∷ xs) (suc i) zero v d h = refl
  get_or-set_ne (x ∷ xs) (suc i) (suc j) v d h = get_or-set_ne xs i j v d (λ e. h (ap suc e))

  pub get_or-append_left :
      (xs ys : List A) (i : ℕ) (d : A) → i < length xs → get_or (xs ++ ys) i d ≡ get_or xs i d
  get_or-append_left [] ys i d h = absurd (omega arith)
  get_or-append_left (x ∷ xs) ys zero d h = refl
  get_or-append_left (x ∷ xs) ys (suc i) d h = get_or-append_left xs ys i d (omega arith)

  pub length-take : (n : ℕ) (xs : List A) → length (take n xs) ≡ min n (length xs)
  length-take zero xs = omega arith
  length-take (suc n) [] = omega arith
  length-take (suc n) (x ∷ xs) = omega (arith, length-take n xs)

  pub length-drop : (n : ℕ) (xs : List A) → length (drop n xs) ≡ length xs - n
  length-drop zero xs = omega arith
  length-drop (suc n) [] = omega arith
  length-drop (suc n) (x ∷ xs) = omega (arith, length-drop n xs)

  pub length-replicate : (n : ℕ) (a : A) → length (replicate n a) ≡ n
  length-replicate zero a = refl
  length-replicate (suc n) a = ap suc (length-replicate n a)

  -- `f from, f (from + 1), …`, `n` values.
  abbrev pub tabulate : (ℕ → A) → ℕ → ℕ → List A
  tabulate f from zero = []
  tabulate f from (suc n) = f from ∷ tabulate f (suc from) n

  pub length-tabulate : (f : ℕ → A) (from n : ℕ) → length (tabulate f from n) ≡ n
  length-tabulate f from zero = refl
  length-tabulate f from (suc n) = ap suc (length-tabulate f (suc from) n)

  pub get_or-tabulate :
      (f : ℕ → A) (from n i : ℕ) (d : A) → i < n → get_or (tabulate f from n) i d ≡ f (from + i)
  get_or-tabulate f from zero i d h = absurd (omega arith)
  get_or-tabulate f from (suc n) zero d h = ap f (omega arith)
  get_or-tabulate f from (suc n) (suc i) d h =
      let e : suc from + i ≡ from + suc i = omega arith in
      rw (get_or-tabulate f (suc from) n i d (omega arith)) (ap f e)

  -- Two pieces of one table, the second from where the first ends.
  pub append-tabulate :
      (f : ℕ → A) (from m n mid : ℕ)
      → mid ≡ from + m
      → tabulate f from m ++ tabulate f mid n ≡ tabulate f from (m + n)
  append-tabulate f from zero n mid e =
      let e' : mid ≡ from = omega arith in let s : zero + n ≡ n = omega arith in rw (e', s)
  append-tabulate f from (suc m) n mid e =
      let s : suc m + n ≡ suc (m + n) = omega arith in
      rw s (ap (λ l. f from ∷ l) (append-tabulate f (suc from) m n mid (omega arith)))

  pub tabulate_ext :
      (f g : ℕ → A) (from n : ℕ)
      → ((i : ℕ) → from ≤ i → i < from + n → f i ≡ g i)
      → tabulate f from n ≡ tabulate g from n
  tabulate_ext f g from zero h = refl
  tabulate_ext f g from (suc n) h =
      ap₂ ◌∷◌ (h from (omega arith) (omega arith))
        (tabulate_ext f g (suc from) n (λ i p q. h i (omega arith) (omega arith)))

  -- Index `k` of an array is index `k + 1` once an element stands before it.
  pub tabulate-cons :
      (xs : List A) (x : A) (k m : ℕ) (d : A)
      → tabulate (λ i. get_or xs i d) k m ≡ tabulate (λ i. get_or (x ∷ xs) i d) (suc k) m
  tabulate-cons xs x k zero d = refl
  tabulate-cons xs x k (suc m) d = ap (λ l. get_or xs k d ∷ l) (tabulate-cons xs x (suc k) m d)

  -- What a slice of an array holds, element by element.
  pub slice-eq-tabulate :
      (xs : List A) (from n : ℕ) (d : A)
      → from + n ≤ length xs
      → slice xs from n ≡ tabulate (λ i. get_or xs i d) from n
  slice-eq-tabulate xs zero zero d h = refl
  slice-eq-tabulate [] zero (suc n) d h = absurd (omega arith)
  slice-eq-tabulate (x ∷ xs) zero (suc n) d h =
      ap (λ l. x ∷ l) (slice-eq-tabulate xs zero n d (omega arith) ∙ tabulate-cons xs x zero n d)
  slice-eq-tabulate [] (suc k) zero d h = refl
  slice-eq-tabulate [] (suc k) (suc n) d h = absurd (omega arith)
  slice-eq-tabulate (x ∷ xs) (suc k) n d h =
      slice-eq-tabulate xs k n d (omega arith) ∙ tabulate-cons xs x k n d

  pub get_or-append_right :
      (xs ys : List A) (i : ℕ) (d : A)
      → length xs ≤ i
      → get_or (xs ++ ys) i d ≡ get_or ys (i - length xs) d
  get_or-append_right [] ys i d h = ap (λ t. get_or ys t d) (omega arith)
  get_or-append_right (x ∷ xs) ys zero d h = absurd (omega arith)
  get_or-append_right (x ∷ xs) ys (suc i) d h =
      get_or-append_right xs ys i d (omega arith) ∙ ap (λ t. get_or ys t d) (omega arith)

  pub get_or-take :
      (n : ℕ) (xs : List A) (i : ℕ) (d : A) → i < n → get_or (take n xs) i d ≡ get_or xs i d
  get_or-take zero xs i d h = absurd (omega arith)
  get_or-take (suc n) [] i d h = refl
  get_or-take (suc n) (x ∷ xs) zero d h = refl
  get_or-take (suc n) (x ∷ xs) (suc i) d h = get_or-take n xs i d (omega arith)

  pub get_or-drop :
      (n : ℕ) (xs : List A) (i : ℕ) (d : A) → get_or (drop n xs) i d ≡ get_or xs (n + i) d
  get_or-drop zero xs i d = ap (λ t. get_or xs t d) (omega arith)
  get_or-drop (suc n) [] i d = refl
  get_or-drop (suc n) (x ∷ xs) i d =
      let e : suc n + i ≡ suc (n + i) = omega arith in rw e (get_or-drop n xs i d)

  pub get_or-replicate : (n : ℕ) (a : A) (i : ℕ) (d : A) → i < n → get_or (replicate n a) i d ≡ a
  get_or-replicate zero a i d h = absurd (omega arith)
  get_or-replicate (suc n) a zero d h = refl
  get_or-replicate (suc n) a (suc i) d h = get_or-replicate n a i d (omega arith)

  -- A list is the table of its own elements.
  pub eq-tabulate :
      (xs : List A) (f : ℕ → A) (from : ℕ) (d : A)
      → ((i : ℕ) → i < length xs → get_or xs i d ≡ f (from + i))
      → xs ≡ tabulate f from (length xs)
  eq-tabulate [] f from d h = refl
  eq-tabulate (x ∷ xs) f from d h =
      ap₂ ◌∷◌ (h 0 (omega arith) ∙ ap f (omega arith))
        (eq-tabulate xs f (suc from) d (λ i p. h (suc i) (omega arith) ∙ ap f (omega arith)))

  pub tabulate-shift :
      (f : ℕ → A) (k from n : ℕ) → tabulate f (k + from) n ≡ tabulate (λ i. f (k + i)) from n
  tabulate-shift f k from zero = refl
  tabulate-shift f k from (suc n) =
      let e : suc (k + from) ≡ k + suc from = omega arith in
      ap (λ l. f (k + from) ∷ l) (rw e (tabulate-shift f k (suc from) n))

module _ {ℓ} {A : Type ℓ} where
  abbrev pub get_elem? : List A → ℕ → Option A
  get_elem? [] i = none
  get_elem? (x ∷ xs) zero = some x
  get_elem? (x ∷ xs) (suc i) = get_elem? xs i

  pub get_elem?-eq-get_or :
      (xs : List A) (i : ℕ) (d : A) → i < length xs → get_elem? xs i ≡ some (get_or xs i d)
  get_elem?-eq-get_or [] i d h = absurd (omega arith)
  get_elem?-eq-get_or (x ∷ xs) zero d h = refl
  get_elem?-eq-get_or (x ∷ xs) (suc i) d h = get_elem?-eq-get_or xs i d (omega arith)

  pub get_elem?_past : (xs : List A) (i : ℕ) → length xs ≤ i → get_elem? xs i ≡ none
  get_elem?_past [] i h = refl
  get_elem?_past (x ∷ xs) zero h = absurd (omega arith)
  get_elem?_past (x ∷ xs) (suc i) h = get_elem?_past xs i (omega arith)

  pub get_elem?-set_self :
      (xs : List A) (i : ℕ) (v : A) → i < length xs → get_elem? (set xs i v) i ≡ some v
  get_elem?-set_self [] i v h = absurd (omega arith)
  get_elem?-set_self (x ∷ xs) zero v h = refl
  get_elem?-set_self (x ∷ xs) (suc i) v h = get_elem?-set_self xs i v (omega arith)

  pub get_elem?-set_ne :
      (xs : List A) (i j : ℕ) (v : A) → i ≢ j → get_elem? (set xs i v) j ≡ get_elem? xs j
  get_elem?-set_ne [] i j v h = refl
  get_elem?-set_ne (x ∷ xs) zero zero v h = absurd (h refl)
  get_elem?-set_ne (x ∷ xs) zero (suc j) v h = refl
  get_elem?-set_ne (x ∷ xs) (suc i) zero v h = refl
  get_elem?-set_ne (x ∷ xs) (suc i) (suc j) v h = get_elem?-set_ne xs i j v (λ e. h (ap suc e))
