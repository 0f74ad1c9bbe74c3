-- ===== src/Device/Write/Compare.antt =====
-- `lfs_bd_cmp` ends, and says whether the device's view of a block has the bytes that are expected.
use littlefs_v.Base.{
  ℕ, zero, suc, ◌+◌, ◌<◌, List, [], ◌∷◌, ◌++◌, take, drop, length, Option, ◌≡◌, ◌≢◌, refl, sym, ap,
  ◌∙◌, arith, tabulate, append-tabulate, length-tabulate, length-append,
}
use littlefs_v.Errors.{Outcome, ok, err, abort, out_of_fuel, fault}
use littlefs_v.Device.{Geometry, Driver, Cache}
use littlefs_v.Device.View.{view, IsPlacedWrite, Reads, Fails, IsGeometry}
use littlefs_v.Device.Read.Step.{IsReady}
use littlefs_v.Device.Read.Loop.{IsRead}
use littlefs_v.Device.Write.{Cmp, memcmp, piece}

-- What the comparison of a list with the bytes of a block has come to.
abbrev pub IsCmp : List ℕ → List ℕ → Cmp → Type 0
IsCmp bytes expected Cmp.eq = bytes ≡ expected
IsCmp bytes expected Cmp.lt = memcmp bytes expected ≡ Cmp.lt
IsCmp bytes expected Cmp.gt = memcmp bytes expected ≡ Cmp.gt

-- Whether they are equal first, and then which comes first.
IsCmp-memcmp :
    (xs ys : List ℕ) (c : Cmp)
    → (memcmp xs ys ≡ Cmp.eq → xs ≡ ys)
    → memcmp xs ys ≡ c
    → IsCmp xs ys c
IsCmp-memcmp xs ys Cmp.eq f h = f h
IsCmp-memcmp xs ys Cmp.lt f h = h
IsCmp-memcmp xs ys Cmp.gt f h = h

memcmp_eq : (xs ys : List ℕ) → length xs ≡ length ys → memcmp xs ys ≡ Cmp.eq → xs ≡ ys
unfolding memcmp
memcmp_eq [] [] h e = refl
memcmp_eq [] (y ∷ ys) h e = absurd (omega arith)
memcmp_eq (x ∷ xs) [] h e = absurd (omega arith)
memcmp_eq (x ∷ xs) (y ∷ ys) h e = ground (arith, memcmp_eq xs ys)

memcmp_same : (xs : List ℕ) → memcmp xs xs ≡ Cmp.eq
unfolding memcmp
memcmp_same [] = refl
memcmp_same (x ∷ xs) = ground (arith, memcmp_same xs)

pub memcmp_ne : (xs ys : List ℕ) (c : Cmp) → c ≢ Cmp.eq → memcmp xs ys ≡ c → xs ≢ ys
memcmp_ne xs ys c n h e = n (sym h ∙ ap (memcmp xs) (sym e) ∙ memcmp_same xs)

pub memcmp_of_IsCmp : (xs ys : List ℕ) (c : Cmp) → IsCmp xs ys c → memcmp xs ys ≡ c
memcmp_of_IsCmp xs ys Cmp.eq h = ap (memcmp xs) (sym h) ∙ memcmp_same xs
memcmp_of_IsCmp xs ys Cmp.lt h = h
memcmp_of_IsCmp xs ys Cmp.gt h = h

memcmp-IsCmp : (xs ys : List ℕ) → length xs ≡ length ys → IsCmp xs ys (memcmp xs ys)
memcmp-IsCmp xs ys h = IsCmp-memcmp xs ys (memcmp xs ys) (memcmp_eq xs ys h) refl

memcmp_self : (xs ys zs : List ℕ) → memcmp (xs ++ ys) (xs ++ zs) ≡ memcmp ys zs
unfolding memcmp
memcmp_self [] ys zs = refl
memcmp_self (x ∷ xs) ys zs = ground (arith, memcmp_self xs ys zs)

memcmp_first :
    (xs xs' ys ys' : List ℕ)
    → length xs ≡ length xs'
    → memcmp xs xs' ≢ Cmp.eq
    → memcmp (xs ++ ys) (xs' ++ ys') ≡ memcmp xs xs'
unfolding memcmp
memcmp_first [] [] ys ys' h n = absurd (n refl)
memcmp_first [] (y ∷ xs') ys ys' h n = absurd (omega arith)
memcmp_first (x ∷ xs) [] ys ys' h n = absurd (omega arith)
memcmp_first (x ∷ xs) (y ∷ xs') ys ys' h n = ground (arith, memcmp_first xs xs' ys ys')

pub take-drop : (n : ℕ) (xs : List ℕ) → take n xs ++ drop n xs ≡ xs
take-drop zero xs = refl
take-drop (suc n) [] = refl
take-drop (suc n) (x ∷ xs) = ap (λ l. x ∷ l) (take-drop n xs)

IsCmp-append : (xs ys ys' : List ℕ) (c : Cmp) → IsCmp ys ys' c → IsCmp (xs ++ ys) (xs ++ ys') c
IsCmp-append xs ys ys' Cmp.eq h = ap (λ l. xs ++ l) h
IsCmp-append xs ys ys' Cmp.lt h = memcmp_self xs ys ys' ∙ h
IsCmp-append xs ys ys' Cmp.gt h = memcmp_self xs ys ys' ∙ h

-- What a call leaves: the outcome of the comparison, with a read cache fit for use; or an error with
-- which the device failed a read of that block.
abbrev pub IsCompared :
    {D : Type 0}
    → Geometry
    → Driver D
    → D
    → (ℕ → ℕ → ℕ)
    → Option Cache
    → ℕ
    → ℕ
    → List ℕ
    → Cache × Outcome Cmp
    → Type 0
IsCompared g drv d disk wc block offset expected (rc, ok c) =
    IsCmp (tabulate (view wc disk block) offset (length expected)) expected c × IsReady g disk rc
IsCompared g drv d disk wc block offset expected (rc, err e) = Fails drv d block e
IsCompared g drv d disk wc block offset expected (rc, abort) = ⊥
IsCompared g drv d disk wc block offset expected (rc, out_of_fuel) = ⊥
IsCompared g drv d disk wc block offset expected (rc, fault) = ⊥

module _ {D : Type 0} (g : Geometry) (drv : Driver D) (d : D) (disk : ℕ → ℕ → ℕ) (v : IsGeometry g)
    (reads : Reads drv d disk) (wc : Option Cache) (block : ℕ) (wp : IsPlacedWrite g wc)
    (inside : block < g.block_count) where
  pub piece-IsCompared :
      (offset : ℕ) (expected : List ℕ) (r : Cache × Outcome (List ℕ))
      → IsRead g drv d disk wc block offset (length expected) r
      → IsCompared g drv d disk wc block offset expected (piece g drv r expected)
  unfolding piece
  piece-IsCompared offset expected (rc, ok bytes) (e, ready) =
      let long : length bytes ≡ length expected =
        ap length e ∙ length-tabulate (view wc disk block) offset (length expected) in
      (rw (← e) (memcmp-IsCmp bytes expected long), ready)
  piece-IsCompared offset expected (rc, err e) f = f
  piece-IsCompared offset expected (rc, abort) f = f
  piece-IsCompared offset expected (rc, out_of_fuel) f = f
  piece-IsCompared offset expected (rc, fault) f = f

  -- The bytes of the block at both parts of a list.
  both :
      (offset : ℕ) (xs ys : List ℕ)
      → tabulate (view wc disk block) offset (length (xs ++ ys))
        ≡ tabulate (view wc disk block) offset (length xs)
          ++ tabulate (view wc disk block) (offset + length xs) (length ys)
  both offset xs ys =
      ap (tabulate (view wc disk block) offset) (length-append xs ys)
      ∙ sym (
          append-tabulate (view wc disk block) offset (length xs) (length ys) (offset + length xs)
            refl)

  pub first-IsCompared :
      (offset : ℕ) (xs ys : List ℕ) (c : Cmp)
      → c ≢ Cmp.eq
      → memcmp (tabulate (view wc disk block) offset (length xs)) xs ≡ c
      → memcmp (tabulate (view wc disk block) offset (length (xs ++ ys))) (xs ++ ys) ≡ c
  first-IsCompared offset xs ys c n h = rw (both offset xs ys) (
      memcmp_first (tabulate (view wc disk block) offset (length xs)) xs
        (tabulate (view wc disk block) (offset + length xs) (length ys)) ys
        (length-tabulate (view wc disk block) offset (length xs)) (λ e. n (sym h ∙ e))
      ∙ h)

  pub rest-IsCompared :
      (offset : ℕ) (xs ys : List ℕ) (r : Cache × Outcome Cmp)
      → tabulate (view wc disk block) offset (length xs) ≡ xs
      → IsCompared g drv d disk wc block (offset + length xs) ys r
      → IsCompared g drv d disk wc block offset (xs ++ ys) r
  rest-IsCompared offset xs ys (rc, ok c) e (h, ready) = (
    rw (both offset xs ys, e)
        (IsCmp-append xs (tabulate (view wc disk block) (offset + length xs) (length ys)) ys c h),
    ready,
  )
  rest-IsCompared offset xs ys (rc, err e') e h = h
  rest-IsCompared offset xs ys (rc, abort) e h = h
  rest-IsCompared offset xs ys (rc, out_of_fuel) e h = h
  rest-IsCompared offset xs ys (rc, fault) e h = h
