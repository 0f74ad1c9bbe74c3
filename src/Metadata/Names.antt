-- ===== src/Metadata/Names.antt =====
-- `lfs_dir_find_match` as an order on names: byte by byte, and where one name is the start of the
-- other, the longer one comes first.
use littlefs_v.Base.{
  ℕ, zero, suc, ◌+◌, ◌^◌, ◌≤◌, ◌<◌, List, [], ◌∷◌, ltb, ◌==◌, if◌then◌else◌, take, length, tabulate,
  none, ◌≡◌, refl, sym, ap, ◌∙◌, ◌↔◌, inl, inr, arith, Bool-cases, length-take, length-tabulate,
}
use littlefs_v.Utility.Align.{lfs_min}
use littlefs_v.Utility.Tag.{tag_size}
use littlefs_v.Utility.Tag.Fields.{tag_size_sum}
use littlefs_v.Errors.{Outcome, ok, err, abort, out_of_fuel, fault}
use littlefs_v.Device.{Geometry, Driver, Cache}
use littlefs_v.Device.View.{Reads, IsGeometry}
use littlefs_v.Device.Write.{Cmp, memcmp, bd_cmp}
use littlefs_v.Device.Write.Compare.{IsCompared, memcmp_of_IsCmp}
use littlefs_v.Device.Write.Compared.{bd_cmp-IsCompared}
use littlefs_v.Device.Cached.Ends.{Ended, Ends, bind-Ends}
use littlefs_v.Metadata.Fetch.Match.{compared, dir_find_match}

unfoldable pub compare_names : List ℕ → List ℕ → Cmp
compare_names [] [] = Cmp.eq
compare_names [] (y ∷ ys) = Cmp.gt
compare_names (x ∷ xs) [] = Cmp.lt
compare_names (x ∷ xs) (y ∷ ys) =
    let rest = compare_names xs ys in if x == y then rest else if ltb x y then Cmp.lt else Cmp.gt

-- The order the other way round.
abbrev pub flip : Cmp → Cmp
flip Cmp.eq = Cmp.eq
flip Cmp.lt = Cmp.gt
flip Cmp.gt = Cmp.lt

compare_names_eq : (xs ys : List ℕ) → (compare_names xs ys ≡ Cmp.eq) ↔ (xs ≡ ys)
unfolding compare_names
compare_names_eq [] [] = ground arith
compare_names_eq [] (y ∷ ys) = ground arith
compare_names_eq (x ∷ xs) [] = ground arith
compare_names_eq (x ∷ xs) (y ∷ ys) = ground (arith, compare_names_eq xs ys)

compare_names-flip : (xs ys : List ℕ) → compare_names ys xs ≡ flip (compare_names xs ys)
unfolding compare_names
compare_names-flip [] [] = refl
compare_names-flip [] (y ∷ ys) = refl
compare_names-flip (x ∷ xs) [] = refl
compare_names-flip (x ∷ xs) (y ∷ ys) = ground (arith, compare_names-flip xs ys)

compare_names_trans :
    (xs ys zs : List ℕ)
    → compare_names xs ys ≡ Cmp.lt
    → compare_names ys zs ≡ Cmp.lt
    → compare_names xs zs ≡ Cmp.lt
unfolding compare_names
compare_names_trans [] [] zs p q = cc
compare_names_trans [] (y ∷ ys) zs p q = cc
compare_names_trans (x ∷ xs) [] [] p q = cc
compare_names_trans (x ∷ xs) [] (z ∷ zs) p q = cc
compare_names_trans (x ∷ xs) (y ∷ ys) [] p q = refl
compare_names_trans (x ∷ xs) (y ∷ ys) (z ∷ zs) p q =
    ground (arith, compare_names_trans xs ys zs, compare_names_eq xs ys, compare_names_eq ys zs)

-- The order that the entries of a directory are kept in is a total order on names: of two names exactly
-- one comes first unless they are equal, and what comes before a name comes before what that name
-- comes before.
pub compare_names_total :
    (xs ys zs : List ℕ)
    → ((compare_names xs ys ≡ Cmp.eq) ↔ (xs ≡ ys))
      × (compare_names ys xs ≡ flip (compare_names xs ys))
      × (compare_names xs ys ≡ Cmp.lt → compare_names ys zs ≡ Cmp.lt → compare_names xs zs ≡ Cmp.lt)
compare_names_total xs ys zs =
    (compare_names_eq xs ys, compare_names-flip xs ys, compare_names_trans xs ys zs)

compared-suc : (a b : ℕ) (c : Cmp) → compared (suc a) (suc b) c ≡ compared a b c
compared-suc a b Cmp.eq = ground arith
compared-suc a b Cmp.lt = refl
compared-suc a b Cmp.gt = refl

-- The bytes that both names have, and then the lengths.
pub compared-eq-compare_names :
    (xs ys : List ℕ) (n : ℕ)
    → n ≡ lfs_min (length ys) (length xs)
    → compared (length ys) (length xs) (memcmp (take n xs) (take n ys)) ≡ compare_names xs ys
unfolding memcmp compare_names lfs_min
compared-eq-compare_names [] [] n e = let z : n ≡ 0 = ground arith in rw z refl
compared-eq-compare_names [] (y ∷ ys) n e = let z : n ≡ 0 = ground arith in rw z (ground arith)
compared-eq-compare_names (x ∷ xs) [] n e = let z : n ≡ 0 = ground arith in rw z (ground arith)
compared-eq-compare_names (x ∷ xs) (y ∷ ys) zero e = absurd (ground arith)
compared-eq-compare_names (x ∷ xs) (y ∷ ys) (suc n) e =
    let ih = compared-eq-compare_names xs ys n (ground arith) in
    let same = compared-suc (length ys) (length xs) (memcmp (take n xs) (take n ys)) in
    elim (Bool-cases (x == y)) [
      | inl eq ↦ rw eq (same ∙ ih)
      | inr ne ↦ elim (Bool-cases (ltb x y)) [ inl l ↦ rw (ne, l) refl | inr l ↦ rw (ne, l) refl ]
    ]

take-tabulate : (f : ℕ → ℕ) (from n k : ℕ) → k ≤ n → take k (tabulate f from n) ≡ tabulate f from k
take-tabulate f from n zero h = refl
take-tabulate f from zero (suc k) h = absurd (omega arith)
take-tabulate f from (suc n) (suc k) h =
    ap (λ l. f from ∷ l) (take-tabulate f (suc from) n k (omega arith))

module _ {D : Type 0} (g : Geometry) (drv : Driver D) (d : D) (disk : ℕ → ℕ → ℕ) (v : IsGeometry g)
    (reads : Reads drv d disk) where
  compared-Ended :
      (block offset : ℕ) (name : List ℕ) (r : Cache × Outcome Cmp)
      → IsCompared g drv d disk none block offset name r
      → Ended g drv d disk
          (λ c. memcmp (tabulate (disk block) offset (length name)) name ≡ c)
          (λ e. ⊥)
          r
  compared-Ended block offset name (rc, ok c) h =
      (memcmp_of_IsCmp (tabulate (disk block) offset (length name)) name c h.0, h.1)
  compared-Ended block offset name (rc, err e) h = inr (block, h)
  compared-Ended block offset name (rc, abort) h = h
  compared-Ended block offset name (rc, out_of_fuel) h = h
  compared-Ended block offset name (rc, fault) h = h

  -- On a device whose sizes fit together, with one erase unit to a block, and for a tag whose name lies
  -- in a block below the count: `lfs_dir_find_match` ends, with the tag's name on the device against
  -- the name that is looked for, in the order of the directory; or with an error of the device.
  pub dir_find_match-Ends :
      (name : List ℕ) (tag block offset : ℕ)
      → block < g.block_count
      → offset + tag_size tag ≤ g.block_size
      → Ends g drv d disk
          (λ c. c ≡ compare_names (tabulate (disk block) offset (tag_size tag)) name)
          (λ e. ⊥)
          (dir_find_match g drv d name tag block offset)
  unfolding dir_find_match
  dir_find_match-Ends name tag block offset inside fits =
      let size = tag_size tag in
      let entry : List ℕ = tabulate (disk block) offset size in
      let diff = lfs_min (length name) size in
      let least : (diff ≤ length name) × (diff ≤ size) × (size < 2 ^ 10) =
        unfold lfs_min in ground (arith, tag_size_sum tag) in
      let part : length (take diff name) ≡ diff = omega (arith, length-take diff name, least) in
      let long : length entry ≡ size = length-tabulate (disk block) offset size in
      bind-Ends g drv d disk (λ c. memcmp (tabulate (disk block) offset diff) (take diff name) ≡ c)
        _ (λ e. ⊥) (λ rc. bd_cmp g drv d none diff block rc offset (take diff name)) _
        (λ rc ready. rw part at (
          compared-Ended block offset (take diff name) _ (
            bd_cmp-IsCompared g drv d disk v reads none block tt inside diff (omega (arith, least))
              rc offset (take diff name) ready (omega (arith, least, part)) (omega (arith, part)))))
        (λ c h rc ready. (
          sym (
              sym (compared-eq-compare_names entry name diff (rw long refl))
              ∙ rw (long, take-tabulate (disk block) offset size diff (least.1), h) refl),
          ready,
        ))
