-- ===== src/Metadata/Fetch/Done.antt =====
-- `lfs_dir_fetchmatch` ends, with a directory in the pair that it was called for.
use littlefs_v.Base.{
  ℕ, suc, ◌+◌, ◌-◌, ◌/◌, ◌%◌, ◌^◌, ◌≤◌, ◌<◌, Bool, true, false, ◌||◌, leb, ltb, if◌then◌else◌,
  bit_and, ◌≡◌, refl, ap, ◌∙◌, ◌⊎◌, inl, inr, arith, Bool-cases,
}
use littlefs_v.Errors.{Error, Outcome, ok, err, abort, out_of_fuel, fault}
use littlefs_v.Utility.Pair.{Pair, pair_swap}
use littlefs_v.Utility.Tag.{tag_isvalid, tag_dsize, tag_id}
use littlefs_v.Utility.Tag.Fields.{top_bit}
use littlefs_v.Base.Bits.{bit_and_comm, bit_and_low}
use littlefs_v.Gstate.{Gstate}
use littlefs_v.Device.{Geometry, Driver}
use littlefs_v.Device.View.{Reads, Fails, IsGeometry}
use littlefs_v.Device.Write.{Cmp}
use littlefs_v.Device.Cached.{Cached}
use littlefs_v.Device.Cached.Ends.{Ends, bind-Ends, Ended-mono, attempt-corrupt-Ends, read-Ends}
use littlefs_v.Metadata.{MetadataDir}
use littlefs_v.Metadata.Fetch.{Fetching, Fetched, no_tag}
use littlefs_v.Metadata.Fetch.Ends.{Gives, scan_loop-Gives}
use littlefs_v.Metadata.Fetch.Match.{
  first_pass, conclude, move_best, choose, other_block, read_revision, fetch_pass, fetch_other,
  fetch_pair, dir_fetchmatch, dir_fetch, second_is_later, or_zero,
}

-- One of the two ways to write a pair.
abbrev pub IsOf : Pair → Pair → Type 0
IsOf pair q = (q ≡ pair) ⊎ (q ≡ pair_swap pair)

-- Commits of one block of the pair, found within it: the pair of the directory is the one asked for,
-- with the block that was read in front, and its end is behind the start and in the block.
abbrev pub IsFound : Geometry → Pair → MetadataDir → Type 0
IsFound g pair dir = IsOf pair dir.pair × (0 < dir.offset) × (dir.offset ≤ g.block_size)

-- What is returned: a tag that is valid or 0, or LFS_ERR_NOENT, with a directory that was found; or
-- LFS_ERR_CORRUPT.
abbrev pub IsResult : Geometry → Pair → MetadataDir → Outcome ℕ → Type 0
IsResult g pair dir (ok tag) = IsFound g pair dir × (tag_isvalid tag ≡ true)
IsResult g pair dir (err e) = ((e ≡ Error.noent) × IsFound g pair dir) ⊎ (e ≡ Error.corrupt)
IsResult g pair dir abort = ⊥
IsResult g pair dir out_of_fuel = ⊥
IsResult g pair dir fault = ⊥

abbrev pub IsFetched : Geometry → Pair → Fetched → Type 0
IsFetched g pair r = IsResult g pair r.dir r.result

conclude-IsFetched :
    (g : Geometry) (pair : Pair) (gdisk : Gstate) (f : Fetching)
    → IsFound g pair f.dir
    → IsFetched g pair (conclude gdisk f)
unfolding conclude
conclude-IsFetched g pair gdisk f h =
    let best = move_best gdisk f.dir f.besttag in
    elim (Bool-cases (tag_isvalid best)) [
      | inl good ↦ rw good (h, good)
      | inr bad ↦ elim (Bool-cases (ltb (tag_id best) f.dir.count)) [
        | inl e ↦ rw (bad, e) (inl (refl, h))
        | inr e ↦ rw (bad, e) (h, unfold tag_isvalid in refl)
      ]
    ]

module _ {D : Type 0} (g : Geometry) (drv : Driver D) (d : D) (disk : ℕ → ℕ → ℕ) (v : IsGeometry g)
    (reads : Reads drv d disk) (clean : (block : ℕ) → ¬ Fails drv d block Error.corrupt)
    (fmask ftag : ℕ) (cb : ℕ → ℕ → ℕ → Cached Cmp)
    (calls : (tag block offset : ℕ)
      → bit_and fmask tag ≡ bit_and fmask ftag
      → tag_isvalid tag ≡ true
      → block < g.block_count
      → offset + (tag_dsize tag - 4) ≤ g.block_size
      → Ends g drv d disk (λ c. Unit) (λ e. e ≡ Error.corrupt) (cb tag block offset))
    (small : 4 ≤ g.block_size) (pair : Pair) (one : pair.first < g.block_count)
    (two : pair.second < g.block_count) where
  abbrev IsAt : Fetching → Type 0
  IsAt f = IsOf pair f.dir.pair × (f.dir.offset ≤ g.block_size)

  abbrev GivesHere : {A : Type 0} → (A → Type 0) → Cached A → Type 0
  GivesHere P m = Gives g drv d disk v reads clean P m

  fetch_pass-Gives : (f : Fetching) → IsAt f → GivesHere IsAt (fetch_pass g drv d fmask ftag cb f)
  unfolding fetch_pass first_pass
  fetch_pass-Gives f h rc ready =
      Ended-mono g drv d disk _ IsAt (λ e. ⊥) (λ e. ⊥) _
        (scan_loop-Gives g drv d disk v reads clean fmask ftag cb calls (suc g.block_size)
          f.dir.pair f _ (inside f h) (omega arith) (omega arith) (refl, h.1) rc ready)
        (λ f' k. (rw (k.0) h.0, k.1)) (λ e x. x)
    where
      inside : (f : Fetching) → IsAt f → f.dir.pair.first < g.block_count
      inside f (inl e, h) = rw (ap (λ q. q.first) e) one
      inside f (inr e, h) = rw (ap (λ q. q.first) e) (unfold pair_swap in two)

  other_block-IsAt :
      (rev : ℕ) (dir : MetadataDir)
      → IsOf pair dir.pair × (dir.offset ≤ g.block_size)
      → IsOf pair (other_block rev dir).pair × ((other_block rev dir).offset ≤ g.block_size)
  unfolding other_block pair_swap
  other_block-IsAt rev dir (inl e, h) = (inr (ap pair_swap e), h)
  other_block-IsAt rev dir (inr e, h) = (inl (ap pair_swap e), h)

  choose-IsAt :
      (dir : MetadataDir) (second : Bool) (rev0 rev1 : ℕ)
      → IsOf pair (choose dir pair second rev0 rev1).pair
        × ((choose dir pair second rev0 rev1).offset ≤ g.block_size)
  unfolding choose
  choose-IsAt dir true rev0 rev1 = (inr refl, omega arith)
  choose-IsAt dir false rev0 rev1 = (inl refl, omega arith)

  fetch_other-Gives :
      (gdisk : Gstate) (rev : ℕ) (f : Fetching)
      → IsAt f
      → GivesHere (IsFetched g pair) (fetch_other g drv d fmask ftag cb gdisk rev f)
  unfolding fetch_other
  fetch_other-Gives gdisk rev f h =
      bind-Ends g drv d disk IsAt (IsFetched g pair) (λ e. ⊥) _ _
        (fetch_pass-Gives (record f { dir = other_block rev f.dir }) (other_block-IsAt rev f.dir h))
        (λ f' k rc ready. elim (Bool-cases (ltb 0 f'.dir.offset)) [
          | inl e ↦ rw e (conclude-IsFetched g pair gdisk f' (k.0, ground arith, k.1), ready)
          | inr e ↦ rw e (inr refl, ready)
        ])

  fetch_pair-Gives :
      (gdisk : Gstate) (rev : ℕ) (f : Fetching)
      → IsAt f
      → GivesHere (IsFetched g pair) (fetch_pair g drv d fmask ftag cb gdisk rev f)
  unfolding fetch_pair
  fetch_pair-Gives gdisk rev f h =
      bind-Ends g drv d disk IsAt (IsFetched g pair) (λ e. ⊥) _ _ (fetch_pass-Gives f h)
        (λ f' k. elim (Bool-cases (ltb 0 f'.dir.offset)) [
          | inl e ↦
              rw e
                (λ rc ready. (conclude-IsFetched g pair gdisk f' (k.0, ground arith, k.1), ready))
          | inr e ↦ rw e (fetch_other-Gives gdisk rev f' k)
        ])

  read_revision-Gives :
      (block : ℕ) → block < g.block_count → GivesHere (λ r. Unit) (read_revision g drv d block)
  unfolding read_revision
  read_revision-Gives block inside rc ready =
      Ended-mono g drv d disk _ (λ r. Unit) (λ e. ⊥) (λ e. ⊥) _
        (attempt-corrupt-Ends g drv d disk clean (λ n. Unit) _
          (bind-Ends g drv d disk (λ b. Unit) (λ n. Unit) (λ e. e ≡ Error.corrupt) _ _
            (λ rc ready.
              Ended-mono g drv d disk _ (λ b. Unit) (λ e. ⊥) (λ e. e ≡ Error.corrupt) _
                (read-Ends g drv d disk v reads 4 block 0 4 inside (omega arith) (omega arith)
                  (omega (arith, small)) rc ready)
                (λ b h. tt) (λ e x. absurd x))
            (λ b t rc ready. (tt, ready)))
          rc ready)
        (λ r h. tt) (λ e x. x)

  pub fetch_from-Gives :
      (gdisk : Gstate) (seed : ℕ) (dir : MetadataDir)
      → GivesHere (IsFetched g pair) (dir_fetchmatch g drv d fmask ftag cb gdisk seed dir pair)
  unfolding dir_fetchmatch
  fetch_from-Gives gdisk seed dir =
      let both : (leb g.block_count pair.first || leb g.block_count pair.second) ≡ false =
        ground arith in
      rw both (
        bind-Ends g drv d disk (λ r. Unit) (IsFetched g pair) (λ e. ⊥) _ _
          (read_revision-Gives pair.first one)
          (λ rev0 t.
            bind-Ends g drv d disk (λ r. Unit) (IsFetched g pair) (λ e. ⊥) _ _
              (read_revision-Gives pair.second two)
              (λ rev1 t'.
                let second : Bool = second_is_later (or_zero rev0) rev1 in
                fetch_pair-Gives gdisk (if second then or_zero rev0 else or_zero rev1) _
                  (choose-IsAt dir second (or_zero rev0) (or_zero rev1)))))

-- On a device whose sizes fit together, with one erase unit to a block of four bytes at least, that does
-- not give LFS_ERR_CORRUPT itself, and with a callback that ends, on an entry that fits the mask and
-- lies in a block below the count, with a comparison, with LFS_ERR_CORRUPT or with an error of the
-- device: `lfs_dir_fetchmatch` ends on any pair. Either the device has failed; or what is returned is
-- a valid tag, 0 or LFS_ERR_NOENT with a directory of one of the pair's two blocks, whose end is
-- behind the start and in the block; or it is LFS_ERR_CORRUPT.
pub dir_fetchmatch-IsFetched :
    {D : Type 0} (g : Geometry) (drv : Driver D) (d : D) (disk : ℕ → ℕ → ℕ) (v : IsGeometry g)
    (reads : Reads drv d disk) (clean : (block : ℕ) → ¬ Fails drv d block Error.corrupt)
    (fmask ftag : ℕ) (cb : ℕ → ℕ → ℕ → Cached Cmp)
    → ((tag block offset : ℕ)
        → bit_and fmask tag ≡ bit_and fmask ftag
        → tag_isvalid tag ≡ true
        → block < g.block_count
        → offset + (tag_dsize tag - 4) ≤ g.block_size
        → Ends g drv d disk (λ c. Unit) (λ e. e ≡ Error.corrupt) (cb tag block offset))
    → 4 ≤ g.block_size
    → (gdisk : Gstate) (seed : ℕ) (dir : MetadataDir) (pair : Pair)
    → Ends g drv d disk
        (IsFetched g pair)
        (λ e. ⊥)
        (dir_fetchmatch g drv d fmask ftag cb gdisk seed dir pair)
unfolding dir_fetchmatch
dir_fetchmatch-IsFetched g drv d disk v reads clean fmask ftag cb calls small gdisk seed dir pair =
    elim (Bool-cases (leb g.block_count pair.first || leb g.block_count pair.second)) [
      | inl out ↦ rw out (λ rc ready. (inr refl, ready))
      | inr in_range ↦
          fetch_from-Gives g drv d disk v reads clean fmask ftag cb calls small pair (ground arith)
            (ground arith) gdisk seed dir
    ]

zero_top : (tag : ℕ) → tag_isvalid tag ≡ true → tag / 2 ^ 31 % 2 ≡ 0
unfolding tag_isvalid
zero_top tag valid = ground (arith, top_bit tag)

-- All ones fit no valid tag.
never : (tag : ℕ) → bit_and no_tag tag ≡ bit_and no_tag no_tag → tag / 2 ^ 31 % 2 ≡ 0 → ⊥
never tag fits valid =
    let all : bit_and no_tag tag ≡ tag % 2 ^ 32 = bit_and_comm no_tag tag ∙ bit_and_low 32 tag in
    let ones : bit_and no_tag no_tag ≡ no_tag = bit_and_low 32 no_tag ∙ omega arith in
    omega (arith, all, ones)

-- On such a device `lfs_dir_fetch` ends in the same way: its null callback is never called.
pub dir_fetch-IsFetched :
    {D : Type 0} (g : Geometry) (drv : Driver D) (d : D) (disk : ℕ → ℕ → ℕ) (v : IsGeometry g)
    (reads : Reads drv d disk) (clean : (block : ℕ) → ¬ Fails drv d block Error.corrupt)
    → 4 ≤ g.block_size
    → (gdisk : Gstate) (seed : ℕ) (dir : MetadataDir) (pair : Pair)
    → Ends g drv d disk (IsFetched g pair) (λ e. ⊥) (dir_fetch g drv d gdisk seed dir pair)
unfolding dir_fetch
dir_fetch-IsFetched g drv d disk v reads clean small gdisk seed dir pair =
    dir_fetchmatch-IsFetched g drv d disk v reads clean no_tag no_tag _
      (λ tag block offset fits valid inside room. absurd (never tag fits (zero_top tag valid)))
      small gdisk seed dir pair
