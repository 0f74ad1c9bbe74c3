-- ===== src/Gstate/Moves.antt =====
-- What `lfs_fs_preporphans` and `lfs_fs_prepmove` leave in the tag of the global state.
use littlefs_v.Base.{
  ℕ, ◌+◌, ◌-◌, ◌*◌, ◌/◌, ◌%◌, ◌^◌, ◌≤◌, ◌<◌, bit_and, bit_or, true, ◌≡◌, ◌⊎◌, arith, ap, ◌∙◌, refl,
  ◌==◌, if◌then◌else◌, ◌<<◌, leb, some, none, ap₂, inl, inr,
}
use littlefs_v.Base.Bits.{bit_and_low, bit_or_parts, bit_and_parts, bit_or-zero, zero-bit_or}
use littlefs_v.Utility.Pair.{Pair}
use littlefs_v.Utility.Tag.{mktag, tag_size, tag_id}
use littlefs_v.Utility.Tag.Fields.{mktag_sum, tag_size_sum, tag_id_sum, tag_type1_sum}
use littlefs_v.Gstate.{
  Gstate, Change, more, less, add_change, is_more, gstate_hasorphans, gstate_hasmove,
  fs_preporphans, fs_prepmove, complement32, type_movestate, type_delete,
}

-- The top bit says whether there are orphans.
pub record IsMarked (g : Gstate) : Type 0 where
  pub fits : g.tag < 2 ^ 32
  pub mark : g.tag / 2 ^ 31 ≡ (if g.tag % 1024 == 0 then 0 else 1)

-- Clearing the top bit and setting it anew.
set_top : (t b : ℕ) → bit_or (bit_and t (2 ^ 31 - 1)) (b << 31) ≡ b * 2 ^ 31 + t % 2 ^ 31
set_top t b =
    let clear : bit_and t (2 ^ 31 - 1) ≡ 0 * 2 ^ 31 + t % 2 ^ 31 =
      omega (arith, bit_and_low 31 t) in
    let top : b << 31 ≡ b * 2 ^ 31 + 0 = omega arith in
    ap₂ bit_or clear top
    ∙ bit_or_parts 31 0 (t % 2 ^ 31) b 0 (omega arith) (omega arith)
    ∙ omega (arith, zero-bit_or b, bit_or-zero (t % 2 ^ 31))

-- The tag after `lfs_fs_preporphans`, from the sum before the top bit is set.
marked : ℕ → ℕ
marked t = (if t % 1024 == 0 then 0 else 1) * 2 ^ 31 + t % 2 ^ 31

fs_preporphans_tag :
    (g : Gstate) (c : Change)
    → (0 < g.tag % 1024) ⊎ (is_more c ≡ true)
    → fs_preporphans g c ≡ some (record g { tag = marked (add_change g.tag c) })
unfolding fs_preporphans mktag gstate_hasorphans marked
fs_preporphans_tag g c h = ground (
  arith,
  tag_size_sum g.tag,
  tag_size_sum (add_change g.tag c),
  set_top (add_change g.tag c) 0,
  set_top (add_change g.tag c) 1,
)

marked_parts :
    (t : ℕ)
    → (marked t < 2 ^ 32)
      × (marked t % 1024 ≡ t % 1024)
      × (marked t / 1024 % 2 ^ 21 ≡ t / 1024 % 2 ^ 21)
      × (marked t / 2 ^ 31 ≡ (if t % 1024 == 0 then 0 else 1))
unfolding marked
marked_parts t = ground arith

-- What a call leaves: the state is marked, it counts `n` orphans, and the pair and the type and id
-- of a move are those of `g`.
pub record Counts (g : Gstate) (n : ℕ) (g' : Gstate) : Type 0 where
  pub is_marked : IsMarked g'
  pub count : tag_size g'.tag ≡ n
  pub move : g'.tag / 1024 % 2 ^ 21 ≡ g.tag / 1024 % 2 ^ 21
  pub pair : g'.pair ≡ g.pair

marked-Counts :
    (g : Gstate) (t n : ℕ)
    → t % 1024 ≡ n
    → t / 1024 % 2 ^ 21 ≡ g.tag / 1024 % 2 ^ 21
    → Counts g n (record g { tag = marked t })
marked-Counts g t n e m = record {
  is_marked = record { fits = (marked_parts t).0; mark = ground (arith, marked_parts t) };
  count = omega (arith, tag_size_sum (marked t), marked_parts t);
  move = omega (arith, marked_parts t);
  pair = refl;
}

-- From a marked state, `lfs_fs_preporphans` adds `k` orphans where the ten bits have room for them.
-- The state stays marked, and its pair and the type and id of a move stay the same.
pub fs_preporphans-more :
    (g : Gstate) (k : ℕ)
    → IsMarked g
    → tag_size g.tag + k < 1024
    → (g' : Gstate) × (fs_preporphans g (more k) ≡ some g') × Counts g (tag_size g.tag + k) g'
unfolding add_change
fs_preporphans-more g k m h =
    let t = add_change g.tag (more k) in
    (
      record g { tag = marked t },
      fs_preporphans_tag g (more k) (inr refl),
      marked-Counts g t (tag_size g.tag + k) (omega (arith, tag_size_sum g.tag, m.fits))
          (omega (arith, tag_size_sum g.tag, m.fits)),
    )

-- From a marked state with at least one orphan, `lfs_fs_preporphans` takes off `k` orphans of at
-- least as many. The state stays marked, and its pair and the type and id of a move stay the same.
pub fs_preporphans-less :
    (g : Gstate) (k : ℕ)
    → IsMarked g
    → 0 < tag_size g.tag
    → k ≤ tag_size g.tag
    → (g' : Gstate) × (fs_preporphans g (less k) ≡ some g') × Counts g (tag_size g.tag - k) g'
unfolding add_change
fs_preporphans-less g k m p h =
    let t = add_change g.tag (less k) in
    (
      record g { tag = marked t },
      fs_preporphans_tag g (less k) (inl (omega (arith, tag_size_sum g.tag))),
      marked-Counts g t (tag_size g.tag - k) (omega (arith, tag_size_sum g.tag, m.fits))
          (omega (arith, tag_size_sum g.tag, m.fits)),
    )

-- The parts that `Counts` and `IsMarked` name make up the whole state.
Counts-self :
    (g g' g'' : Gstate) (n : ℕ)
    → IsMarked g
    → Counts g n g'
    → Counts g' (tag_size g.tag) g''
    → g'' ≡ g
Counts-self g g' g'' n m c c' = ground (
  arith,
  m.fits,
  m.mark,
  c'.is_marked.fits,
  c'.is_marked.mark,
  c'.count,
  c.move,
  c'.move,
  c.pair,
  c'.pair,
  tag_size_sum g.tag,
  tag_size_sum g''.tag,
)

-- From a marked state with room for `k` more orphans, where `k` is positive, adding `k` and then
-- taking off `k` gives the state back, and neither call fails its assertion.
pub fs_preporphans_undo :
    (g : Gstate) (k : ℕ)
    → IsMarked g
    → 0 < k
    → tag_size g.tag + k < 1024
    → (g' : Gstate) × (fs_preporphans g (more k) ≡ some g') × (fs_preporphans g' (less k) ≡ some g)
fs_preporphans_undo g k m p h =
    let (g', added, c) = fs_preporphans-more g k m h in
    let (g'', taken, c') =
      fs_preporphans-less g' k c.is_marked (omega (arith, c.count)) (omega (arith, c.count)) in
    let back : tag_size g'.tag - k ≡ tag_size g.tag = omega (arith, c.count) in
    (g', added, taken ∙ ap some (Counts-self g g' g'' (tag_size g.tag + k) m c (rw back at c')))

-- With no orphans counted, taking any off fails the assertion.
pub fs_preporphans-none :
    (g : Gstate) (k : ℕ) → tag_size g.tag ≡ 0 → 0 < k → fs_preporphans g (less k) ≡ none
unfolding fs_preporphans
fs_preporphans-none g k h p = ground arith

-- The mask of `lfs_fs_prepmove` keeps the top bit and the ten low bits.
keep_ends : (t : ℕ) → bit_and t 0x800003ff ≡ t / 2 ^ 31 % 2 * 2 ^ 31 + t % 1024
keep_ends t =
    let parts : t ≡ t / 2 ^ 31 * 2 ^ 31 + t % 2 ^ 31 = omega arith in
    ap (λ x. bit_and x 0x800003ff) parts
    ∙ bit_and_parts 31 (t / 2 ^ 31) (t % 2 ^ 31) 1 1023 (omega arith) (omega arith)
    ∙ omega (arith, bit_and_low 1 (t / 2 ^ 31), bit_and_low 10 (t % 2 ^ 31))

or_move :
    (a c id : ℕ)
    → c < 1024
    → id < 1024
    → bit_or (a * 2 ^ 31 + c) (0x4ff * 2 ^ 20 + id * 2 ^ 10)
      ≡ a * 2 ^ 31 + 0x4ff * 2 ^ 20 + id * 2 ^ 10 + c
or_move a c id hc hi =
    let m = 0x4ff * 2 ^ 20 + id * 2 ^ 10 in
    let high : m ≡ 0 * 2 ^ 31 + m = omega arith in
    let low : c ≡ 0 * 2 ^ 10 + c = omega arith in
    let middle : m ≡ (0x4ff * 1024 + id) * 2 ^ 10 + 0 = omega arith in
    let inner : bit_or c m ≡ m + c =
      ap₂ bit_or low middle
      ∙ bit_or_parts 10 0 c (0x4ff * 1024 + id) 0 (omega arith) (omega arith)
      ∙ omega (arith, zero-bit_or (0x4ff * 1024 + id), bit_or-zero c) in
    ap (bit_or (a * 2 ^ 31 + c)) high
    ∙ bit_or_parts 31 a c 0 m (omega arith) (omega arith)
    ∙ omega (arith, inner, bit_or-zero a)

fs_prepmove_tag :
    (g : Gstate) (id : ℕ) (pair : Pair)
    → g.tag < 2 ^ 32
    → id ≤ 0x3ff
    → (fs_prepmove g id pair).tag
      ≡ g.tag / 2 ^ 31 * 2 ^ 31
        + (if id == 0x3ff then 0 else 0x4ff * 2 ^ 20 + id * 2 ^ 10)
        + g.tag % 1024
unfolding fs_prepmove
fs_prepmove_tag g id pair h hi =
    let mask : complement32 (mktag type_movestate 0x3ff 0) ≡ 0x800003ff =
      omega (arith, mktag_sum type_movestate 0x3ff 0 (omega arith) (omega arith) (omega arith)) in
    let kept : bit_and g.tag (complement32 (mktag type_movestate 0x3ff 0))
        ≡ g.tag / 2 ^ 31 * 2 ^ 31 + g.tag % 1024 =
      ap (bit_and g.tag) mask ∙ omega (arith, keep_ends g.tag) in
    let move : mktag type_delete id 0 ≡ 0x4ff * 2 ^ 20 + id * 2 ^ 10 =
      omega (arith, mktag_sum type_delete id 0 (omega arith) (omega arith) (omega arith)) in
    rw (kept, move)
      (ground (
        arith,
        bit_or-zero (g.tag / 2 ^ 31 * 2 ^ 31 + g.tag % 1024),
        or_move (g.tag / 2 ^ 31) (g.tag % 1024) id (omega arith) (omega arith),
      ))

-- On a 32-bit tag, `lfs_fs_prepmove` with an id below 0x3ff records the move of that id and pair,
-- which `lfs_gstate_hasmove` then sees; with 0x3ff it zeroes the id and the pair, and
-- `lfs_gstate_hasmove` then gives the top bit. Either way the count of orphans and the top bit stay.
pub fs_prepmove_lem :
    (g : Gstate) (id : ℕ) (pair : Pair)
    → g.tag < 2 ^ 32
    → id ≤ 0x3ff
    → let g' = fs_prepmove g id pair in
      (tag_size g'.tag ≡ tag_size g.tag)
      × (g'.tag / 2 ^ 31 ≡ g.tag / 2 ^ 31)
      × (gstate_hasmove g' ≡ (if id == 0x3ff then leb (2 ^ 31) g.tag else true))
      × (tag_id g'.tag ≡ (if id == 0x3ff then 0 else id))
      × (g'.pair ≡ (if id == 0x3ff then record { first = 0; second = 0 } else pair))
fs_prepmove_lem g id pair h hi =
    let tag = (fs_prepmove g id pair).tag in
    let e = fs_prepmove_tag g id pair h hi in
    (
      ground (arith, e, tag_size_sum g.tag, tag_size_sum tag),
      ground (arith, e),
      unfold gstate_hasmove in ground (arith, e, tag_type1_sum tag),
      ground (arith, e, tag_id_sum tag),
      unfold fs_prepmove in ground arith,
    )

-- A marked state that counts orphans passes for one with a pending move, whatever its type, id and
-- pair: `lfs_tag_type1` reads the top bit too.
pub gstate_hasmove_of_orphans :
    (g : Gstate) → IsMarked g → gstate_hasorphans g ≡ true → gstate_hasmove g ≡ true
unfolding gstate_hasmove gstate_hasorphans
gstate_hasmove_of_orphans g m h =
    ground (arith, m.fits, m.mark, tag_type1_sum g.tag, tag_size_sum g.tag)
