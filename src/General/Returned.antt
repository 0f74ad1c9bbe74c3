-- ===== src/General/Returned.antt =====
-- What `lfs_deinit` gives back, and that twice is no more than once.
use littlefs_v.Base.{
  ℕ, Bool, true, false, not, ◌&&◌, ◌==◌, if◌then◌else◌, ◌≡◌, ◌≢◌, refl, ap, ◌∙◌, arith, Bool-cases,
  inl, inr,
}
use littlefs_v.General.{Config, Memory, deinit, released, cleared, marked}

abbrev pub matches : ℕ → ℕ → ℕ → Bool
matches given a x = (given == 0) && (not (a == 0) && (x == a))

released-eq :
    (given a : ℕ) (live : ℕ → Bool) (x : ℕ)
    → released given a live x ≡ (not (matches given a x) && live x)
unfolding released
released-eq given a live x = elim (Bool-cases (given == 0)) [
  | inl e ↦ elim (Bool-cases (a == 0)) [
    | inl z ↦ rw (released, e, z) refl
    | inr n ↦ elim (Bool-cases (x == a)) [
      | inl s ↦ rw (released, e, n, s) refl
      | inr s ↦ rw (released, e, n, s) refl
    ]
  ]
  | inr e ↦ rw (released, e) refl
]

pub matches_null : (given x : ℕ) → matches given 0 x ≡ false
matches_null given x = elim (Bool-cases (given == 0)) [ inl e ↦ rw e refl | inr e ↦ rw e refl ]

pub swap : (a b c : Bool) → (a && (b && c)) ≡ (b && (a && c))
swap true true c = refl
swap true false c = refl
swap false true c = refl
swap false false c = refl

-- A buffer taken from the heap is given back.
pub taken :
    (given a : ℕ) (live : ℕ → Bool) (x : ℕ)
    → (given ≡ 0 → a ≢ 0 → live a ≡ false)
    → (not (matches given a x)
        && (if given == 0 && not (a == 0) then marked a true live else live) x)
      ≡ live x
taken given a live x fresh = elim (Bool-cases (given == 0)) [
  | inl e ↦ elim (Bool-cases (a == 0)) [
    | inl z ↦ rw (e, z) refl
    | inr n ↦ elim (Bool-cases (x == a)) [
      | inl s ↦
          (let is : x ≡ a = ground arith in
            let off : live x ≡ false = rw is (fresh (ground arith) (ground arith)) in
            rw (e, n, s, off) refl)
      | inr s ↦ rw (e, n, s) refl
    ]
  ]
  | inr e ↦ rw e refl
]

module _ (cfg : Config) where
  pub deinit-live :
      (m : Memory) (x : ℕ)
      → (deinit cfg m).live x ≡ (
          not (matches cfg.lookahead_buffer m.lfs.free_buffer x)
          && (not (matches cfg.write_buffer m.lfs.write_buffer x)
              && (not (matches cfg.read_buffer m.lfs.read_buffer x) && m.live x)))
  unfolding deinit
  deinit-live m x =
      let r = released cfg.read_buffer m.lfs.read_buffer m.live in
      let w = released cfg.write_buffer m.lfs.write_buffer r in
      released-eq cfg.lookahead_buffer m.lfs.free_buffer w x
      ∙ ap (λ b. not (matches cfg.lookahead_buffer m.lfs.free_buffer x) && b)
          (released-eq cfg.write_buffer m.lfs.write_buffer r x
            ∙ ap (λ b. not (matches cfg.write_buffer m.lfs.write_buffer x) && b)
                (released-eq cfg.read_buffer m.lfs.read_buffer m.live x))

  matches-cleared : (given a x : ℕ) → matches given (cleared given a) x ≡ false
  unfolding cleared
  matches-cleared given a x = elim (Bool-cases (given == 0)) [
    | inl e ↦ rw (cleared, e) refl
    | inr e ↦ rw (cleared, e) refl
  ]

  -- A second call gives back nothing more.
  pub deinit_twice :
      (m : Memory) (x : ℕ) → (deinit cfg (deinit cfg m)).live x ≡ (deinit cfg m).live x
  deinit_twice m x =
      let free : matches cfg.lookahead_buffer (deinit cfg m).lfs.free_buffer x ≡ false =
        unfold deinit in matches-cleared cfg.lookahead_buffer m.lfs.free_buffer x in
      let write : matches cfg.write_buffer (deinit cfg m).lfs.write_buffer x ≡ false =
        unfold deinit in matches-cleared cfg.write_buffer m.lfs.write_buffer x in
      let read : matches cfg.read_buffer (deinit cfg m).lfs.read_buffer x ≡ false =
        unfold deinit in matches-cleared cfg.read_buffer m.lfs.read_buffer x in
      rw (deinit-live (deinit cfg m) x, free, write, read) refl
