-- ===== src/Toplevel/Locked.antt =====
-- A sequence of public calls gives the lock back each time, and works under it only.
use littlefs_v.Base.{
  ℕ, List, [], ◌∷◌, Bool, true, false, not, Option, none, some, ◌≡◌, refl, ap, inl, inr, Bool-cases,
}
use littlefs_v.Utility.Mlist.{mlist_isopen}
use littlefs_v.Errors.{Error, Outcome, ok, err, abort, out_of_fuel, fault}
use littlefs_v.Toplevel.{Op, Locks, Raw, leave, enter, call}
use littlefs_v.Toplevel.Calls.{
  Call, run, raw_of, lfs_format, lfs_mount, lfs_unmount, lfs_remove, lfs_rename, lfs_stat,
  lfs_get_attribute, lfs_set_attribute, lfs_remove_attribute, lfs_file_open, lfs_file_opencfg,
  lfs_file_close, lfs_file_sync, lfs_file_read, lfs_file_write, lfs_file_seek, lfs_file_truncate,
  lfs_file_tell, lfs_file_rewind, lfs_file_size, lfs_mkdir, lfs_dir_open, lfs_dir_close,
  lfs_dir_read, lfs_dir_seek, lfs_dir_tell, lfs_dir_rewind, lfs_fs_stat, lfs_fs_size,
  lfs_fs_traverse, lfs_fs_grow, format, mount, unmount, remove, rename, stat, get_attribute,
  set_attribute, remove_attribute, file_open, file_opencfg, file_close, file_sync, file_read,
  file_write, file_seek, file_truncate, file_tell, file_rewind, file_size, mkdir, dir_open,
  dir_close, dir_read, dir_seek, dir_tell, dir_rewind, fs_stat, fs_size, fs_traverse, fs_grow,
}

-- What the lock and the work keep: `held` says whether the lock is taken, `J` is any property that the
-- work keeps as long as it is.
pub record IsSafe {S : Type 0} (l : Locks S) (raw : Raw S) (held : S → Bool) (J : S → Type 0)
    : Type 0 where
  pub takes :
      (s : S)
      → held s ≡ false
      → J s
      → (l.lock s).1 ≡ none
      → (held (l.lock s).0 ≡ true) × J (l.lock s).0
  pub refuses :
      (s : S) (e : Error)
      → held s ≡ false
      → J s
      → (l.lock s).1 ≡ some e
      → (held (l.lock s).0 ≡ false) × J (l.lock s).0
  pub frees : (s : S) → held s ≡ true → J s → (held (l.unlock s) ≡ false) × J (l.unlock s)
  pub works :
      (c : Call) (s : S)
      → held s ≡ true
      → J s
      → (held (raw_of l raw c s).0 ≡ true) × J (raw_of l raw c s).0

-- What a sequence of calls leaves: the lock free and the property kept, or the program stopped.
abbrev pub IsFree : {S : Type 0} → (S → Bool) → (S → Type 0) → S × Outcome ℕ → Type 0
IsFree held J (s, ok n) = (held s ≡ false) × J s
IsFree held J (s, err e) = (held s ≡ false) × J s
IsFree held J (s, abort) = Unit
IsFree held J (s, out_of_fuel) = Unit
IsFree held J (s, fault) = Unit

module _ {S : Type 0} (l : Locks S) (raw : Raw S) where
  -- The next call comes whatever the one before has returned, unless the program has stopped.
  unfoldable pub after_call : S × Outcome ℕ → Op S → S × Outcome ℕ
  after_call (s, ok n) next = next s
  after_call (s, err e) next = next s
  after_call (s, abort) next = (s, abort)
  after_call (s, out_of_fuel) next = (s, out_of_fuel)
  after_call (s, fault) next = (s, fault)

  unfoldable pub run_all : List Call → Op S
  unfolding after_call
  run_all [] s = (s, ok 0)
  run_all (c ∷ cs) s = after_call (run l raw c s) (run_all cs)

  -- Every call is of the same form.
  as_call :
      (c : Call) → (asserted : List ℕ → Bool) × (run l raw c ≡ call l asserted (raw_of l raw c))
  unfolding run raw_of lfs_format lfs_mount lfs_unmount lfs_remove lfs_rename lfs_stat
      lfs_get_attribute lfs_set_attribute lfs_remove_attribute lfs_file_open lfs_file_opencfg
      lfs_file_close lfs_file_sync lfs_file_read lfs_file_write lfs_file_seek lfs_file_truncate
      lfs_file_tell lfs_file_rewind lfs_file_size lfs_mkdir lfs_dir_open lfs_dir_close lfs_dir_read
      lfs_dir_seek lfs_dir_tell lfs_dir_rewind lfs_fs_stat lfs_fs_size lfs_fs_traverse lfs_fs_grow
  as_call (format a) = ((λ nodes. true), refl)
  as_call (mount a) = ((λ nodes. true), refl)
  as_call unmount = ((λ nodes. true), refl)
  as_call (remove a) = ((λ nodes. true), refl)
  as_call (rename a b) = ((λ nodes. true), refl)
  as_call (stat a b) = ((λ nodes. true), refl)
  as_call (get_attribute a b c d) = ((λ nodes. true), refl)
  as_call (set_attribute a b c d) = ((λ nodes. true), refl)
  as_call (remove_attribute a b) = ((λ nodes. true), refl)
  as_call (file_open a b c) = ((λ nodes. not (mlist_isopen nodes a)), refl)
  as_call (file_opencfg a b c d) = ((λ nodes. not (mlist_isopen nodes a)), refl)
  as_call (file_close a) = ((λ nodes. mlist_isopen nodes a), refl)
  as_call (file_sync a) = ((λ nodes. mlist_isopen nodes a), refl)
  as_call (file_read a b c) = ((λ nodes. mlist_isopen nodes a), refl)
  as_call (file_write a b c) = ((λ nodes. mlist_isopen nodes a), refl)
  as_call (file_seek a b c) = ((λ nodes. mlist_isopen nodes a), refl)
  as_call (file_truncate a b) = ((λ nodes. mlist_isopen nodes a), refl)
  as_call (file_tell a) = ((λ nodes. mlist_isopen nodes a), refl)
  as_call (file_rewind a) = ((λ nodes. true), refl)
  as_call (file_size a) = ((λ nodes. mlist_isopen nodes a), refl)
  as_call (mkdir a) = ((λ nodes. true), refl)
  as_call (dir_open a b) = ((λ nodes. not (mlist_isopen nodes a)), refl)
  as_call (dir_close a) = ((λ nodes. true), refl)
  as_call (dir_read a b) = ((λ nodes. true), refl)
  as_call (dir_seek a b) = ((λ nodes. true), refl)
  as_call (dir_tell a) = ((λ nodes. true), refl)
  as_call (dir_rewind a) = ((λ nodes. true), refl)
  as_call (fs_stat a) = ((λ nodes. true), refl)
  as_call fs_size = ((λ nodes. true), refl)
  as_call (fs_traverse a b) = ((λ nodes. true), refl)
  as_call (fs_grow a) = ((λ nodes. true), refl)

  module _ (held : S → Bool) (J : S → Type 0) (safe : IsSafe l raw held J) where
    leave-IsFree : (r : S × Outcome ℕ) → held r.0 ≡ true → J r.0 → IsFree held J (leave l r)
    unfolding leave
    leave-IsFree (s, ok n) h j = safe.frees s h j
    leave-IsFree (s, err e) h j = safe.frees s h j
    leave-IsFree (s, abort) h j = tt
    leave-IsFree (s, out_of_fuel) h j = tt
    leave-IsFree (s, fault) h j = tt

    enter-IsFree :
        (asserted : List ℕ → Bool) (c : Call) (s : S) (r : S × Option Error)
        → l.lock s ≡ r
        → held s ≡ false
        → J s
        → IsFree held J (enter l asserted (raw_of l raw c) r)
    unfolding enter
    enter-IsFree asserted c s (s', some e) is free j =
        rw is at (safe.refuses s e free j (ap (λ r. r.1) is))
    enter-IsFree asserted c s (s', none) is free j =
        let taken : (held s' ≡ true) × J s' = rw is at (safe.takes s free j (ap (λ r. r.1) is)) in
        let worked = safe.works c s' taken.0 taken.1 in
        elim (Bool-cases (asserted (l.metadata_list s'))) [
          | inl e ↦ rw e (leave-IsFree (raw_of l raw c s') worked.0 worked.1)
          | inr e ↦ rw e tt
        ]

    run-IsFree : (c : Call) (s : S) → held s ≡ false → J s → IsFree held J (run l raw c s)
    unfolding call
    run-IsFree c s free j =
        let form = as_call c in
        rw (ap (λ f. f s) form.1) (enter-IsFree form.0 c s (l.lock s) refl free j)

    after_call-IsFree :
        (r : S × Outcome ℕ) (next : Op S)
        → IsFree held J r
        → ((s : S) → held s ≡ false → J s → IsFree held J (next s))
        → IsFree held J (after_call r next)
    unfolding after_call
    after_call-IsFree (s, ok n) next h rest = rest s h.0 h.1
    after_call-IsFree (s, err e) next h rest = rest s h.0 h.1
    after_call-IsFree (s, abort) next h rest = tt
    after_call-IsFree (s, out_of_fuel) next h rest = tt
    after_call-IsFree (s, fault) next h rest = tt

    -- Whatever public calls are made one after the other from a state with the lock free, and
    -- whatever they return: each finds the lock free and leaves it free, and a property that the
    -- work of the calls keeps as long as the lock is held is kept throughout. What stops the
    -- program, an assertion that fails above all, ends the sequence.
    pub run_all-IsFree :
        (cs : List Call) (s : S) → held s ≡ false → J s → IsFree held J (run_all cs s)
    unfolding run_all
    run_all-IsFree [] s free j = (free, j)
    run_all-IsFree (c ∷ cs) s free j =
        after_call-IsFree (run l raw c s) (run_all cs) (run-IsFree c s free j)
          (λ s' free' j'. run_all-IsFree cs s' free' j')
