-- ===== src/Tests/Toplevel.antt =====
-- Calls of src/littlefs_v2/lfs_toplevel.cpp on a state that counts what has been done under a lock.
use littlefs_v.Base.{ℕ, ◌+◌, ◌≤◌, [], ◌∷◌, Bool, true, false, none, ◌≡◌, refl, arith}
use littlefs_v.Errors.{ok}
use littlefs_v.Toplevel.{Op, Locks, Raw}
use littlefs_v.Toplevel.Calls.{
  Call, raw_of, format, mount, unmount, remove, rename, stat, get_attribute, set_attribute,
  remove_attribute, file_open, file_opencfg, file_close, file_sync, file_read, file_write,
  file_seek, file_truncate, file_tell, file_rewind, file_size, mkdir, dir_open, dir_close, dir_read,
  dir_seek, dir_tell, dir_rewind, fs_stat, fs_size, fs_traverse, fs_grow,
}
use littlefs_v.Toplevel.Locked.{IsSafe, IsFree, run_all, run_all-IsFree}

pub record Desk : Type 0 where
  pub held : Bool
  pub done : ℕ

abbrev locks : Locks Desk
locks = record {
  lock = λ s. (record s { held = true }, none);
  unlock = λ s. record s { held = false };
  metadata_list = λ s. 5 ∷ [];
}

-- Work that counts where the lock is held, and breaks it where it is not.
abbrev work : Op Desk
work s = (record s { done = s.done + 1 }, ok 0)

abbrev works : Raw Desk
works = record {
  raw_format = λ a. work;
  raw_mount = λ a. work;
  raw_unmount = work;
  raw_remove = λ a. work;
  raw_rename = λ a b. work;
  raw_stat = λ a b. work;
  raw_get_attribute = λ a b c d. work;
  raw_set_attribute = λ a b c d. work;
  raw_remove_attribute = λ a b. work;
  file_rawopen = λ a b c. work;
  file_rawopencfg = λ a b c d. work;
  file_rawclose = λ a. work;
  file_rawsync = λ a. work;
  file_rawread = λ a b c. work;
  file_rawwrite = λ a b c. work;
  file_rawseek = λ a b c. work;
  file_rawtruncate = λ a b. work;
  file_rawtell = λ a. work;
  file_rawrewind = λ a. work;
  file_rawsize = λ a. work;
  dir_rawcreate = λ a. work;
  dir_rawopen = λ a b. work;
  dir_rawclose = λ a. work;
  dir_rawread = λ a b. work;
  dir_rawseek = λ a b. work;
  dir_rawtell = λ a. work;
  dir_rawrewind = λ a. work;
  fs_rawstat = λ a. work;
  fs_rawsize = work;
  fs_rawtraverse = λ a b c. work;
  fs_rawgrow = λ a. work;
}

-- Every call does that work.
does_work : (c : Call) → raw_of locks works c ≡ work
unfolding raw_of
does_work (format a) = refl
does_work (mount a) = refl
does_work unmount = refl
does_work (remove a) = refl
does_work (rename a b) = refl
does_work (stat a b) = refl
does_work (get_attribute a b c d) = refl
does_work (set_attribute a b c d) = refl
does_work (remove_attribute a b) = refl
does_work (file_open a b c) = refl
does_work (file_opencfg a b c d) = refl
does_work (file_close a) = refl
does_work (file_sync a) = refl
does_work (file_read a b c) = refl
does_work (file_write a b c) = refl
does_work (file_seek a b c) = refl
does_work (file_truncate a b) = refl
does_work (file_tell a) = refl
does_work (file_rewind a) = refl
does_work (file_size a) = refl
does_work (mkdir a) = refl
does_work (dir_open a b) = refl
does_work (dir_close a) = refl
does_work (dir_read a b) = refl
does_work (dir_seek a b) = refl
does_work (dir_tell a) = refl
does_work (dir_rewind a) = refl
does_work (fs_stat a) = refl
does_work fs_size = refl
does_work (fs_traverse a b) = refl
does_work (fs_grow a) = refl

desk-IsSafe : IsSafe locks works (λ s. s.held) (λ s. 3 ≤ s.done)
desk-IsSafe = record {
  takes = λ s free j e. (refl, j);
  refuses = λ s e free j h. absurd (cc h);
  frees = λ s h j. (refl, j);
  works = λ c s h j. rw (does_work c) (h, omega arith);
}

run_all-IsFree_example :
    IsFree
      (λ s. s.held)
      (λ s. 3 ≤ s.done)
      (run_all locks works
        (remove 1 ∷ file_read 5 2 8 ∷ fs_size ∷ [])
        (record { held = false; done = 3 }))
run_all-IsFree_example =
    run_all-IsFree locks works (λ s. s.held) (λ s. 3 ≤ s.done) desk-IsSafe
      (remove 1 ∷ file_read 5 2 8 ∷ fs_size ∷ []) (record { held = false; done = 3 }) refl
      (omega arith)
