-- ===== src/Toplevel.antt =====
-- src/littlefs_v2/lfs_toplevel.cpp: the public calls. Each takes the lock of the configuration, does
-- its work, and gives the lock back. Pointers are addresses; what stands there is part of the state.
pub mod Calls
pub mod Locked
use littlefs_v.Base.{ℕ, List, Bool, true, false, if◌then◌else◌, Option, none, some}
use littlefs_v.Errors.{Error, Outcome, ok, err, abort, out_of_fuel, fault}

-- A call on the whole state, with an `int` or an `lfs_ssize_t` that is not negative, or an error.
abbrev pub Op : Type 0 → Type 0
Op S = S → S × Outcome ℕ

-- `lock` and `unlock` of `lfs_config_t`, with LFS_THREADSAFE, and the list of what is open. The result
-- of `unlock` is not looked at.
pub record Locks (S : Type 0) : Type 0 where
  pub lock : S → S × Option Error
  pub unlock : S → S
  pub metadata_list : S → List ℕ

-- The calls without the lock.
pub record Raw (S : Type 0) : Type 0 where
  pub raw_format : ℕ → Op S
  pub raw_mount : ℕ → Op S
  pub raw_unmount : Op S
  pub raw_remove : ℕ → Op S
  pub raw_rename : ℕ → ℕ → Op S
  pub raw_stat : ℕ → ℕ → Op S
  pub raw_get_attribute : ℕ → ℕ → ℕ → ℕ → Op S
  pub raw_set_attribute : ℕ → ℕ → ℕ → ℕ → Op S
  pub raw_remove_attribute : ℕ → ℕ → Op S
  pub file_rawopen : ℕ → ℕ → ℕ → Op S
  pub file_rawopencfg : ℕ → ℕ → ℕ → ℕ → Op S
  pub file_rawclose : ℕ → Op S
  pub file_rawsync : ℕ → Op S
  pub file_rawread : ℕ → ℕ → ℕ → Op S
  pub file_rawwrite : ℕ → ℕ → ℕ → Op S
  pub file_rawseek : ℕ → ℕ → ℕ → Op S
  pub file_rawtruncate : ℕ → ℕ → Op S
  pub file_rawtell : ℕ → Op S
  pub file_rawrewind : ℕ → Op S
  pub file_rawsize : ℕ → Op S
  pub dir_rawcreate : ℕ → Op S
  pub dir_rawopen : ℕ → ℕ → Op S
  pub dir_rawclose : ℕ → Op S
  pub dir_rawread : ℕ → ℕ → Op S
  pub dir_rawseek : ℕ → ℕ → Op S
  pub dir_rawtell : ℕ → Op S
  pub dir_rawrewind : ℕ → Op S
  pub fs_rawstat : ℕ → Op S
  pub fs_rawsize : Op S
  pub fs_rawtraverse : ℕ → ℕ → Bool → Op S
  pub fs_rawgrow : ℕ → Op S

module _ {S : Type 0} (l : Locks S) where
  -- LFS_UNLOCK, where no assertion has stopped the program.
  unfoldable pub leave : S × Outcome ℕ → S × Outcome ℕ
  leave (s, ok n) = (l.unlock s, ok n)
  leave (s, err e) = (l.unlock s, err e)
  leave (s, abort) = (s, abort)
  leave (s, out_of_fuel) = (s, out_of_fuel)
  leave (s, fault) = (s, fault)

  -- LFS_LOCK, the assertion behind it, and the work.
  unfoldable pub enter : (List ℕ → Bool) → Op S → S × Option Error → S × Outcome ℕ
  unfolding leave
  enter asserted work (s, some e) = (s, err e)
  enter asserted work (s, none) =
      if asserted (l.metadata_list s) then leave (work s) else (s, abort)

  unfoldable pub call : (List ℕ → Bool) → Op S → Op S
  unfolding enter
  call asserted work s = enter asserted work (l.lock s)
