-- ===== src/Toplevel/Calls.antt =====
-- The public calls of src/littlefs_v2/lfs_toplevel.cpp, one by one.
use littlefs_v.Base.{ℕ, true, not}
use littlefs_v.Utility.Mlist.{mlist_isopen}
use littlefs_v.Toplevel.{Op, Locks, Raw, call}

module _ {S : Type 0} (l : Locks S) (raw : Raw S) where
  unfoldable pub lfs_format : ℕ → Op S
  lfs_format cfg = call l (λ nodes. true) (raw.raw_format cfg)

  unfoldable pub lfs_mount : ℕ → Op S
  lfs_mount cfg = call l (λ nodes. true) (raw.raw_mount cfg)

  unfoldable pub lfs_unmount : Op S
  lfs_unmount = call l (λ nodes. true) raw.raw_unmount

  unfoldable pub lfs_remove : ℕ → Op S
  lfs_remove path = call l (λ nodes. true) (raw.raw_remove path)

  unfoldable pub lfs_rename : ℕ → ℕ → Op S
  lfs_rename oldpath newpath = call l (λ nodes. true) (raw.raw_rename oldpath newpath)

  unfoldable pub lfs_stat : ℕ → ℕ → Op S
  lfs_stat path info = call l (λ nodes. true) (raw.raw_stat path info)

  unfoldable pub lfs_get_attribute : ℕ → ℕ → ℕ → ℕ → Op S
  lfs_get_attribute path type buffer size =
      call l (λ nodes. true) (raw.raw_get_attribute path type buffer size)

  unfoldable pub lfs_set_attribute : ℕ → ℕ → ℕ → ℕ → Op S
  lfs_set_attribute path type buffer size =
      call l (λ nodes. true) (raw.raw_set_attribute path type buffer size)

  unfoldable pub lfs_remove_attribute : ℕ → ℕ → Op S
  lfs_remove_attribute path type = call l (λ nodes. true) (raw.raw_remove_attribute path type)

  unfoldable pub lfs_file_open : ℕ → ℕ → ℕ → Op S
  lfs_file_open file path flags =
      call l (λ nodes. not (mlist_isopen nodes file)) (raw.file_rawopen file path flags)

  unfoldable pub lfs_file_opencfg : ℕ → ℕ → ℕ → ℕ → Op S
  lfs_file_opencfg file path flags cfg =
      call l (λ nodes. not (mlist_isopen nodes file)) (raw.file_rawopencfg file path flags cfg)

  unfoldable pub lfs_file_close : ℕ → Op S
  lfs_file_close file = call l (λ nodes. mlist_isopen nodes file) (raw.file_rawclose file)

  unfoldable pub lfs_file_sync : ℕ → Op S
  lfs_file_sync file = call l (λ nodes. mlist_isopen nodes file) (raw.file_rawsync file)

  unfoldable pub lfs_file_read : ℕ → ℕ → ℕ → Op S
  lfs_file_read file buffer size =
      call l (λ nodes. mlist_isopen nodes file) (raw.file_rawread file buffer size)

  unfoldable pub lfs_file_write : ℕ → ℕ → ℕ → Op S
  lfs_file_write file buffer size =
      call l (λ nodes. mlist_isopen nodes file) (raw.file_rawwrite file buffer size)

  unfoldable pub lfs_file_seek : ℕ → ℕ → ℕ → Op S
  lfs_file_seek file off whence =
      call l (λ nodes. mlist_isopen nodes file) (raw.file_rawseek file off whence)

  unfoldable pub lfs_file_truncate : ℕ → ℕ → Op S
  lfs_file_truncate file size =
      call l (λ nodes. mlist_isopen nodes file) (raw.file_rawtruncate file size)

  unfoldable pub lfs_file_tell : ℕ → Op S
  lfs_file_tell file = call l (λ nodes. mlist_isopen nodes file) (raw.file_rawtell file)

  unfoldable pub lfs_file_rewind : ℕ → Op S
  lfs_file_rewind file = call l (λ nodes. true) (raw.file_rawrewind file)

  unfoldable pub lfs_file_size : ℕ → Op S
  lfs_file_size file = call l (λ nodes. mlist_isopen nodes file) (raw.file_rawsize file)

  unfoldable pub lfs_mkdir : ℕ → Op S
  lfs_mkdir path = call l (λ nodes. true) (raw.dir_rawcreate path)

  unfoldable pub lfs_dir_open : ℕ → ℕ → Op S
  lfs_dir_open dir path = call l (λ nodes. not (mlist_isopen nodes dir)) (raw.dir_rawopen dir path)

  unfoldable pub lfs_dir_close : ℕ → Op S
  lfs_dir_close dir = call l (λ nodes. true) (raw.dir_rawclose dir)

  unfoldable pub lfs_dir_read : ℕ → ℕ → Op S
  lfs_dir_read dir info = call l (λ nodes. true) (raw.dir_rawread dir info)

  unfoldable pub lfs_dir_seek : ℕ → ℕ → Op S
  lfs_dir_seek dir off = call l (λ nodes. true) (raw.dir_rawseek dir off)

  unfoldable pub lfs_dir_tell : ℕ → Op S
  lfs_dir_tell dir = call l (λ nodes. true) (raw.dir_rawtell dir)

  unfoldable pub lfs_dir_rewind : ℕ → Op S
  lfs_dir_rewind dir = call l (λ nodes. true) (raw.dir_rawrewind dir)

  unfoldable pub lfs_fs_stat : ℕ → Op S
  lfs_fs_stat fsinfo = call l (λ nodes. true) (raw.fs_rawstat fsinfo)

  unfoldable pub lfs_fs_size : Op S
  lfs_fs_size = call l (λ nodes. true) raw.fs_rawsize

  unfoldable pub lfs_fs_traverse : ℕ → ℕ → Op S
  lfs_fs_traverse cb data_ = call l (λ nodes. true) (raw.fs_rawtraverse cb data_ true)

  unfoldable pub lfs_fs_grow : ℕ → Op S
  lfs_fs_grow block_count = call l (λ nodes. true) (raw.fs_rawgrow block_count)

-- A call with its arguments.
pub data Call : Type 0 where
  format : ℕ → Call
  mount : ℕ → Call
  unmount : Call
  remove : ℕ → Call
  rename : ℕ → ℕ → Call
  stat : ℕ → ℕ → Call
  get_attribute : ℕ → ℕ → ℕ → ℕ → Call
  set_attribute : ℕ → ℕ → ℕ → ℕ → Call
  remove_attribute : ℕ → ℕ → Call
  file_open : ℕ → ℕ → ℕ → Call
  file_opencfg : ℕ → ℕ → ℕ → ℕ → Call
  file_close : ℕ → Call
  file_sync : ℕ → Call
  file_read : ℕ → ℕ → ℕ → Call
  file_write : ℕ → ℕ → ℕ → Call
  file_seek : ℕ → ℕ → ℕ → Call
  file_truncate : ℕ → ℕ → Call
  file_tell : ℕ → Call
  file_rewind : ℕ → Call
  file_size : ℕ → Call
  mkdir : ℕ → Call
  dir_open : ℕ → ℕ → Call
  dir_close : ℕ → Call
  dir_read : ℕ → ℕ → Call
  dir_seek : ℕ → ℕ → Call
  dir_tell : ℕ → Call
  dir_rewind : ℕ → Call
  fs_stat : ℕ → Call
  fs_size : Call
  fs_traverse : ℕ → ℕ → Call
  fs_grow : ℕ → Call

module _ {S : Type 0} (l : Locks S) (raw : Raw S) where
  unfoldable pub run : Call → Op S
  run (format cfg) = lfs_format l raw cfg
  run (mount cfg) = lfs_mount l raw cfg
  run unmount = lfs_unmount l raw
  run (remove path) = lfs_remove l raw path
  run (rename oldpath newpath) = lfs_rename l raw oldpath newpath
  run (stat path info) = lfs_stat l raw path info
  run (get_attribute path type buffer size) = lfs_get_attribute l raw path type buffer size
  run (set_attribute path type buffer size) = lfs_set_attribute l raw path type buffer size
  run (remove_attribute path type) = lfs_remove_attribute l raw path type
  run (file_open file path flags) = lfs_file_open l raw file path flags
  run (file_opencfg file path flags cfg) = lfs_file_opencfg l raw file path flags cfg
  run (file_close file) = lfs_file_close l raw file
  run (file_sync file) = lfs_file_sync l raw file
  run (file_read file buffer size) = lfs_file_read l raw file buffer size
  run (file_write file buffer size) = lfs_file_write l raw file buffer size
  run (file_seek file off whence) = lfs_file_seek l raw file off whence
  run (file_truncate file size) = lfs_file_truncate l raw file size
  run (file_tell file) = lfs_file_tell l raw file
  run (file_rewind file) = lfs_file_rewind l raw file
  run (file_size file) = lfs_file_size l raw file
  run (mkdir path) = lfs_mkdir l raw path
  run (dir_open dir path) = lfs_dir_open l raw dir path
  run (dir_close dir) = lfs_dir_close l raw dir
  run (dir_read dir info) = lfs_dir_read l raw dir info
  run (dir_seek dir off) = lfs_dir_seek l raw dir off
  run (dir_tell dir) = lfs_dir_tell l raw dir
  run (dir_rewind dir) = lfs_dir_rewind l raw dir
  run (fs_stat fsinfo) = lfs_fs_stat l raw fsinfo
  run fs_size = lfs_fs_size l raw
  run (fs_traverse cb data_) = lfs_fs_traverse l raw cb data_
  run (fs_grow block_count) = lfs_fs_grow l raw block_count

  -- What a call does under the lock.
  unfoldable pub raw_of : Call → Op S
  raw_of (format cfg) = raw.raw_format cfg
  raw_of (mount cfg) = raw.raw_mount cfg
  raw_of unmount = raw.raw_unmount
  raw_of (remove path) = raw.raw_remove path
  raw_of (rename oldpath newpath) = raw.raw_rename oldpath newpath
  raw_of (stat path info) = raw.raw_stat path info
  raw_of (get_attribute path type buffer size) = raw.raw_get_attribute path type buffer size
  raw_of (set_attribute path type buffer size) = raw.raw_set_attribute path type buffer size
  raw_of (remove_attribute path type) = raw.raw_remove_attribute path type
  raw_of (file_open file path flags) = raw.file_rawopen file path flags
  raw_of (file_opencfg file path flags cfg) = raw.file_rawopencfg file path flags cfg
  raw_of (file_close file) = raw.file_rawclose file
  raw_of (file_sync file) = raw.file_rawsync file
  raw_of (file_read file buffer size) = raw.file_rawread file buffer size
  raw_of (file_write file buffer size) = raw.file_rawwrite file buffer size
  raw_of (file_seek file off whence) = raw.file_rawseek file off whence
  raw_of (file_truncate file size) = raw.file_rawtruncate file size
  raw_of (file_tell file) = raw.file_rawtell file
  raw_of (file_rewind file) = raw.file_rawrewind file
  raw_of (file_size file) = raw.file_rawsize file
  raw_of (mkdir path) = raw.dir_rawcreate path
  raw_of (dir_open dir path) = raw.dir_rawopen dir path
  raw_of (dir_close dir) = raw.dir_rawclose dir
  raw_of (dir_read dir info) = raw.dir_rawread dir info
  raw_of (dir_seek dir off) = raw.dir_rawseek dir off
  raw_of (dir_tell dir) = raw.dir_rawtell dir
  raw_of (dir_rewind dir) = raw.dir_rawrewind dir
  raw_of (fs_stat fsinfo) = raw.fs_rawstat fsinfo
  raw_of fs_size = raw.fs_rawsize
  raw_of (fs_traverse cb data_) = raw.fs_rawtraverse cb data_ true
  raw_of (fs_grow block_count) = raw.fs_rawgrow block_count
