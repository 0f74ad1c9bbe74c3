-- ===== src/Lib.antt =====
-- A verification library of littlefs: a log-structured file system on raw blocks, in C++ under
-- include/ and src/littlefs_v2/.
--
-- The program stands in layers. A user's configuration (`lfs_config_t` of include/lfs.h) names the
-- callbacks of a block device; include/lfs_block_device.h has such devices as classes with
-- decorators. src/littlefs_v2/lfs_device.cpp reads and writes blocks through a read cache and a
-- write cache. Above it, metadata pairs are logs of 32-bit tags with checksums, a global state is the
-- xor of the deltas in all pairs, and src/littlefs_v2/lfs_allocator.cpp hands out free blocks.
-- src/littlefs_v2/lfs_metadata.cpp reads the logs, and src/littlefs_v2/lfs_toplevel.cpp has the public
-- calls, which take a lock around the rest.
--
-- Files:
--   Base: native numbers with their Boolean tests and 64-bit words, lists, bits, multiples.
--   Errors: `enum lfs_error` and the results of a call.
--   Utility: include/lfs_utility.h. Align has `lfs_min`, `lfs_max`, `lfs_aligndown`, `lfs_alignup`;
--     Tag has `LFS_MKTAG` and the `lfs_tag_*` readers; Pair has `lfs_pair_*`; Crc has `lfs_crc`, and
--     Crc/Reference the division bit by bit that it is held against.
--     Endian has the byte orders, Sequence `lfs_scmp`, and Mlist `lfs_mlist_*`.
--   Gstate: `lfs_gstate_*` of include/lfs_utility.h, and `lfs_fs_preporphans` and `lfs_fs_prepmove`
--     of src/littlefs_v2/lfs_operations.cpp.
--   Device: `lfs_bd_rawread` and `lfs_bd_rawprog` of src/littlefs_v2/lfs_device.cpp, over a device
--     that is a record of callbacks and a state; Device/Read: `lfs_bd_read`; Device/Write:
--     `lfs_bd_cmp`, `lfs_bd_flush`, `lfs_bd_sync` and `lfs_bd_write`; Device/Erase: `lfs_bd_erase`;
--     Device/View: what the caches and the device together say a block holds.
--     Device/Cached: calls that read through the cache, in sequence.
--   BlockDevice: include/lfs_block_device.h. Memory, Crypto, Statistics and Faults are the classes
--     `MemoryBlockDevice`, `CryptoBlockDevice`, `StatisticsBlockDevice` and `FaultInjectBlockDevice`.
--   Allocator: src/littlefs_v2/lfs_allocator.cpp; the traversal of the file system that marks blocks
--     in use is a parameter, the list of blocks that it hands over.
--   Index: `lfs_ctz_index` and `lfs_ctz_find` of src/littlefs_v2/lfs_file_index.cpp, with the bit counts
--     `lfs_npw2_64`, `lfs_ctz64` and `lfs_popc64` of include/lfs_utility.h; Index/Traverse:
--     `lfs_ctz_traverse`, and Index/Traverse/Count the callback `lfs_fs_size_count`.
--   Metadata: src/littlefs_v2/lfs_metadata.cpp. Get has `lfs_dir_getslice` and `lfs_dir_get`, and
--     Get/Search and Files what they are held against: a search of the log from its end, and the
--     tags that the log leaves when it is read from its start. Filter has `lfs_dir_traverse_filter`;
--     Fetch has the loop of `lfs_dir_fetchmatch` over the tags of a block, and Fetch/Match the rest of
--     it, `lfs_dir_fetch` and `lfs_dir_find_match`; Names has the order of names in a directory.
--     Info has `lfs_dir_getgstate` and `lfs_dir_getinfo`.
--   Commit: `lfs_dir_commit_write` and `lfs_dir_commit_attribute` of src/littlefs_v2/lfs_commit.cpp;
--     Commit/Footer: `lfs_dir_commit_crc`.
--   General: `lfs_init` and `lfs_deinit` of src/littlefs_v2/lfs_general.cpp; `malloc` is a parameter.
--   Toplevel: src/littlefs_v2/lfs_toplevel.cpp with LFS_THREADSAFE; Toplevel/Calls has the 31 calls.
--   Tests: concrete states.
--
-- A C function that changes an object returns the new object. A failed assertion, an access past a
-- buffer and a loop without rounds left are results of their own (`abort`, `fault`, `out_of_fuel`).
-- Loops take a number of rounds: `lfs_bd_rawread` one for each byte and one more; `lfs_bd_read`
-- two for each byte and one more, since a round that fills the cache is followed by one that
-- copies, and `lfs_bd_write` as many; `lfs_bd_cmp` one for each byte and one more; the search of
-- the allocator one for each block of the window and one more, `lfs_alloc` one for each window,
-- and `lfs_ctz_find` one for each block behind the target and one more; `lfs_ctz_traverse` one for
-- each block of the list; `lfs_dir_getslice` one for each byte of the log and one more, since a tag
-- takes four bytes at least, and a pass of `lfs_dir_fetchmatch` one for each byte of the block and one
-- more; the footers of a commit one for each byte up to its end and one more.
--
-- A read that fails leaves the variable of its caller as it was. The machine is little-endian. Where
-- metadata is read, the device answers as documented: each read of it gives the bytes of the block or
-- an error.
--
-- Not modelled: mounting, formatting, compaction, files and directories, which use these parts, with
-- the rest of src/littlefs_v2/lfs_general.cpp, lfs_commit.cpp and lfs_operations.cpp; of
-- src/littlefs_v2/lfs_metadata.cpp `lfs_dir_traverse`, `lfs_dir_getread` and `lfs_dir_find`; the device
-- backed by a host file. The calls behind the lock are arguments of Toplevel.
pub mod Base
pub mod Errors
pub mod Utility
pub mod Gstate
pub mod Device
pub mod BlockDevice
pub mod Allocator
pub mod Index
pub mod Metadata
pub mod Commit
pub mod General
pub mod Toplevel
mod Tests
