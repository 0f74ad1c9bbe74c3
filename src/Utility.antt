-- ===== src/Utility.antt =====
-- include/lfs_utility.h: the helpers on numbers, tags, block pairs, global state, checksums, lists
-- of open metadata and caches.
pub mod Align
pub mod Tag
pub mod Pair
pub mod Crc
pub mod Endian
pub mod Sequence
pub mod Mlist
