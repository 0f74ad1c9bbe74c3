-- ===== src/General.antt =====
-- src/littlefs_v2/lfs_general.cpp: `lfs_init` checks a configuration and takes the buffers, `lfs_deinit`
-- gives them back. The heap is the set of live allocations; a pointer is an address, NULL is 0.
pub mod Returned
pub mod Buffers
use littlefs_v.Base.{
  ℕ, ◌+◌, ◌-◌, ◌%◌, ◌^◌, List, [], Bool, true, false, not, ◌&&◌, ◌||◌, ltb, leb, ◌==◌,
  if◌then◌else◌,
}
use littlefs_v.Errors.{Error, Outcome, ok, err, abort, out_of_fuel, fault}
use littlefs_v.Utility.Pair.{Pair, block_null}
use littlefs_v.Gstate.{Gstate, zero_gstate}
use littlefs_v.Device.Cached.{Stateful, ◌>>=◌, pure, lift}

-- What `lfs_init` reads of `lfs_config_t`; `block_cycles` as its 32 bits.
pub record Config : Type 0 where
  pub read_size : ℕ
  pub write_size : ℕ
  pub cache_size : ℕ
  pub erase_size : ℕ
  pub block_size : ℕ
  pub block_cycles : ℕ
  pub lookahead_size : ℕ
  pub name_max_length : ℕ
  pub file_max_size : ℕ
  pub attr_max_size : ℕ
  pub metadata_max : ℕ
  pub read_buffer : ℕ
  pub write_buffer : ℕ
  pub lookahead_buffer : ℕ

-- What it sets of `lfs_t`.
pub record Lfs : Type 0 where
  pub erase_size : ℕ
  pub read_buffer : ℕ
  pub read_block : ℕ
  pub write_buffer : ℕ
  pub write_block : ℕ
  pub free_buffer : ℕ
  pub name_max_length : ℕ
  pub file_max_size : ℕ
  pub attr_max_size : ℕ
  pub root : Pair
  pub metadata_list : List ℕ
  pub seed : ℕ
  pub gdisk : Gstate
  pub gstate : Gstate
  pub gdelta : Gstate

pub record Memory : Type 0 where
  pub live : ℕ → Bool
  pub lfs : Lfs

abbrev pub or_default : ℕ → ℕ → ℕ
or_default given other = if given == 0 then other else given

-- The checks before the first buffer is taken.
unfoldable pub sizes_fit : Config → Bool
sizes_fit cfg =
    let erase = or_default cfg.erase_size cfg.block_size in
    not (cfg.read_size == 0)
    && (not (cfg.write_size == 0)
        && (not (cfg.cache_size == 0)
            && ((not (cfg.erase_size == 0) || not (cfg.block_size == 0))
                && (cfg.cache_size % cfg.read_size == 0
                    && (cfg.cache_size % cfg.write_size == 0
                        && (erase % cfg.cache_size == 0
                            && ((cfg.block_size == 0 || cfg.block_size % erase == 0)
                                && not (cfg.block_cycles == 0))))))))

-- must be multiple of 64-bits, 32-bit aligned
unfoldable pub lookahead_fits : Config → Bool
lookahead_fits cfg =
    ltb 0 cfg.lookahead_size && (cfg.lookahead_size % 8 == 0 && cfg.lookahead_buffer % 4 == 0)

-- check that the size limits are sane
unfoldable pub limits_fit : Config → Bool
limits_fit cfg =
    leb cfg.name_max_length 255
    && (leb cfg.file_max_size 0x7fffffffffffffff
        && (leb cfg.attr_max_size 1022 && leb cfg.metadata_max cfg.block_size))

abbrev pub check : Bool → Stateful Memory (Unit {0})
check b m = (m, if b then ok tt else abort)

abbrev pub set_lfs : (Lfs → Lfs) → Stateful Memory (Unit {0})
set_lfs f m = (record m { lfs = f m.lfs }, ok tt)

abbrev pub marked : ℕ → Bool → (ℕ → Bool) → ℕ → Bool
marked a b live x = if x == a then b else live x

-- `free` where the buffer is not the user's.
unfoldable pub released : ℕ → ℕ → (ℕ → Bool) → ℕ → Bool
released given a live = if given == 0 && not (a == 0) then marked a false live else live

-- What is left of the pointer.
unfoldable pub cleared : ℕ → ℕ → ℕ
cleared given a = if given == 0 then 0 else a

-- lfs_deinit
unfoldable pub deinit : Config → Memory → Memory
unfolding released cleared
deinit cfg m = record {
  live = released cfg.lookahead_buffer m.lfs.free_buffer (
      released cfg.write_buffer m.lfs.write_buffer
        (released cfg.read_buffer m.lfs.read_buffer m.live));
  lfs = record m.lfs {
    read_buffer = cleared cfg.read_buffer m.lfs.read_buffer;
    write_buffer = cleared cfg.write_buffer m.lfs.write_buffer;
    free_buffer = cleared cfg.lookahead_buffer m.lfs.free_buffer;
  };
}

-- `cleanup:`, which gives back what has been taken, and then calls `lfs_deinit`.
unfoldable pub cleaned : Config → Memory × Outcome (Unit {0}) → Memory × Outcome (Unit {0})
cleaned cfg (m, ok u) = (m, ok u)
cleaned cfg (m, err e) = (deinit cfg (deinit cfg m), err e)
cleaned cfg (m, abort) = (m, abort)
cleaned cfg (m, out_of_fuel) = (m, out_of_fuel)
cleaned cfg (m, fault) = (m, fault)

-- setup default state
unfoldable pub defaults : Config → Lfs → Lfs
defaults cfg lfs = record lfs {
  name_max_length = or_default cfg.name_max_length 255;
  file_max_size = or_default cfg.file_max_size 0x7fffffffffffffff;
  attr_max_size = or_default cfg.attr_max_size 1022;
  root = record { first = block_null; second = block_null };
  metadata_list = [];
  seed = 0;
  gdisk = zero_gstate;
  gstate = zero_gstate;
  gdelta = zero_gstate;
}

-- The pointer is assigned only where the allocation has not failed.
abbrev pub new_lookahead : ℕ → Lfs → Lfs
new_lookahead a lfs = record lfs { free_buffer = if a == 0 then lfs.free_buffer else a }

module _ (malloc : (ℕ → Bool) → ℕ → ℕ) where
  -- A buffer of the user's, or one from the heap; `put` is the assignment of the pointer.
  unfoldable pub acquire : ℕ → ℕ → (ℕ → Lfs → Lfs) → Stateful Memory (Unit {0})
  acquire given size put m =
      let a = if given == 0 then malloc m.live size else given in
      let live = if given == 0 && not (a == 0) then marked a true m.live else m.live in
      (record { live = live; lfs = put a m.lfs }, if a == 0 then err Error.nomem else ok tt)

  -- lfs_init
  unfoldable pub init_body : Config → Stateful Memory (Unit {0})
  init_body cfg = do
    u ← check (sizes_fit cfg)
    u ← set_lfs (λ l. record l { erase_size = or_default cfg.erase_size cfg.block_size })
    u ← acquire cfg.read_buffer cfg.cache_size (λ a l. record l { read_buffer = a })
    u ← acquire cfg.write_buffer cfg.cache_size (λ a l. record l { write_buffer = a })
    u ← set_lfs (λ l. record l { read_block = block_null; write_block = block_null })
    u ← check (lookahead_fits cfg)
    u ← acquire cfg.lookahead_buffer cfg.lookahead_size new_lookahead
    u ← check (limits_fit cfg)
    set_lfs (defaults cfg)

  unfoldable pub init : Config → Stateful Memory (Unit {0})
  init cfg m = cleaned cfg (init_body cfg m)
