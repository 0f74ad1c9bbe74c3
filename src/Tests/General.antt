-- ===== src/Tests/General.antt =====
-- A configuration with a read buffer of its own, on a heap that counts up.
use littlefs_v.Base.{ℕ, Bool, false, not, ◌≡◌, ◌≢◌, refl, [], if◌then◌else◌, Bool-cases, inl, inr}
use littlefs_v.Gstate.{zero_gstate}
use littlefs_v.General.{Config, Memory, init}
use littlefs_v.General.Buffers.{IsInited, init-IsInited}

abbrev settings : Config
settings = record {
  read_size = 4;
  write_size = 4;
  cache_size = 8;
  erase_size = 0;
  block_size = 16;
  block_cycles = 500;
  lookahead_size = 8;
  name_max_length = 0;
  file_max_size = 0;
  attr_max_size = 0;
  metadata_max = 0;
  read_buffer = 4096;
  write_buffer = 0;
  lookahead_buffer = 0;
}

-- The first of two addresses that is free, or NULL.
abbrev two_slots : (ℕ → Bool) → ℕ → ℕ
two_slots live size = if not (live 16) then 16 else if not (live 32) then 32 else 0

two_slots-fresh :
    (live : ℕ → Bool) (size : ℕ) → two_slots live size ≢ 0 → live (two_slots live size) ≡ false
two_slots-fresh live size some_slot = elim (Bool-cases (live 16)) [
  | inl a ↦ elim (Bool-cases (live 32)) [
    | inl b ↦ absurd (rw (a, b) at some_slot refl)
    | inr b ↦ rw (a, b) b
  ]
  | inr a ↦ rw a a
]

abbrev idle : Memory
idle = record {
  live = λ x. false;
  lfs = record {
    erase_size = 0;
    read_buffer = 0;
    read_block = 0;
    write_buffer = 0;
    write_block = 0;
    free_buffer = 0;
    name_max_length = 0;
    file_max_size = 0;
    attr_max_size = 0;
    root = record { first = 0; second = 0 };
    metadata_list = [];
    seed = 0;
    gdisk = zero_gstate;
    gstate = zero_gstate;
    gdelta = zero_gstate;
  };
}

init-IsInited_example :
    IsInited settings two_slots two_slots-fresh (λ x. false) (init two_slots settings idle)
init-IsInited_example = init-IsInited settings two_slots two_slots-fresh idle refl refl refl
