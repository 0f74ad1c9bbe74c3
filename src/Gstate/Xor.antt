-- ===== src/Gstate/Xor.antt =====
-- Global states under exclusive or: deltas add up in any order, and each undoes itself.
use littlefs_v.Base.{◌≡◌, ◌↔◌, arith, true}
use littlefs_v.Base.Bits.{bit_xor_comm, bit_xor_assoc, bit_xor_cancel, bit_xor-zero}
use littlefs_v.Gstate.{Gstate, zero_gstate, gstate_iszero, gstate_xor}

pub gstate_xor_comm : (a b : Gstate) → gstate_xor a b ≡ gstate_xor b a
unfolding gstate_xor
gstate_xor_comm a b = ground (
  arith,
  bit_xor_comm a.tag b.tag,
  bit_xor_comm a.pair.first b.pair.first,
  bit_xor_comm a.pair.second b.pair.second,
)

pub gstate_xor_assoc :
    (a b c : Gstate) → gstate_xor (gstate_xor a b) c ≡ gstate_xor a (gstate_xor b c)
unfolding gstate_xor
gstate_xor_assoc a b c = ground (
  arith,
  bit_xor_assoc a.tag b.tag c.tag,
  bit_xor_assoc a.pair.first b.pair.first c.pair.first,
  bit_xor_assoc a.pair.second b.pair.second c.pair.second,
)

pub gstate_xor_cancel : (a b : Gstate) → gstate_xor (gstate_xor a b) b ≡ a
unfolding gstate_xor
gstate_xor_cancel a b = ground (
  arith,
  bit_xor_cancel a.tag b.tag,
  bit_xor_cancel a.pair.first b.pair.first,
  bit_xor_cancel a.pair.second b.pair.second,
)

pub gstate_xor-zero : (a : Gstate) → gstate_xor a zero_gstate ≡ a
unfolding gstate_xor
gstate_xor-zero a =
    ground (arith, bit_xor-zero a.tag, bit_xor-zero a.pair.first, bit_xor-zero a.pair.second)

pub gstate_iszero_iff : (a : Gstate) → (gstate_iszero a ≡ true) ↔ (a ≡ zero_gstate)
unfolding gstate_iszero
gstate_iszero_iff a = ground arith

-- Global states under `lfs_gstate_xor` are a commutative group in which each is its own inverse: the
-- order and the grouping of deltas do not matter, the zero state changes nothing, and a delta applied
-- twice is gone. `lfs_gstate_iszero` tells the zero state.
pub gstate_xor_group :
    (a b c : Gstate)
    → (gstate_xor a b ≡ gstate_xor b a)
      × (gstate_xor (gstate_xor a b) c ≡ gstate_xor a (gstate_xor b c))
      × (gstate_xor a zero_gstate ≡ a)
      × (gstate_xor (gstate_xor a b) b ≡ a)
      × ((gstate_iszero a ≡ true) ↔ (a ≡ zero_gstate))
gstate_xor_group a b c = (
  gstate_xor_comm a b,
  gstate_xor_assoc a b c,
  gstate_xor-zero a,
  gstate_xor_cancel a b,
  gstate_iszero_iff a,
)
