-- ===== src/Tests/Gstate.antt =====
-- A global state with two orphans, and a move put on it and taken off.
use littlefs_v.Base.{◌+◌, ◌^◌, ◌/◌, ◌≡◌, ◌↔◌, refl, arith, true, some, none}
use littlefs_v.Utility.Pair.{Pair}
use littlefs_v.Utility.Tag.{tag_size, tag_id}
use littlefs_v.Gstate.{
  Gstate, more, less, gstate_hasorphans, gstate_hasmove, gstate_xor, zero_gstate, gstate_iszero,
  fs_preporphans, fs_prepmove,
}
use littlefs_v.Gstate.Xor.{gstate_xor_group}
use littlefs_v.Gstate.Moves.{
  IsMarked, Counts, fs_preporphans-more, fs_preporphans_undo, fs_preporphans-none, fs_prepmove_lem,
  gstate_hasmove_of_orphans,
}

abbrev orphaned : Gstate
orphaned = record { tag = 0x80000002; pair = record { first = 0; second = 0 } }

orphaned-IsMarked : IsMarked orphaned
orphaned-IsMarked = record { fits = omega arith; mark = refl }

two : tag_size 0x80000002 ≡ 2
unfolding tag_size
two = refl

fs_preporphans_undo_example :
    (g' : Gstate) × (fs_preporphans orphaned (more 3) ≡ some g')
    × (fs_preporphans g' (less 3) ≡ some orphaned)
fs_preporphans_undo_example =
    fs_preporphans_undo orphaned 3 orphaned-IsMarked (omega arith) (omega (arith, two))

fs_preporphans-more_example :
    (g' : Gstate) × (fs_preporphans orphaned (more 3) ≡ some g')
    × Counts orphaned (tag_size 0x80000002 + 3) g'
fs_preporphans-more_example = fs_preporphans-more orphaned 3 orphaned-IsMarked (omega (arith, two))

zero_count : tag_size 0 ≡ 0
unfolding tag_size
zero_count = refl

fs_preporphans-none_example : fs_preporphans zero_gstate (less 1) ≡ none
fs_preporphans-none_example = fs_preporphans-none zero_gstate 1 zero_count (omega arith)

abbrev here : Pair
here = record { first = 6; second = 7 }

fs_prepmove_lem_example :
    let g' = fs_prepmove orphaned 5 here in
    (tag_size g'.tag ≡ tag_size 0x80000002)
    × (g'.tag / 2 ^ 31 ≡ 1)
    × (gstate_hasmove g' ≡ true)
    × (tag_id g'.tag ≡ 5)
    × (g'.pair ≡ here)
fs_prepmove_lem_example = fs_prepmove_lem orphaned 5 here (omega arith) (omega arith)

orphaned-hasorphans : gstate_hasorphans orphaned ≡ true
unfolding gstate_hasorphans tag_size
orphaned-hasorphans = refl

gstate_hasmove_of_orphans_example : gstate_hasmove orphaned ≡ true
gstate_hasmove_of_orphans_example =
    gstate_hasmove_of_orphans orphaned orphaned-IsMarked orphaned-hasorphans

abbrev moving : Gstate
moving = record { tag = 0x4ff01400; pair = here }

gstate_xor_group_example :
    (gstate_xor orphaned moving ≡ gstate_xor moving orphaned)
    × (gstate_xor (gstate_xor orphaned moving) moving
        ≡ gstate_xor orphaned (gstate_xor moving moving))
    × (gstate_xor orphaned zero_gstate ≡ orphaned)
    × (gstate_xor (gstate_xor orphaned moving) moving ≡ orphaned)
    × ((gstate_iszero orphaned ≡ true) ↔ (orphaned ≡ zero_gstate))
gstate_xor_group_example = gstate_xor_group orphaned moving moving
