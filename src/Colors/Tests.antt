-- ===== src/Colors/Tests.antt =====
-- The colour generator over small arrays.
use ho_i4_mod_development_to.Base.{◌≡◌, arith}
use ho_i4_mod_development_to.Colors.{
  unknown, land, sea, lake, Palette, Generator, generate_unique_color, color_at,
  reset_unique_color_generator, get_unique_color_ptr,
}
use ho_i4_mod_development_to.Colors.Sequence.{after, IsUsedUp, generate_nth, generate_repeats}

-- Two colours for each type, the unknown ones last; each byte is its own address.
abbrev palette : Palette
palette = record {
  start = λ t. elim t [ land ↦ 0 | sea ↦ 6 | lake ↦ 12 | unknown ↦ 18 ];
  size = λ _. 6;
  byte = λ p. p;
}

-- Both land colours are given out.
abbrev no_land : Generator
no_land = record { land_ptr = 6; sea_ptr = 6; lake_ptr = 12; unknown_ptr = 18 }

generate_nth_example :
    (generate_unique_color palette sea
      (after palette 1 sea (reset_unique_color_generator palette no_land))).0
    ≡ color_at palette 9
generate_nth_example = generate_nth palette 1 sea no_land (omega arith)

no_land-IsUsedUp : IsUsedUp palette land no_land
unfolding get_unique_color_ptr
no_land-IsUsedUp = record { used = omega arith; behind = omega arith; left = omega arith }

generate_repeats_example :
    ((generate_unique_color palette land (after palette 2 land no_land)).0 ≡ color_at palette 18)
    × (get_unique_color_ptr unknown (after palette 3 land no_land) ≡ 18)
    × (get_unique_color_ptr land (after palette 3 land no_land) ≡ 21)
unfolding get_unique_color_ptr
generate_repeats_example = generate_repeats palette 2 land no_land (ground arith) no_land-IsUsedUp
