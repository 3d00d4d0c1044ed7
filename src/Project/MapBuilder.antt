-- ===== src/Project/MapBuilder.antt =====
-- mod_dev_tool/province_utils/src/ProvinceMapBuilder.cpp: the data of a province that its colour holds,
-- and the provinces that are built from shapes with it. `&` with a mask of some bits in a row is written
-- with a division and a remainder.
pub mod Bits
pub mod Decoded
mod Tests
use ho_i4_mod_development_to.Base.{
  ℕ, zero, suc, ◌+◌, ◌*◌, ◌/◌, ◌%◌, ◌^◌, Bool, List, [], ◌∷◌, if◌then◌else◌, ◌==◌,
}
use ho_i4_mod_development_to.Base.Ord.{Text}
use ho_i4_mod_development_to.Base.Dict
use ho_i4_mod_development_to.Base.Dict.{Dict}
use ho_i4_mod_development_to.Colors.{Color, color_to_rgb}
use ho_i4_mod_development_to.Project.{ProvinceId, StateId, invalid_province, Province}
use ho_i4_mod_development_to.Project.States.{digits_from}
use ho_i4_mod_development_to.Shapes.Finder.{Polygon}
use ho_i4_mod_development_to.Shapes.Finder.Second.{get_province_type}

-- The bits of a number under a mask that has `width` bits from the bit `low` on.
abbrev pub masked : ℕ → ℕ → ℕ → ℕ
masked low width v = v / 2 ^ low % 2 ^ width * 2 ^ low

-- The zeros below the lowest bit, of which a uint32_t has 32 at most.
unfoldable pub count_zeros : ℕ → ℕ → ℕ
count_zeros zero v = zero
count_zeros (suc n) v = let rest = count_zeros n (v / 2) in if v % 2 == 1 then 0 else suc rest

-- `std::to_string` of a number that was cast to a uint8_t.
unfoldable pub byte_to_string : ℕ → Text
byte_to_string v = digits_from 10 (v % 2 ^ 8) []

unfoldable pub get_state : Color → StateId
get_state c = masked 0 12 (color_to_rgb c)

-- What `__builtin_ctz` gives for 0, where it is not defined.
module _ (ctz_of_zero : ℕ) where
  unfoldable pub index_of_lsb : ℕ → ℕ
  index_of_lsb v = if v == 0 then ctz_of_zero else count_zeros 32 v

  abbrev pub shift_to_lsb : ℕ → ℕ
  shift_to_lsb v = v / 2 ^ index_of_lsb v

  unfoldable pub is_coastal : Color → Bool
  is_coastal c = shift_to_lsb (masked 17 1 (color_to_rgb c)) == 1

  unfoldable pub get_terrain_type : Color → Text
  get_terrain_type c = byte_to_string (shift_to_lsb (masked 18 6 (color_to_rgb c)))

  unfoldable pub get_continent : Color → Text
  get_continent c = byte_to_string (shift_to_lsb (masked 14 3 (color_to_rgb c)))

  abbrev pub decoded : ProvinceId → Polygon → Province
  decoded id shape = record {
    id = id;
    unique_color = shape.unique_color;
    province_type = get_province_type shape.color;
    coastal = is_coastal shape.color;
    terrain = get_terrain_type shape.color;
    continent = get_continent shape.color;
    state = get_state shape.color;
    bounding_box = shape.bounding_box;
    adjacent_provinces = [];
    parent_id = invalid_province;
    children = [];
  }

  -- The loop from the shape `i` on; the platform makes a UUID for each.
  unfoldable pub list_provinces :
      (ℕ → ProvinceId) → ℕ → List Polygon → Dict Province → Dict Province
  list_provinces fresh i [] provinces = provinces
  list_provinces fresh i (shape ∷ shapes) provinces =
      list_provinces fresh (i + 1) shapes
        (Dict.insert (fresh i) (decoded (fresh i) shape) provinces)

  unfoldable pub create_province_list : (ℕ → ProvinceId) → List Polygon → Dict Province
  create_province_list fresh shapes = list_provinces fresh 0 shapes []
