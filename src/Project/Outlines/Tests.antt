-- ===== src/Project/Outlines/Tests.antt =====
-- Two provinces of a pixel each, side by side.
use ho_i4_mod_development_to.Base.{
  ℕ, ◌+◌, ◌≡◌, refl, true, false, none, some, List, [], ◌∷◌, ◌↔◌, arith,
}
use ho_i4_mod_development_to.Base.Ord.{nat_ord}
use ho_i4_mod_development_to.Base.Dict
use ho_i4_mod_development_to.Colors.{land, do_colors_match}
use ho_i4_mod_development_to.Project.{ProvinceId, no_state, Province, Project, get_province_for_id}
use ho_i4_mod_development_to.Project.Graphics.{Image}
use ho_i4_mod_development_to.Project.Outlines.{build_province_outlines, outline_pixel, draw_outline}
use ho_i4_mod_development_to.Project.Outlines.Meeting.{Meets}
use ho_i4_mod_development_to.Project.Outlines.Steps.{adjacent, AreSorted}
use ho_i4_mod_development_to.Project.Outlines.Adjacent.{build_province_outlines_lem}
use ho_i4_mod_development_to.Shapes.{
  Point2d, Dimensions, get_color_at, calculate_adjacency, look, get_adjacent_pixel, moved,
  is_in_image, xy_to_index,
}
use ho_i4_mod_development_to.Shapes.Neighbours.{IsInside, is_border}
use ho_i4_mod_development_to.Shapes.Loops.{Loop, more, done}

abbrev pair : Dimensions
pair = record { w = 2; h = 1 }

abbrev graphics : Image
graphics i = i + 1

abbrev labels : ℕ → ProvinceId
labels i = i + 1

abbrev prov : ProvinceId → Province
prov id = record {
  id = id;
  unique_color = record { r = id; g = 10; b = 20 };
  province_type = land;
  coastal = false;
  terrain = [];
  continent = [];
  state = no_state;
  bounding_box = record { left = 0; bottom = 0; right = 0; top = 0 };
  adjacent_provinces = [];
  parent_id = 0;
  children = [];
}

abbrev apart : Project
apart = record {
  provinces = (1, prov 1) ∷ (2, prov 2) ∷ [];
  states = [];
  available_state_ids = [];
  province_matrix = [];
  state_id_matrix = [];
  colors = record { land_ptr = 0; sea_ptr = 0; lake_ptr = 0; unknown_ptr = 0 };
}

apart_sorted : AreSorted nat_ord apart
apart_sorted k p e = ground arith

apart_alone : (k l : ProvinceId) → adjacent nat_ord apart k l ≡ false
apart_alone k l = ground arith

graphics_colored : (q : Point2d) → IsInside pair q → is_border pair graphics q ≡ false
unfolding get_color_at do_colors_match
graphics_colored q i = ground arith

abbrev neighbours_of : ProvinceId → Loop (Project × Image) Unit → List ProvinceId
neighbours_of k (done r) = []
neighbours_of k (more s) = elim (Dict.lookup k s.0.provinces) [
  | none ↦ []
  | some p ↦ p.adjacent_provinces
]

build_province_outlines_runs :
    neighbours_of 1 (build_province_outlines nat_ord pair graphics labels (apart, graphics))
    ≡ 2 ∷ []
unfolding build_province_outlines outline_pixel draw_outline get_province_for_id calculate_adjacency
    look get_adjacent_pixel moved is_in_image xy_to_index get_color_at do_colors_match
build_province_outlines_runs = refl

build_province_outlines_example :
    (s : Project × Image) × (build_province_outlines nat_ord pair graphics labels (apart, graphics)
      ≡ more s)
    × ((k l : ProvinceId)
        → Dict.has k apart.provinces ≡ true
        → (adjacent nat_ord s.0 k l ≡ true) ↔ Meets nat_ord pair graphics labels k l)
    × ((k l : ProvinceId)
        → Dict.has l apart.provinces ≡ true
        → adjacent nat_ord s.0 k l ≡ true
        → adjacent nat_ord s.0 l k ≡ true)
build_province_outlines_example =
    build_province_outlines_lem nat_ord pair graphics labels apart
      (record { wide = omega arith; high = omega arith }) graphics_colored apart_sorted apart_alone
      graphics
