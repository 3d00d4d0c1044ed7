-- ===== src/Project/Graphics/Tests.antt =====
-- The colours of a map of two pixels, of one province and of another that is merged into it.
use ho_i4_mod_development_to.Base.{
  ℕ, ◌+◌, ◌≡◌, refl, false, Option, none, some, List, [], ◌∷◌, if◌then◌else◌, ◌==◌, arith,
}
use ho_i4_mod_development_to.Base.Ord.{nat_ord}
use ho_i4_mod_development_to.Colors.{land}
use ho_i4_mod_development_to.Project.{
  ProvinceId, no_state, Province, Project, is_valid_province_id, get_province_for_id,
}
use ho_i4_mod_development_to.Project.Merging.{get_root_province_parent}
use ho_i4_mod_development_to.Project.Merging.Forest.{IsForest}
use ho_i4_mod_development_to.Shapes.{Point2d, Dimensions, xy_to_index, get_color_at}
use ho_i4_mod_development_to.Shapes.Neighbours.{IsInside}
use ho_i4_mod_development_to.Shapes.Loops.{more}
use ho_i4_mod_development_to.Project.Graphics.{
  Image, cell, write_cell, build_graphics_data, export_pixel, get_province_colors_for_export,
}
use ho_i4_mod_development_to.Project.Graphics.Cells.{IsDrawable}
use ho_i4_mod_development_to.Project.Graphics.Colored.{
  flipped, Exported, build_graphics_data_lem, get_province_colors_for_export_lem,
}

abbrev prov : ProvinceId → ProvinceId → List ProvinceId → Province
prov id parent children = record {
  id = id;
  unique_color = record { r = id; g = 10; b = 20 };
  province_type = land;
  coastal = false;
  terrain = [];
  continent = [];
  state = no_state;
  bounding_box = record { left = 0; bottom = 0; right = 0; top = 0 };
  adjacent_provinces = [];
  parent_id = parent;
  children = children;
}

abbrev merged : Project
merged = record {
  provinces = (1, prov 1 0 (2 ∷ [])) ∷ (2, prov 2 1 []) ∷ [];
  states = [];
  available_state_ids = [];
  province_matrix = [];
  state_id_matrix = [];
  colors = record { land_ptr = 0; sea_ptr = 0; lake_ptr = 0; unknown_ptr = 0 };
}

merged-IsForest : IsForest nat_ord 2 merged
merged-IsForest = record {
  rank = λ k. if k == 2 then 1 else 0;
  keyed = λ k q e. ground arith;
  no_nil = refl;
  there = λ k m. ground arith;
  climbs = λ k m. ground arith;
  short = λ k. ground arith;
  listed = λ k c h. ground arith;
  sorted = λ k. ground arith;
}

-- Three pixels, the last of which is of no province.
abbrev row : Dimensions
row = record { w = 3; h = 1 }

row-IsDrawable : IsDrawable row
row-IsDrawable = record {
  image = record { wide = omega arith; high = omega arith };
  bytes = omega arith;
}

abbrev labels : ℕ → ProvinceId
labels i = i + 1

abbrev grey : Image
grey i = 7

abbrev bytes_of : Option (Option Image) → List ℕ
bytes_of none = []
bytes_of (some none) = []
bytes_of (some (some m)) = m 0 ∷ m 1 ∷ m 2 ∷ m 3 ∷ m 4 ∷ m 5 ∷ m 6 ∷ m 7 ∷ m 8 ∷ []

-- The second province has the colour of the first.
get_province_colors_for_export_bytes :
    bytes_of (get_province_colors_for_export row labels merged 2 grey)
    ≡ 1 ∷ 10 ∷ 20 ∷ 1 ∷ 10 ∷ 20 ∷ 7 ∷ 7 ∷ 7 ∷ []
unfolding get_province_colors_for_export export_pixel cell write_cell xy_to_index
    get_root_province_parent is_valid_province_id get_province_for_id
get_province_colors_for_export_bytes = refl

build_graphics_data_example :
    (out : Image) × (build_graphics_data row labels merged grey ≡ more out)
    × ((q : Point2d)
        → IsInside row q
        → get_color_at row out q.x q.y
          ≡ (elim (get_province_for_id (labels (xy_to_index 3 q.x q.y)) merged) [
            | none ↦ get_color_at row grey q.x q.y
            | some p ↦ flipped p.unique_color
          ]))
build_graphics_data_example = build_graphics_data_lem row labels merged row-IsDrawable grey

get_province_colors_for_export_example :
    (out : Image) × (get_province_colors_for_export row labels merged 2 grey ≡ some (some out))
    × Exported row labels merged row-IsDrawable 2 grey out
get_province_colors_for_export_example =
    get_province_colors_for_export_lem row labels merged row-IsDrawable nat_ord 2 merged-IsForest
      grey
