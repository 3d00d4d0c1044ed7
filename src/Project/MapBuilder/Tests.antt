-- ===== src/Project/MapBuilder/Tests.antt =====
-- The data of a colour, and the provinces of two shapes.
use ho_i4_mod_development_to.Base.{◌+◌, ◌/◌, ◌%◌, ◌^◌, ◌≡◌, refl, List, [], ◌∷◌, ◌==◌}
use ho_i4_mod_development_to.Base.Dict
use ho_i4_mod_development_to.Colors.{Color, color_to_rgb}
use ho_i4_mod_development_to.Project.MapBuilder.{
  byte_to_string, count_zeros, index_of_lsb, is_coastal, get_terrain_type, get_continent, get_state,
  list_provinces, create_province_list,
}
use ho_i4_mod_development_to.Project.MapBuilder.Decoded.{Reads, fields_lem}
use ho_i4_mod_development_to.Shapes.Finder.{Polygon}

-- The terrain 6, coastal, the continent 5, the state 258.
abbrev coast : Color
coast = record { r = 27; g = 65; b = 2 }

-- 6 is read as 3.
get_terrain_type_halves : get_terrain_type 0 coast ≡ 51 ∷ []
unfolding get_terrain_type byte_to_string index_of_lsb count_zeros color_to_rgb
get_terrain_type_halves = refl

fields_example :
    (get_state coast ≡ color_to_rgb coast % 4096)
    × (is_coastal 0 coast ≡ (color_to_rgb coast / 2 ^ 17 % 2 == 1))
    × Reads (color_to_rgb coast / 2 ^ 18 % 64) (get_terrain_type 0 coast)
    × Reads (color_to_rgb coast / 2 ^ 14 % 8) (get_continent 0 coast)
fields_example = fields_lem 0 coast

abbrev shape : Color → Polygon
shape color = record {
  id = 9;
  pixels = [];
  color = color;
  unique_color = color;
  bounding_box = record { left = 0; bottom = 0; right = 0; top = 0 };
  adjacent_labels = [];
}

abbrev shapes : List Polygon
shapes = shape coast ∷ shape (record { r = 0; g = 0; b = 1 }) ∷ []

-- Two provinces, under the UUIDs that are made first.
create_province_list_runs : Dict.size (create_province_list 0 (λ i. i + 1) shapes) ≡ 2
unfolding create_province_list list_provinces
create_province_list_runs = refl
