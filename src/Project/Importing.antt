-- ===== src/Project/Importing.antt =====
-- mod_dev_tool/common/src/Util.cpp: createProvincesFromShapeList, the provinces of the shapes that were
-- found in an image. The reservation is not modelled.
pub mod Imported
mod Tests
use ho_i4_mod_development_to.Base.{List, [], ◌∷◌, false}
use ho_i4_mod_development_to.Base.Ord.{Text}
use ho_i4_mod_development_to.Base.Dict
use ho_i4_mod_development_to.Base.Dict.{Dict}
use ho_i4_mod_development_to.Project.{invalid_province, Province}
use ho_i4_mod_development_to.Shapes.Finder.{Polygon}
use ho_i4_mod_development_to.Shapes.Finder.Second.{get_province_type}

-- "unknown" and "None".
abbrev pub unknown_terrain : Text
unknown_terrain = 117 ∷ 110 ∷ 107 ∷ 110 ∷ 111 ∷ 119 ∷ 110 ∷ []

abbrev pub none_continent : Text
none_continent = 78 ∷ 111 ∷ 110 ∷ 101 ∷ []

-- The state is 0, where `no_state` is the greatest number.
abbrev pub province_of : Polygon → Province
province_of shape = record {
  id = shape.id;
  unique_color = shape.unique_color;
  province_type = get_province_type shape.color;
  coastal = false;
  terrain = unknown_terrain;
  continent = none_continent;
  state = 0;
  bounding_box = shape.bounding_box;
  adjacent_provinces = [];
  parent_id = invalid_province;
  children = [];
}

-- The loop, from the shapes that are left.
unfoldable pub create_provinces : List Polygon → Dict Province → Dict Province
create_provinces [] provinces = provinces
create_provinces (shape ∷ shapes) provinces =
    create_provinces shapes (Dict.insert shape.id (province_of shape) provinces)

unfoldable pub create_provinces_from_shape_list : List Polygon → Dict Province
create_provinces_from_shape_list shapes = create_provinces shapes []
