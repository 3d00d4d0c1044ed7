-- ===== src/Shapes/Finder/Second.antt =====
-- pass2 of ShapeFinder: each label becomes its root, and each pixel that is no border goes to the
-- shape of its label. getProvinceType is from province_utils/src/ProvinceMapBuilder.cpp.
use ho_i4_mod_development_to.Base.{
  ℕ, zero, suc, ◌%◌, ◌^◌, Option, none, some, List, [], ◌∷◌, ◌++◌, length, if◌then◌else◌, ◌==◌,
}
use ho_i4_mod_development_to.Base.Dict
use ho_i4_mod_development_to.Base.Dict.{Dict}
use ho_i4_mod_development_to.Colors.{
  Color, border_color, do_colors_match, color_to_rgb, ProvinceType, unknown, land, sea, lake,
  generate_unique_color,
}
use ho_i4_mod_development_to.Project.{ProvinceId}
use ho_i4_mod_development_to.Shapes.{Point2d, Dimensions, Pixel}
use ho_i4_mod_development_to.Shapes.Loops.{Loop, more, done, or_none, for_pixels}
use ho_i4_mod_development_to.Shapes.Finder.{
  Polygon, Outside, Finder, write, touch, get_root_label, color_of, index_of, poll,
}

-- The locals of `pass2`.
pub record Pass2 : Type 0 where
  pub finder : Finder
  pub label_to_shapeidx : Dict ℕ

unfoldable pub get_province_type : Color → ProvinceType
get_province_type c =
    let value = color_to_rgb c in
    if value == 0xFF0000
    then land
    else (if value == 0x0000FF then sea else (if value == 0x00FF00 then lake else unknown))

abbrev pub add_pixel_to_shape : Pixel → Polygon → Polygon
add_pixel_to_shape p s = record s { pixels = s.pixels ++ p ∷ [] }

-- A write through the reference to the `i`-th shape; `none` if there is none.
abbrev pub edit : ℕ → (Polygon → Polygon) → List Polygon → Option (List Polygon)
edit i f [] = none
edit zero f (s ∷ ss) = some (f s ∷ ss)
edit (suc i) f (s ∷ ss) = elim (edit i f ss) [ none ↦ none | some ts ↦ some (s ∷ ts) ]

module _ (d : Dimensions) (bytes : ℕ → ℕ) (out : Outside) where
  -- An empty shape for a label that has none.
  unfoldable pub ensure_shape : ProvinceId → Pixel → Pass2 → Pass2
  ensure_shape label p s =
      let f = s.finder in
      let (unique, generator) =
        generate_unique_color out.palette (get_province_type p.color) f.generator in
      if Dict.has label s.label_to_shapeidx then s else record {
        finder = record f {
          generator = generator;
          shapes =
              f.shapes
              ++ record {
                id = label;
                pixels = [];
                color = p.color;
                unique_color = unique;
                bounding_box = record { left = 0; bottom = 0; right = 0; top = 0 };
                adjacent_labels = [];
              }
                ∷ [];
        };
        label_to_shapeidx = Dict.insert label (length f.shapes % 2 ^ 32) s.label_to_shapeidx;
      }

  -- `shapes.at(label_to_shapeidx[label])` is `none` where it throws.
  unfoldable pub add_to_label : ProvinceId → Pixel → Pass2 → Option Pass2
  add_to_label label p s = elim (Dict.lookup label s.label_to_shapeidx) [
    | none ↦ none
    | some i ↦ elim (edit i (add_pixel_to_shape p) s.finder.shapes) [
      | none ↦ none
      | some shapes ↦ some (record s { finder = record s.finder { shapes = shapes } })
    ]
  ]

  unfoldable pub build_shape : ProvinceId → Pixel → Pass2 → Option Pass2
  build_shape label p s = add_to_label label p (ensure_shape label p s)

  -- The label becomes its root, whose colour is drawn.
  abbrev pub root_written : Point2d → ProvinceId → Pass2 → Pass2
  root_written p root s = record s {
    finder = record s.finder {
      provinces = write (index_of d bytes p) root s.finder.provinces;
      label_to_color = touch root s.finder.label_to_color;
    };
  }

  unfoldable pub shape_pixel : Point2d → Pass2 → Loop Pass2 (Option Pass2)
  shape_pixel p s =
      let pixel : Pixel = record { point = p; color = color_of d bytes p } in
      if do_colors_match pixel.color border_color
      then more (record s {
        finder = record s.finder { border_pixels = s.finder.border_pixels ++ pixel ∷ [] };
      })
      else or_none (get_root_label s.finder.label_parents (s.finder.provinces (index_of d bytes p)))
          (λ root. or_none (build_shape root pixel (root_written p root s)) (λ t. more t))

  unfoldable pub sort_pixel : Point2d → Pass2 → Loop Pass2 (Option Pass2)
  sort_pixel p s =
      let polled = poll d bytes out s.finder in
      if polled.do_estop
      then done (some (record s { finder = polled }))
      else shape_pixel p (record s { finder = polled })

  unfoldable pub do_pass2 : Finder → Loop Pass2 (Option Pass2)
  do_pass2 s =
      for_pixels sort_pixel d (record { finder = record s { shapes = [] }; label_to_shapeidx = [] })
