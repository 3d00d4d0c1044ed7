-- ===== src/Shapes/Finder/Borders.antt =====
-- mergeBorders of ShapeFinder: each border pixel goes to the shape of a pixel nearby.
use ho_i4_mod_development_to.Base.{
  ℕ, ◌-◌, ◌%◌, ◌^◌, Bool, true, false, Option, none, some, List, [], ◌∷◌, if◌then◌else◌,
}
use ho_i4_mod_development_to.Base.Dict
use ho_i4_mod_development_to.Base.Dict.{Dict}
use ho_i4_mod_development_to.Colors.{border_color, do_colors_match}
use ho_i4_mod_development_to.Shapes.{Point2d, Dimensions, Pixel, left, up, down}
use ho_i4_mod_development_to.Shapes.Loops.{Loop, more, done, for_rows}
use ho_i4_mod_development_to.Shapes.Finder.{
  Outside, Finder, write, color_of, index_of, get_adjacent_point, poll,
}
use ho_i4_mod_development_to.Shapes.Finder.Second.{add_pixel_to_shape, edit}

-- What a pixel merges with, or why there is nothing.
pub data Target : Type 0 where
  found : Point2d → Finder → Target
  stopped : Finder → Target
  missing : Finder → Target

module _ (d : Dimensions) (bytes : ℕ → ℕ) (out : Outside) where
  -- The body of the inner loops: it goes on at a border.
  unfoldable pub search_pixel : Point2d → Finder → Loop Finder Target
  search_pixel p s =
      let polled = poll d bytes out s in
      if polled.do_estop
      then done (stopped polled)
      else (if do_colors_match (color_of d bytes p) border_color
          then more polled
          else done (found p polled))

  -- The pixels below and to the right; each row begins at the column of the border pixel.
  unfoldable pub search : Point2d → Finder → Target
  search p s = elim (for_rows search_pixel (d.w - p.x) p.x (d.h - p.y) p.y s) [
    | more s' ↦ missing s'
    | done t ↦ t
  ]

  unfoldable pub merge_target : Point2d → Finder → Target
  merge_target p s = elim (get_adjacent_point d bytes p left) [
    | some q ↦ found q s
    | none ↦ elim (get_adjacent_point d bytes p up) [
      | some q ↦ found q s
      | none ↦ elim (get_adjacent_point d bytes p down) [ some q ↦ found q s | none ↦ search p s ]
    ]
  ]

  -- The pixel goes to the shape of the label of `q`; `none` where the label has no shape.
  unfoldable pub merge_into : Pixel → Point2d → Dict ℕ → Finder → Option Finder
  merge_into px q idx s =
      let label = s.provinces (index_of d bytes q) in
      elim (Dict.lookup label idx) [
        | none ↦ none
        | some i ↦ elim (edit i (add_pixel_to_shape px) s.shapes) [
          | none ↦ none
          | some shapes ↦ some (record s {
            shapes = shapes;
            provinces = write (index_of d bytes px.point) label s.provinces;
            label_matrix = write (index_of d bytes px.point) (label % 2 ^ 32) s.label_matrix;
          })
        ]
      ]

  -- `done` is a return: whether the borders were merged, and the finder.
  unfoldable pub merge_with : Dict ℕ → Pixel → Target → Loop Finder (Option (Bool × Finder))
  merge_with idx px (stopped s) = done (some (false, s))
  merge_with idx px (missing s) = done (some (false, s))
  merge_with idx px (found q s) = elim (merge_into px q idx s) [
    | none ↦ done none
    | some t ↦ more t
  ]

  unfoldable pub merge_border : Dict ℕ → Pixel → Finder → Loop Finder (Option (Bool × Finder))
  merge_border idx px s =
      let polled = poll d bytes out s in
      if polled.do_estop
      then done (some (false, polled))
      else merge_with idx px (merge_target px.point polled)

  unfoldable pub merge_all : Dict ℕ → List Pixel → Finder → Option (Bool × Finder)
  merge_all idx [] s = some (true, s)
  merge_all idx (px ∷ rest) s = elim (merge_border idx px s) [
    | more t ↦ merge_all idx rest t
    | done r ↦ r
  ]

  unfoldable pub do_merge_borders : Dict ℕ → Finder → Option (Bool × Finder)
  do_merge_borders idx s = merge_all idx s.border_pixels s
