-- ===== src/Project/Graphics.antt =====
-- mod_dev_tool/project/src/ProvinceProject.cpp: the colours of the map, one for each pixel of the matrix
-- of provinces, as they are shown and as they are written out. The matrices and the colours are
-- functions of an index, as for the shapes; the warnings are not modelled.
pub mod Cells
pub mod Colored
mod Tests
use ho_i4_mod_development_to.Base.{ℕ, ◌+◌, ◌*◌, ◌%◌, ◌^◌, Option, none, some, if◌then◌else◌}
use ho_i4_mod_development_to.Status.{Maybe, ok, error}
use ho_i4_mod_development_to.Project.{
  ProvinceId, Province, Project, is_valid_province_id, get_province_for_id,
}
use ho_i4_mod_development_to.Project.Merging.{get_root_province_parent}
use ho_i4_mod_development_to.Shapes.{Point2d, Dimensions, xy_to_index}
use ho_i4_mod_development_to.Shapes.Loops.{Loop, more, done, for_pixels}
use ho_i4_mod_development_to.Shapes.Finder.{write}

abbrev pub Image : Type 0
Image = ℕ → ℕ

-- The outer loop is over the columns.
abbrev pub turned : Point2d → Point2d
turned p = record { x = p.y; y = p.x }

abbrev pub for_columns : {S R : Type 0} → (Point2d → S → Loop S R) → Dimensions → S → Loop S R
for_columns step d s = for_pixels (λ p. step (turned p)) (record { w = d.h; h = d.w }) s

-- `gindex`: three bytes for a pixel.
unfoldable pub cell : Dimensions → Point2d → ℕ
cell d p = xy_to_index (d.w * 3 % 2 ^ 32) (p.x * 3 % 2 ^ 32) p.y

-- The three writes of a pixel.
unfoldable pub write_cell : ℕ → ℕ → ℕ → ℕ → Image → Image
write_cell i a b c m = write (i + 2) c (write (i + 1) b (write i a m))

module _ (d : Dimensions) (labels : ℕ → ProvinceId) (p : Project) where
  -- A pixel of no province keeps its colour.
  unfoldable pub color_pixel : Point2d → Image → Loop Image Unit
  color_pixel q data_ = elim (get_province_for_id (labels (xy_to_index d.w q.x q.y)) p) [
    | none ↦ more data_
    | some prov ↦
        more
          (write_cell (cell d q) prov.unique_color.b prov.unique_color.g prov.unique_color.r data_)
  ]

  -- The loop never returns.
  unfoldable pub build_graphics_data : Image → Loop Image Unit
  build_graphics_data data_ = for_columns color_pixel d data_

  -- What the function returns from within the loop: `none` where the climb to the root has not ended,
  -- `some none` for `nullptr`.
  unfoldable pub export_pixel : ℕ → Point2d → Image → Loop Image (Option (Option Image))
  export_pixel fuel q data_ =
      let id = labels (xy_to_index d.w q.x q.y) in
      if is_valid_province_id id p
      then (elim (get_root_province_parent fuel id p) [
        | none ↦ done none
        | some (error s) ↦ done (some none)
        | some (ok root) ↦ elim (get_province_for_id root p) [
          | none ↦ done (some none)
          | some prov ↦ more (
              write_cell (cell d q) prov.unique_color.r prov.unique_color.g prov.unique_color.b
                data_)
        ]
      ])
      else more data_

  -- `fresh` is what the new array holds.
  unfoldable pub get_province_colors_for_export : ℕ → Image → Option (Option Image)
  get_province_colors_for_export fuel fresh = elim (for_columns (export_pixel fuel) d fresh) [
    | more data_ ↦ some (some data_)
    | done r ↦ r
  ]
