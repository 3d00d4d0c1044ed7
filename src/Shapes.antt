-- ===== src/Shapes.antt =====
-- mod_dev_tool/province_utils/src/ShapeFinder2.cpp: the neighbours of a pixel, and the labels next to
-- it, with the index arithmetic of mod_dev_tool/common/src/Util.cpp. The image's bytes and the matrix
-- of labels are functions of an index; a uint32_t wraps around.
pub mod Neighbours
pub mod Adjacency
pub mod Loops
pub mod Finder
mod Tests
use ho_i4_mod_development_to.Base.{
  ℕ, ◌+◌, ◌*◌, ◌%◌, ◌^◌, ◌-◌, Bool, true, false, not, ◌&&◌, ◌||◌, Option, none, some, List,
  if◌then◌else◌, ltb,
}
use ho_i4_mod_development_to.Base.Ord.{Ord}
use ho_i4_mod_development_to.Base.OrdSet
use ho_i4_mod_development_to.Colors.{Color, border_color, do_colors_match}
use ho_i4_mod_development_to.Project.{ProvinceId}

pub record Point2d : Type 0 where
  pub x : ℕ
  pub y : ℕ

pub record Dimensions : Type 0 where
  pub w : ℕ
  pub h : ℕ

pub record Pixel : Type 0 where
  pub point : Point2d
  pub color : Color

pub data Direction : Type 0 where
  left up right down : Direction

unfoldable pub is_in_image : Dimensions → ℕ → ℕ → Bool
is_in_image d x y = ltb x d.w && ltb y d.h

unfoldable pub xy_to_index : ℕ → ℕ → ℕ → ℕ
xy_to_index w x y = (x + y * w) % 2 ^ 32

-- The depth is the default, three bytes.
unfoldable pub get_color_at : Dimensions → (ℕ → ℕ) → ℕ → ℕ → Color
get_color_at d bytes x y =
    let index = xy_to_index (d.w * 3 % 2 ^ 32) (x * 3 % 2 ^ 32) y in
    record { r = bytes index; g = bytes (index + 1); b = bytes (index + 2) }

-- One off 0 is the greatest uint32_t.
unfoldable pub moved : Direction → Point2d → Point2d
moved left p = record p { x = (p.x + (2 ^ 32 - 1)) % 2 ^ 32 }
moved right p = record p { x = (p.x + 1) % 2 ^ 32 }
moved up p = record p { y = (p.y + (2 ^ 32 - 1)) % 2 ^ 32 }
moved down p = record p { y = (p.y + 1) % 2 ^ 32 }

unfoldable pub get_adjacent_pixel : Dimensions → (ℕ → ℕ) → Point2d → Direction → Option Pixel
get_adjacent_pixel d bytes p dir =
    let q = moved dir p in
    let color = get_color_at d bytes q.x q.y in
    if not (is_in_image d q.x q.y)
    then none
    else (if do_colors_match color border_color
        then none
        else some (record { point = q; color = color }))

module _ (o : Ord ProvinceId) where
  -- One of the four blocks: the set and whether a neighbour was found.
  unfoldable pub look :
      Dimensions
      → (ℕ → ℕ)
      → (ℕ → ProvinceId)
      → Point2d
      → Direction
      → Bool × List ProvinceId
      → Bool × List ProvinceId
  look d bytes labels p dir (found, list) = elim (get_adjacent_pixel d bytes p dir) [
    | none ↦ (found, list)
    | some q ↦
        if do_colors_match q.color (get_color_at d bytes p.x p.y)
        then (found, list)
        else (true, OrdSet.insert ⦃o = o⦄ (labels (xy_to_index d.w q.point.x q.point.y)) list)
  ]

  unfoldable pub calculate_adjacency :
      Dimensions → (ℕ → ℕ) → (ℕ → ProvinceId) → List ProvinceId → Point2d → Bool × List ProvinceId
  calculate_adjacency d bytes labels list p = look d bytes labels p down (
      look d bytes labels p up
        (look d bytes labels p right (look d bytes labels p left (false, list))))
