-- ===== src/Shapes/Finder/Finalize.antt =====
-- finalize of ShapeFinder: the numbers of the shapes, their bounding boxes and their neighbours. The
-- warnings, about small and about large shapes, are not modelled; the small ones are counted.
use ho_i4_mod_development_to.Base.{
  ℕ, ◌+◌, ◌%◌, ◌^◌, min, max, Bool, true, false, Option, none, some, List, [], ◌∷◌, foldl, length,
  if◌then◌else◌, leb, ◌==◌,
}
use ho_i4_mod_development_to.Project.{ProvinceId, BoundingBox}
use ho_i4_mod_development_to.Shapes.{Dimensions, Pixel, calculate_adjacency}
use ho_i4_mod_development_to.Shapes.Finder.{Polygon, Outside, Finder, write, index_of, poll}

abbrev pub min_shape_size : ℕ
min_shape_size = 8

-- `left`, `right`, `bottom` and `top`, from which the box starts.
unfoldable pub empty_box : Dimensions → BoundingBox
empty_box d = record { left = d.w; bottom = 0; right = 0; top = d.h }

-- The rows count downwards, so the bottom is the greatest.
unfoldable pub extend_box : BoundingBox → Pixel → BoundingBox
extend_box b p = record {
  left = min p.point.x b.left;
  bottom = max p.point.y b.bottom;
  right = max p.point.x b.right;
  top = min p.point.y b.top;
}

unfoldable pub box_of : Dimensions → List Pixel → BoundingBox
box_of d pixels = foldl extend_box (empty_box d) pixels

module _ (d : Dimensions) (bytes : ℕ → ℕ) (out : Outside) where
  unfoldable pub number_pixels : ℕ → List Pixel → (ℕ → ℕ) → ℕ → ℕ
  number_pixels label [] m = m
  number_pixels label (p ∷ ps) m = number_pixels label ps (write (index_of d bytes p.point) label m)

  abbrev pub bounded : Polygon → Polygon
  bounded s = record s { bounding_box = box_of d s.pixels }

  -- The loop over the shapes: whether it was stopped, the shapes, how many are too small.
  unfoldable pub finalize_shapes : ℕ → ℕ → List Polygon → Finder → Bool × List Polygon × ℕ × Finder
  finalize_shapes label small [] s = (false, [], small, s)
  finalize_shapes label small (shape ∷ rest) s =
      let polled = poll d bytes out s in
      let next = (label + 1) % 2 ^ 32 in
      let numbered = record polled {
        label_matrix = number_pixels next shape.pixels polled.label_matrix;
      } in
      let count =
        if leb (length shape.pixels) min_shape_size then (small + 1) % 2 ^ 32 else small in
      let (stop, shapes, total, end) = finalize_shapes next count rest numbered in
      if polled.do_estop
      then (true, shape ∷ rest, small, polled)
      else (stop, bounded shape ∷ shapes, total, end)

  unfoldable pub adjacent_to : (ℕ → ProvinceId) → List Pixel → List ProvinceId → List ProvinceId
  adjacent_to labels [] list = list
  adjacent_to labels (p ∷ ps) list =
      adjacent_to labels ps (calculate_adjacency out.order d bytes labels list p.point).1

  unfoldable pub calculate_adjacencies : (ℕ → ProvinceId) → List Polygon → List Polygon
  calculate_adjacencies labels [] = []
  calculate_adjacencies labels (s ∷ ss) =
      record s { adjacent_labels = adjacent_to labels s.pixels s.adjacent_labels }
      ∷ calculate_adjacencies labels ss

  -- The end of `finalize`: a stop leaves the neighbours alone.
  unfoldable pub conclude : Bool × List Polygon × ℕ × Finder → Option ℕ × Finder
  conclude (true, shapes, small, s) = (none, record s { shapes = shapes })
  conclude (false, shapes, small, s) = (
    if small == 0 then none else some small,
    record s { shapes = calculate_adjacencies s.provinces shapes },
  )

  -- The number of shapes that are too small, if there are any, and the finder.
  unfoldable pub do_finalize : Finder → Option ℕ × Finder
  do_finalize s = conclude (finalize_shapes 0 0 s.shapes s)
