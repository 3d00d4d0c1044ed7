-- ===== src/Shapes/Finder.antt =====
-- mod_dev_tool/province_utils/src/ShapeFinder2.cpp: the state of ShapeFinder and its first pass over
-- the image, which labels every pixel. A label is the hash of its UUID, as a province's key is; the
-- order of the UUIDs is `o`. Another thread may call estop() before any test of m_do_estop.
pub mod Roots
pub mod Second
pub mod Borders
pub mod Fibres
pub mod Editing
pub mod Adding
pub mod Building
pub mod Sorting
pub mod Merging
pub mod Merged
pub mod Finalize
pub mod Run
pub mod Whole
pub mod Correct
pub mod Quiet
pub mod Searching
pub mod Finishes
pub mod Box
pub mod Corner
pub mod Linking
mod Tests
pub mod Labels
pub mod Using
pub mod First
pub mod Trees
pub mod Matrix
use ho_i4_mod_development_to.Base.{
  ℕ, zero, suc, ◌+◌, ◌%◌, ◌^◌, ◌≡◌, Bool, true, false, not, ◌&&◌, ◌||◌, Option, none, some, List,
  [], ◌∷◌, map, if◌then◌else◌, ◌==◌,
}
use ho_i4_mod_development_to.Base.Ord.{Ord}
use Prim.Native.Nat.{Ordering}
use ho_i4_mod_development_to.Base.Dict
use ho_i4_mod_development_to.Base.Dict.{Dict}
use ho_i4_mod_development_to.Colors.{
  Color, border_color, do_colors_match, ProvinceType, unknown, Palette, Generator,
  generate_unique_color,
}
use ho_i4_mod_development_to.Project.{ProvinceId, invalid_province, BoundingBox}
use ho_i4_mod_development_to.Shapes.{
  Point2d, Dimensions, Pixel, Direction, left, up, xy_to_index, get_color_at, get_adjacent_pixel,
}
use ho_i4_mod_development_to.Shapes.Loops.{Loop, more, done, or_none, for_pixels}

pub record Polygon : Type 0 where
  pub id : ProvinceId
  pub pixels : List Pixel
  pub color : Color
  pub unique_color : Color
  pub bounding_box : BoundingBox
  pub adjacent_labels : List ProvinceId

pub data Stage : Type 0 where
  start pass1 output_pass1 pass2 output_pass2 merge_borders error_check finished : Stage

-- What comes from elsewhere: the order of the UUIDs, the UUIDs that the platform makes one after the
-- other, the calls of estop, the arrays of colours, and the option to write out the stages.
pub record Outside : Type 0 where
  pub order : Ord ProvinceId
  pub fresh : ℕ → ProvinceId
  pub estop : ℕ → Bool
  pub palette : Palette
  pub output_stages : Bool

-- The members of ShapeFinder, with the matrices of the map data that it writes to, the pointers of
-- the colour generator, how many UUIDs were made, and how often m_do_estop was tested.
pub record Finder : Type 0 where
  pub label_parents : Dict ProvinceId
  pub border_pixels : List Pixel
  pub label_to_color : Dict Color
  pub do_estop : Bool
  pub stage : Stage
  pub shapes : List Polygon
  pub provinces : ℕ → ProvinceId
  pub label_matrix : ℕ → ℕ
  pub generator : Generator
  pub created : ℕ
  pub tests : ℕ

-- The locals of `pass1`.
pub record Pass1 : Type 0 where
  pub next_label : ProvinceId
  pub num_border_pixels : ℕ
  pub finder : Finder

-- A write to a matrix.
abbrev pub write : {A : Type 0} → ℕ → A → (ℕ → A) → ℕ → A
write i v m j = if i == j then v else m j

-- The default of `operator[]` is black.
abbrev pub touch : ProvinceId → Dict Color → Dict Color
touch l m = if Dict.has l m then m else Dict.insert l border_color m

-- The `while` loop on fuel: one more than the number of links is enough.
unfoldable pub climb : ℕ → Dict ProvinceId → ProvinceId → Option ProvinceId
climb zero parents root = none
climb (suc fuel) parents root = elim (Dict.lookup root parents) [
  | none ↦ some root
  | some parent ↦ climb fuel parents parent
]

unfoldable pub get_root_label : Dict ProvinceId → ProvinceId → Option ProvinceId
get_root_label parents label = climb (suc (Dict.size parents)) parents label

module _ (o : Ord ProvinceId) where
  abbrev pub is_less : ProvinceId → ProvinceId → Bool
  is_less a b = elim (o.cmp a b) [ Ordering.lt ↦ true | _ ↦ false ]

  -- std::min and std::max
  abbrev pub min_label : ProvinceId → ProvinceId → ProvinceId
  min_label a b = if is_less b a then b else a

  abbrev pub max_label : ProvinceId → ProvinceId → ProvinceId
  max_label a b = if is_less a b then b else a

  -- The root of the smaller label; the larger label gets the smaller one as its parent.
  unfoldable pub link_labels :
      ProvinceId → ProvinceId → Dict ProvinceId → Option (ProvinceId × Dict ProvinceId)
  link_labels label label_up parents =
      let smaller = min_label label label_up in
      let larger = max_label label label_up in
      elim (get_root_label parents smaller) [
        | none ↦ none
        | some root ↦ some (root, Dict.insert larger smaller parents)
      ]

  -- The label of a pixel from those to the left and above, each with its colour, and what becomes of
  -- the parents.
  unfoldable pub pick_label :
      ProvinceId
      → ProvinceId × Color
      → ProvinceId × Color
      → Dict ProvinceId
      → Option (ProvinceId × Dict ProvinceId)
  pick_label next_label (label_left, color_left) (label_up, color_up) parents =
      let label = if do_colors_match color_left border_color then next_label else label_left in
      if do_colors_match color_up border_color
      then some (label, parents)
      else (if label == next_label
          then some (label_up, parents)
          else (if label == label_up
              then some (label, parents)
              else link_labels label label_up parents))

module _ (d : Dimensions) (bytes : ℕ → ℕ) where
  abbrev pub color_of : Point2d → Color
  color_of p = get_color_at d bytes p.x p.y

  abbrev pub index_of : Point2d → ℕ
  index_of p = xy_to_index d.w p.x p.y

  unfoldable pub get_adjacent_point : Point2d → Direction → Option Point2d
  get_adjacent_point p dir = elim (get_adjacent_pixel d bytes p dir) [
    | none ↦ none
    | some q ↦ some q.point
  ]

  unfoldable pub get_label_and_color : (ℕ → ProvinceId) → Point2d → Color → ProvinceId × Color
  get_label_and_color labels p color =
      if not (do_colors_match (color_of p) border_color) && not (do_colors_match (color_of p) color)
      then (invalid_province, border_color)
      else (labels (index_of p), color_of p)

  -- EMPTY_UUID and BORDER_COLOR where there is no neighbour.
  unfoldable pub adjacent_label :
      (ℕ → ProvinceId) → Point2d → Color → Direction → ProvinceId × Color
  adjacent_label labels p color dir = elim (get_adjacent_point p dir) [
    | none ↦ (invalid_province, border_color)
    | some q ↦ get_label_and_color labels q color
  ]

  module _ (out : Outside) where
    abbrev pub poll : Finder → Finder
    poll s = record s { do_estop = s.do_estop || out.estop s.tests; tests = suc s.tests }

    -- A label that has no colour yet gets one.
    unfoldable pub color_label : ProvinceId → Finder → Finder
    color_label label s =
        if Dict.has label s.label_to_color
        then s
        else (if label == 0
            then record s { label_to_color = Dict.insert label border_color s.label_to_color }
            else (let (color, generator) = generate_unique_color out.palette unknown s.generator in
                record s {
                  label_to_color = Dict.insert label color s.label_to_color;
                  generator = generator;
                }))

    -- The label is written; `next_label` is replaced once it is used.
    unfoldable pub use_label : Point2d → Pass1 → ProvinceId × Dict ProvinceId → Pass1
    use_label p s (label, parents) =
        let f = record s.finder {
          provinces = write (index_of p) label s.finder.provinces;
          label_parents = parents;
        } in
        if label == s.next_label
        then record s {
          next_label = out.fresh f.created;
          finder = color_label label (record f { created = suc f.created });
        }
        else record s { finder = color_label label f }

    -- The body of the loops, after the test of m_do_estop; `none` is a climb that does not end.
    unfoldable pub visit_pixel : Point2d → Pass1 → Loop Pass1 (Option Finder)
    visit_pixel p s =
        let color = color_of p in
        let f = record s.finder {
          provinces = write (index_of p) s.next_label s.finder.provinces;
          label_matrix = write (index_of p) (s.next_label % 2 ^ 32) s.finder.label_matrix;
        } in
        let pick =
          pick_label out.order s.next_label (adjacent_label f.provinces p color left)
            (adjacent_label f.provinces p color up) f.label_parents in
        if do_colors_match color border_color
        then more (record s {
          num_border_pixels = (s.num_border_pixels + 1) % 2 ^ 32;
          finder = record f { label_matrix = write (index_of p) 0 f.label_matrix };
        })
        else or_none pick (λ r. more (use_label p (record s { finder = f }) r))

    unfoldable pub label_pixel : Point2d → Pass1 → Loop Pass1 (Option Finder)
    label_pixel p s =
        let polled = poll s.finder in
        if polled.do_estop then done (some polled) else visit_pixel p (record s { finder = polled })

    unfoldable pub do_pass1 : Finder → Loop Pass1 (Option Finder)
    do_pass1 s = for_pixels label_pixel d (record {
      next_label = out.fresh s.created;
      num_border_pixels = 0;
      finder = record s { created = suc s.created };
    })
