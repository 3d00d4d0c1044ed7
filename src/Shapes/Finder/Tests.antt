-- ===== src/Shapes/Finder/Tests.antt =====
-- Images of a few pixels, red or black, and what the finder makes of them.
use ho_i4_mod_development_to.Base.{
  ℕ, zero, suc, ◌+◌, ◌%◌, ◌≤◌, ◌<◌, ◌≡◌, refl, true, false, ◌&&◌, ◌/◌, Option, none, some, List, [],
  ◌∷◌, map, elem, if◌then◌else◌, ◌==◌, ◌⊎◌, All, arith,
}
use ho_i4_mod_development_to.Base.Ord.{nat_ord}
use ho_i4_mod_development_to.Base.Dict
use ho_i4_mod_development_to.Base.Dict.{Dict}
use ho_i4_mod_development_to.Colors.{
  Palette, do_colors_match, color_to_rgb, fall_back, generate_unique_color, get_unique_color_ptr,
  reset_one, reset_unique_color_generator, set_unique_color_ptr, take_color, verify_colors_remain,
}
use ho_i4_mod_development_to.Project.{BoundingBox}
use ho_i4_mod_development_to.Shapes.{
  Point2d, Dimensions, Pixel, xy_to_index, get_color_at, get_adjacent_pixel, moved, is_in_image,
  calculate_adjacency, look,
}
use ho_i4_mod_development_to.Shapes.Neighbours.{IsInside, is_border}
use ho_i4_mod_development_to.Shapes.Finder.{
  Outside, Finder, start, finished, get_root_label, climb, link_labels, get_adjacent_point,
  do_pass1, label_pixel, visit_pixel, pick_label, adjacent_label, use_label, color_label,
  get_label_and_color,
}
use ho_i4_mod_development_to.Shapes.Finder.Second.{
  add_to_label, build_shape, do_pass2, ensure_shape, get_province_type, shape_pixel, sort_pixel,
}
use ho_i4_mod_development_to.Shapes.Finder.Borders.{
  do_merge_borders, merge_all, merge_border, merge_into, merge_target, merge_with, search,
  search_pixel,
}
use ho_i4_mod_development_to.Shapes.Finder.Matrix.{Fits}
use ho_i4_mod_development_to.Shapes.Finder.Trees.{IsFresh}
use ho_i4_mod_development_to.Shapes.Finder.Roots.{Leads, IsDescending, get_root_label_lem}
use ho_i4_mod_development_to.Shapes.Finder.Linking.{link_labels_lem}
use ho_i4_mod_development_to.Shapes.Finder.Run.{
  find_all_shapes, returned, first_pass, first_output, last_pass, output_stage, second_output,
  second_pass, third_pass, unless_stopped,
}
use ho_i4_mod_development_to.Shapes.Finder.Whole.{Whole}
use ho_i4_mod_development_to.Shapes.Finder.Correct.{find_all_shapes_lem}
use ho_i4_mod_development_to.Shapes.Finder.Finishes.{find_all_shapes_finishes}
use ho_i4_mod_development_to.Shapes.Finder.Corner.{IsStranded, find_all_shapes_stranded}
use ho_i4_mod_development_to.Shapes.Finder.Finalize.{
  box_of, adjacent_to, calculate_adjacencies, conclude, do_finalize, empty_box, extend_box,
  finalize_shapes, number_pixels,
}
use ho_i4_mod_development_to.Shapes.Finder.Box.{Holds, IsWithin, box_of_lem}

-- The bytes of an image that is red at the pixels with these indices.
abbrev red_at : List ℕ → ℕ → ℕ
red_at reds i = if i % 3 == 0 && elem (i / 3) reds then 255 else 0

abbrev palette : Palette
palette = record { start = λ _. 0; size = λ _. 30; byte = λ i. i }

-- The first label is greater than the two after it.
abbrev fresh : ℕ → ℕ
fresh zero = 3
fresh (suc zero) = 1
fresh (suc (suc zero)) = 2
fresh (suc (suc (suc n))) = n + 4

abbrev outside : Outside
outside = record {
  order = nat_ord;
  fresh = fresh;
  estop = λ _. false;
  palette = palette;
  output_stages = true;
}

abbrev new_finder : Finder
new_finder = record {
  label_parents = [];
  border_pixels = [];
  label_to_color = [];
  do_estop = false;
  stage = start;
  shapes = [];
  provinces = λ _. 0;
  label_matrix = λ _. 0;
  generator = record { land_ptr = 0; sea_ptr = 0; lake_ptr = 0; unknown_ptr = 0 };
  created = 0;
  tests = 0;
}

fresh_distinct : (i j : ℕ) → fresh i ≡ fresh j → i ≡ j
fresh_distinct i j e = ground arith

outside-IsFresh : IsFresh outside
outside-IsFresh = record { distinct = fresh_distinct; valid = λ i e. ground (arith, e) }

-- Five columns and three rows, where all red pixels are connected:
--   . . # # #
--   # # # . #
--   . . . # #
abbrev size : Dimensions
size = record { w = 5; h = 3 }

abbrev bytes : ℕ → ℕ
bytes = red_at (2 ∷ 3 ∷ 4 ∷ 5 ∷ 6 ∷ 7 ∷ 9 ∷ 13 ∷ 14 ∷ [])

abbrev ids : Option Finder → List ℕ
ids none = []
ids (some s) = map (λ p. p.id) s.shapes

abbrev small : Dimensions
small = record { w = 3; h = 1 }

-- A red pixel and two black ones.
abbrev small_bytes : ℕ → ℕ
small_bytes = red_at (0 ∷ [])

-- The links of the labels 3 and 2 to 1.
abbrev links : Dict ℕ
links = (2, 1) ∷ (3, 1) ∷ []

links-IsDescending : IsDescending nat_ord links
links-IsDescending k v e = ground (arith, e)

size-Fits : Fits size
size-Fits = record { image = record { wide = omega arith; high = omega arith }; area = omega arith }

small-Fits : Fits small
small-Fits = record {
  image = record { wide = omega arith; high = omega arith };
  area = omega arith;
}

-- The red pixels are one piece, but the parent of the label 3 is overwritten, so they are two shapes.
find_all_shapes_splits : ids (find_all_shapes size bytes outside new_finder) ≡ 2 ∷ 1 ∷ []
unfolding find_all_shapes returned first_pass do_pass1 label_pixel visit_pixel do_colors_match
    get_color_at xy_to_index pick_label adjacent_label get_adjacent_point get_adjacent_pixel
    is_in_image moved use_label color_label get_label_and_color color_to_rgb fall_back
    generate_unique_color get_unique_color_ptr reset_one reset_unique_color_generator
    set_unique_color_ptr take_color verify_colors_remain do_merge_borders merge_all merge_border
    merge_into merge_target merge_with search search_pixel adjacent_to box_of calculate_adjacencies
    conclude do_finalize empty_box extend_box finalize_shapes number_pixels first_output last_pass
    output_stage second_output second_pass third_pass unless_stopped add_to_label build_shape
    do_pass2 ensure_shape get_province_type shape_pixel sort_pixel climb get_root_label link_labels
    calculate_adjacency look
find_all_shapes_splits = refl

get_root_label_example :
    (root : ℕ) × (get_root_label links 3 ≡ some root)
    × Leads links 3 root
    × (Dict.lookup root links ≡ none)
get_root_label_example = get_root_label_lem nat_ord links 3 links-IsDescending

link_labels_example :
    (root : ℕ) × (after : Dict ℕ) × (link_labels nat_ord 3 5 links ≡ some (root, after))
    × (get_root_label after 3 ≡ some root)
    × (get_root_label after 5 ≡ some root)
    × IsDescending nat_ord after
link_labels_example = link_labels_lem nat_ord links 3 5 links-IsDescending (λ e. ground (arith, e))

find_all_shapes_example :
    (t : Finder) × (find_all_shapes size bytes outside new_finder ≡ some t)
    × ((t.stage ≡ finished) × Whole size bytes size-Fits t.provinces t.shapes ⊎ (t.shapes ≡ []))
find_all_shapes_example =
    find_all_shapes_lem size bytes size-Fits outside outside-IsFresh new_finder refl refl

find_all_shapes_finishes_example :
    (t : Finder) × (find_all_shapes size bytes outside new_finder ≡ some t)
    × (t.stage ≡ finished)
    × Whole size bytes size-Fits t.provinces t.shapes
unfolding get_color_at xy_to_index do_colors_match
find_all_shapes_finishes_example =
    find_all_shapes_finishes size bytes size-Fits outside outside-IsFresh (λ _. refl)
      (record { x = 4; y = 2 }) (omega arith, omega arith) (refl, refl) refl new_finder refl refl
      refl

black_right : (q : Point2d) → IsInside small q → 2 ≤ q.x → is_border small small_bytes q ≡ true
unfolding get_color_at xy_to_index do_colors_match
black_right q i h =
    let a : q.x ≡ 2 = omega (arith, i.0, h) in
    let b : q.y ≡ 0 = omega (arith, i.1) in rw (a, b) refl

small-IsStranded : IsStranded small small_bytes (record { x = 2; y = 0 })
unfolding get_adjacent_point get_adjacent_pixel get_color_at xy_to_index moved is_in_image
    do_colors_match
small-IsStranded = record {
  inside = (omega arith, omega arith);
  to_left = refl;
  above = refl;
  below = refl;
  borders = λ q i h k. black_right q i h;
}

find_all_shapes_stranded_example :
    (t : Finder) × (find_all_shapes small small_bytes outside new_finder ≡ some t) × (t.shapes ≡ [])
find_all_shapes_stranded_example =
    find_all_shapes_stranded small small_bytes outside (record { x = 2; y = 0 }) small-IsStranded
      small-Fits outside-IsFresh new_finder refl refl

abbrev pixel_at : ℕ → ℕ → Pixel
pixel_at x y = record { point = record { x = x; y = y }; color = record { r = 255; g = 0; b = 0 } }

box_of_example :
    let b = box_of size (pixel_at 3 1 ∷ pixel_at 1 2 ∷ []) in
    All (Holds b) (pixel_at 3 1 ∷ pixel_at 1 2 ∷ [])
    × ((c : BoundingBox)
        → c.left ≤ 5
        → c.top ≤ 3
        → All (Holds c) (pixel_at 3 1 ∷ pixel_at 1 2 ∷ [])
        → IsWithin b c)
    × ((b.left ≤ b.right) × (b.right < 5))
    × ((b.top ≤ b.bottom) × (b.bottom < 3))
box_of_example =
    box_of_lem size (pixel_at 3 1) (pixel_at 1 2 ∷ [])
      ((omega arith, omega arith), ((omega arith, omega arith), tt))
