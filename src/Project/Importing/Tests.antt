-- ===== src/Project/Importing/Tests.antt =====
-- The provinces of an image of two pixels with a colour each.
use ho_i4_mod_development_to.Base.{
  ℕ, zero, suc, ◌+◌, ◌≡◌, ◌≢◌, refl, some, List, [], ◌∷◌, get_elem?, if◌then◌else◌, ◌==◌, arith,
  Bool-cases, inl, inr, All, subst,
}
use mathlib.Core.Option.{some-injective}
use ho_i4_mod_development_to.Colors.{Color}
use ho_i4_mod_development_to.Project.{ProvinceId, Project}
use ho_i4_mod_development_to.Project.Graphics.{Image, get_province_colors_for_export}
use ho_i4_mod_development_to.Project.Graphics.Cells.{IsDrawable}
use ho_i4_mod_development_to.Project.Importing.Imported.{IsApart, imported, import_lem}
use ho_i4_mod_development_to.Shapes.{Point2d, Dimensions, xy_to_index, get_color_at}
use ho_i4_mod_development_to.Shapes.Neighbours.{IsInside}
use ho_i4_mod_development_to.Shapes.Loops.{point}
use ho_i4_mod_development_to.Shapes.Finder.{Polygon, color_of}
use ho_i4_mod_development_to.Shapes.Finder.Matrix.{Fits, at}
use ho_i4_mod_development_to.Shapes.Finder.Editing.{count}
use ho_i4_mod_development_to.Shapes.Finder.Whole.{Whole}

abbrev pair : Dimensions
pair = record { w = 2; h = 1 }

pair-Fits : Fits pair
pair-Fits = record { image = record { wide = omega arith; high = omega arith }; area = omega arith }

pair-IsDrawable : IsDrawable pair
pair-IsDrawable = record {
  image = record { wide = omega arith; high = omega arith };
  bytes = omega arith;
}

abbrev bytes : Image
bytes i = i + 1

abbrev labels : ℕ → ProvinceId
labels i = i + 5

abbrev one_pixel : ℕ → Color → Polygon
one_pixel x unique_color = record {
  id = x + 5;
  pixels = record { point = point x 0; color = color_of pair bytes (point x 0) } ∷ [];
  color = color_of pair bytes (point x 0);
  unique_color = unique_color;
  bounding_box = record { left = x; bottom = 0; right = x; top = 0 };
  adjacent_labels = [];
}

abbrev left_shape : Polygon
left_shape = one_pixel 0 (record { r = 1; g = 2; b = 3 })

abbrev right_shape : Polygon
right_shape = one_pixel 1 (record { r = 4; g = 5; b = 6 })

abbrev shapes : List Polygon
shapes = left_shape ∷ right_shape ∷ []

-- A shape of the list is one of the two.
two_shapes :
    (P : ℕ → Polygon → Type 0)
    → P 0 left_shape
    → P 1 right_shape
    → (i : ℕ) (s : Polygon) → get_elem? shapes i ≡ some s
    → P i s
two_shapes P a b zero s e = subst (P 0) (some-injective _ _ e) a
two_shapes P a b (suc zero) s e = subst (P 1) (some-injective _ _ e) b
two_shapes P a b (suc (suc i)) s e = absurd cc

shapes-IsApart : IsApart shapes
shapes-IsApart i j s t a b =
    two_shapes (λ i s. s.id ≡ t.id → i ≡ j)
      (two_shapes (λ j t. 5 ≡ t.id → 0 ≡ j) (λ e. refl) (λ e. absurd (omega (arith, e))) j t b)
      (two_shapes (λ j t. 6 ≡ t.id → 1 ≡ j) (λ e. absurd (omega (arith, e))) (λ e. refl) j t b) i s
      a

-- A pixel of the image is one of the two.
two_points :
    (P : Point2d → Type 0) → P (point 0 0) → P (point 1 0) → (p : Point2d) → IsInside pair p → P p
two_points P a b p i =
    let y : 0 ≡ p.y = omega (arith, i.1) in
    elim (Bool-cases (p.x == 0)) [
      | inl t ↦ subst (λ q. P q) (let e : point 0 0 ≡ p = ground (arith, y, t) in e) a
      | inr t ↦
          let x : 1 ≡ p.x = ground (arith, t, i.0) in
          subst (λ q. P q) (let e : point 1 0 ≡ p = ground (arith, y, x) in e) b
    ]

abbrev Exact : Polygon → Point2d → Type 0
Exact s p = count p s.pixels ≡ (if at pair pair-Fits labels p == s.id then 1 else 0)

abbrev OneColor : Polygon → Point2d → Type 0
OneColor s p = at pair pair-Fits labels p ≡ s.id → color_of pair bytes p ≡ s.color

shapes-Whole : Whole pair bytes pair-Fits labels shapes
unfolding get_color_at xy_to_index
shapes-Whole = record {
  covers =
      two_points
        (λ p.
          (i : ℕ) × (s : Polygon) × (get_elem? shapes i ≡ some s)
          × (s.id ≡ at pair pair-Fits labels p))
        (0, left_shape, refl, refl) (1, right_shape, refl, refl);
  apart = shapes-IsApart;
  exact = λ i s p g h.
      two_shapes (λ j t. Exact t p) (two_points (Exact left_shape) refl refl p h)
        (two_points (Exact right_shape) refl refl p h) i s g;
  within =
      two_shapes
        (λ j t. All (λ x. IsInside pair x.point × (x.color ≡ color_of pair bytes x.point)) t.pixels)
        (((omega arith, omega arith), refl), tt) (((omega arith, omega arith), refl), tt);
  one_color = λ i s p g h b e.
      two_shapes (λ j t. OneColor t p)
        (two_points (OneColor left_shape) (λ e. refl) (λ e. absurd (omega (arith, e))) p h)
        (two_points (OneColor right_shape) (λ e. absurd (omega (arith, e))) (λ e. refl) p h) i s g
        e;
}

abbrev empty : Project
empty = record {
  provinces = [];
  states = [];
  available_state_ids = [];
  province_matrix = [];
  state_id_matrix = [];
  colors = record { land_ptr = 0; sea_ptr = 0; lake_ptr = 0; unknown_ptr = 0 };
}

import_example :
    (out : Image) × (get_province_colors_for_export pair labels (imported shapes empty) 1 bytes
      ≡ some (some out))
    × ((q : Point2d)
        → IsInside pair q
        → (i : ℕ) × (s : Polygon) × (get_elem? shapes i ≡ some s)
          × (s.id ≡ labels (xy_to_index 2 q.x q.y))
          × (get_color_at pair out q.x q.y ≡ s.unique_color))
import_example =
    import_lem pair bytes pair-Fits pair-IsDrawable labels shapes empty shapes-Whole
      (two_shapes (λ i s. s.id ≢ 0) (λ e. omega (arith, e)) (λ e. omega (arith, e))) 0 bytes
