-- ===== src/Shapes/Tests.antt =====
-- An image of two pixels, a red one and a blue one beside it, with the labels 1 and 2.
use ho_i4_mod_development_to.Base.{
  ℕ, ◌+◌, ◌≡◌, refl, true, false, ◌||◌, [], ◌∷◌, if◌then◌else◌, ◌==◌, arith,
}
use ho_i4_mod_development_to.Base.Ord.{nat_ord}
use ho_i4_mod_development_to.Base.OrdSet
use ho_i4_mod_development_to.Colors.{do_colors_match}
use ho_i4_mod_development_to.Project.{ProvinceId}
use ho_i4_mod_development_to.Shapes.{
  Point2d, Dimensions, left, up, right, down, xy_to_index, get_color_at, get_adjacent_pixel,
  calculate_adjacency, look, moved, is_in_image,
}
use ho_i4_mod_development_to.Shapes.Neighbours.{IsImage}
use ho_i4_mod_development_to.Shapes.Adjacency.{differs, borders, calculate_adjacency_lem}

abbrev two : Dimensions
two = record { w = 2; h = 1 }

abbrev bytes : ℕ → ℕ
bytes i = if i == 0 then 255 else (if i == 5 then 255 else 0)

abbrev labels : ℕ → ProvinceId
labels i = i + 1

abbrev at_left : Point2d
at_left = record { x = 0; y = 0 }

two-IsImage : IsImage two
two-IsImage = record { wide = omega arith; high = omega arith }

calculate_adjacency_example :
    let r = calculate_adjacency nat_ord two bytes labels [] at_left in
    let next = differs nat_ord two bytes labels at_left in
    let near = borders nat_ord two bytes labels at_left in
    (r.0 ≡ (next down || (next up || (next right || (next left || false)))))
    × ((l : ProvinceId)
        → OrdSet.contains ⦃o = nat_ord⦄ l r.1
          ≡ (near down l || (near up l || (near right l || (near left l || false)))))
    × OrdSet.IsSorted ⦃o = nat_ord⦄ r.1
calculate_adjacency_example =
    calculate_adjacency_lem nat_ord two bytes labels at_left two-IsImage (omega arith, omega arith)
      [] tt

-- The only neighbour is the blue pixel, whose label is 2.
calculate_adjacency_runs : calculate_adjacency nat_ord two bytes labels [] at_left ≡ (true, 2 ∷ [])
unfolding calculate_adjacency look get_adjacent_pixel get_color_at xy_to_index moved is_in_image
    do_colors_match
calculate_adjacency_runs = refl
