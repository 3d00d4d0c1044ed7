-- ===== src/Shapes/Finder/Matrix.antt =====
-- Reading a matrix of the image at a point: the pixels have different indices.
use ho_i4_mod_development_to.Base.{
  ℕ, ◌+◌, ◌*◌, ◌%◌, ◌^◌, ◌≤◌, ◌<◌, ◌≡◌, Bool, true, ◌&&◌, if◌then◌else◌, ◌==◌, arith,
}
use ho_i4_mod_development_to.Colors.{Color, do_colors_match}
use ho_i4_mod_development_to.Shapes.{Point2d, Dimensions, xy_to_index}
use ho_i4_mod_development_to.Shapes.Neighbours.{IsImage, IsInside}
use ho_i4_mod_development_to.Shapes.Finder.{write, index_of}

-- A uint32_t can count the pixels.
pub record Fits (d : Dimensions) : Type 0 where
  pub image : IsImage d
  pub area : d.w * d.h ≤ 2 ^ 32

abbrev pub same_point : Point2d → Point2d → Bool
same_point p q = p.x == q.x && p.y == q.y

pub same_point_self : (p : Point2d) → same_point p p ≡ true
same_point_self p = ground arith

pub eq_of_same_point : (p q : Point2d) → same_point p q ≡ true → p ≡ q
eq_of_same_point p q h = ground arith

pub eq_of_match : (c e : Color) → do_colors_match c e ≡ true → c ≡ e
unfolding do_colors_match
eq_of_match c e h = ground arith

pub match_self : (c : Color) → do_colors_match c c ≡ true
unfolding do_colors_match
match_self c = ground arith

module _ (d : Dimensions) (fits : Fits d) where
  pub below_area : (p : Point2d) → IsInside d p → p.x + p.y * d.w < d.w * d.h
  below_area p i = grind arith

  index-lt-index : (p q : Point2d) → p.x < d.w → p.y < q.y → p.x + p.y * d.w < q.x + q.y * d.w
  index-lt-index p q a b = grind arith

  pub index_inj :
      (bytes : ℕ → ℕ) (p q : Point2d)
      → IsInside d p
      → IsInside d q
      → (index_of d bytes p == index_of d bytes q) ≡ same_point p q
  unfolding xy_to_index
  index_inj bytes p q i j =
      let a : (p.x + p.y * d.w) % 2 ^ 32 ≡ p.x + p.y * d.w =
        omega (arith, below_area p i, fits.area) in
      let b : (q.x + q.y * d.w) % 2 ^ 32 ≡ q.x + q.y * d.w =
        omega (arith, below_area q j, fits.area) in
      ground (arith, a, b, index-lt-index p q i.0, index-lt-index q p j.0)

  -- What a matrix holds at a point.
  abbrev pub at : {A : Type 0} → (ℕ → A) → Point2d → A
  at m p = m (xy_to_index d.w p.x p.y)

  pub at-write :
      {A : Type 0} (bytes : ℕ → ℕ) (p q : Point2d) (v : A) (m : ℕ → A)
      → IsInside d p
      → IsInside d q
      → at (write (index_of d bytes p) v m) q ≡ (if same_point p q then v else at m q)
  at-write bytes p q v m i j = ground (arith, index_inj bytes p q i j)
