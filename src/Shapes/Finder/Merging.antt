-- ===== src/Shapes/Finder/Merging.antt =====
-- mergeBorders: the pixel that a border pixel merges with is one that is no border.
use ho_i4_mod_development_to.Base.{
  ℕ, ◌-◌, ◌≡◌, refl, sym, ◌∙◌, Bool, false, some, inl, inr, if◌then◌else◌, arith, Bool-cases,
  Option-cases, subst,
}
use mathlib.Core.Option.{some-injective}
use ho_i4_mod_development_to.Shapes.{Point2d, Dimensions, Direction, left, up, down}
use ho_i4_mod_development_to.Shapes.Neighbours.{
  IsInside, is_border, neighbour, get_adjacent_pixel_lem, neighbour_back,
}
use ho_i4_mod_development_to.Shapes.Loops.{point, Loop, more, done, Ends, for_rows-Ends}
use ho_i4_mod_development_to.Shapes.Finder.{Outside, Finder, get_adjacent_point, poll}
use ho_i4_mod_development_to.Shapes.Finder.Borders.{
  Target, found, stopped, missing, search_pixel, search, merge_target,
}
use ho_i4_mod_development_to.Shapes.Finder.Matrix.{Fits}

-- A test of m_do_estop changes neither the shapes nor the labels.
abbrev pub Same : Finder → Finder → Type 0
Same s t = (t.provinces ≡ s.provinces) × (t.shapes ≡ s.shapes)

module _ (d : Dimensions) (bytes : ℕ → ℕ) (fits : Fits d) (out : Outside) where
  -- A pixel to merge with is in the image and is no border.
  abbrev pub IsTarget : Finder → Target → Type 0
  IsTarget s (found q t) = IsInside d q × (is_border d bytes q ≡ false) × Same s t
  IsTarget s (stopped t) = Unit
  IsTarget s (missing t) = Unit

  search_pixel-Ends :
      (s t : Finder) (x y : ℕ)
      → IsInside d (point x y)
      → Same s t
      → Ends (Same s) (IsTarget s) (search_pixel d bytes out (point x y) t)
  unfolding search_pixel
  search_pixel-Ends s t x y i h =
      let polled = poll d bytes out t in
      let rest : Bool → Loop Finder Target =
        λ b. if b then more polled else done (found (point x y) polled) in
      let E = λ (v : Bool).
        Ends (Same s) (IsTarget s)
          (if v then done (stopped polled) else rest (is_border d bytes (point x y))) in
      elim (Bool-cases polled.do_estop) [
        | inl e ↦ subst E (sym e) tt
        | inr e ↦ subst E (sym e) (elim (Bool-cases (is_border d bytes (point x y))) [
          | inl b ↦ subst (λ v. Ends (Same s) (IsTarget s) (rest v)) (sym b) h
          | inr b ↦ subst (λ v. Ends (Same s) (IsTarget s) (rest v)) (sym b) (i, b, h)
        ])
      ]

  search-IsTarget : (p : Point2d) (s : Finder) → IsInside d p → IsTarget s (search d bytes out p s)
  unfolding search
  search-IsTarget p s (a, b) = outcome _ (
      for_rows-Ends (search_pixel d bytes out) (λ x y. Same s) (IsTarget s) p.x d.w d.h
        (λ x y t i j h. search_pixel-Ends s t x y (i, j) h) (λ y t h. h) (d.w - p.x)
        (omega (arith, a)) (d.h - p.y) p.y s (omega (arith, b)) (refl, refl))
    where
      outcome :
          (l : Loop Finder Target)
          → Ends (Same s) (IsTarget s) l
          → IsTarget s (elim l [ more t ↦ missing t | done t ↦ t ])
      outcome (more t) h = tt
      outcome (done t) h = h

  get_adjacent_point-IsTarget :
      (p q : Point2d) (dir : Direction)
      → IsInside d p
      → get_adjacent_point d bytes p dir ≡ some q
      → IsInside d q × (is_border d bytes q ≡ false)
  unfolding get_adjacent_point
  get_adjacent_point-IsTarget p q dir i e =
      let m = get_adjacent_pixel_lem d bytes p dir fits.image i in
      elim (Option-cases (neighbour d p dir)) [
        | inl n ↦ absurd (ground (arith, m, n, e))
        | inr (r, n) ↦ elim (Bool-cases (is_border d bytes r)) [
          | inl t ↦ absurd (ground (arith, m, n, t, e))
          | inr t ↦
              let g : r ≡ q = some-injective _ _ (sym (ground (arith, m, n, t)) ∙ e) in
              subst (λ v. IsInside d v × (is_border d bytes v ≡ false)) g
                ((neighbour_back d p r dir i n).0, t)
        ]
      ]

  pub merge_target-IsTarget :
      (p : Point2d) (s : Finder) → IsInside d p → IsTarget s (merge_target d bytes out p s)
  unfolding merge_target
  merge_target-IsTarget p s i = elim (Option-cases (get_adjacent_point d bytes p left)) [
    | inr (q, e) ↦
        let (a, b) = get_adjacent_point-IsTarget p q left i e in
        rw (merge_target, e) (a, b, (refl, refl))
    | inl e ↦ elim (Option-cases (get_adjacent_point d bytes p up)) [
      | inr (q, f) ↦
          let (a, b) = get_adjacent_point-IsTarget p q up i f in
          rw (merge_target, e, f) (a, b, (refl, refl))
      | inl f ↦ elim (Option-cases (get_adjacent_point d bytes p down)) [
        | inr (q, g) ↦
            let (a, b) = get_adjacent_point-IsTarget p q down i g in
            rw (merge_target, e, f, g) (a, b, (refl, refl))
        | inl g ↦ rw (merge_target, e, f, g) (search-IsTarget p s i)
      ]
    ]
  ]
