-- ===== src/Shapes/Finder/Labels.antt =====
-- pass1: the labels of the pixels before the next one, and what its neighbours offer.
use ho_i4_mod_development_to.Base.{
  ℕ, suc, ◌-◌, ◌≡◌, refl, sym, ◌∙◌, true, false, none, some, [], ◌⊎◌, inl, inr, ◌==◌, arith,
  Bool-cases, Option-cases, subst,
}
use mathlib.Core.Option.{some-injective}
use ho_i4_mod_development_to.Colors.{Color, do_colors_match, border_color}
use ho_i4_mod_development_to.Project.{ProvinceId, invalid_province}
use ho_i4_mod_development_to.Shapes.{
  Point2d, Dimensions, Pixel, Direction, left, up, get_adjacent_pixel,
}
use ho_i4_mod_development_to.Shapes.Neighbours.{
  IsInside, is_border, neighbour, get_adjacent_pixel_lem,
}
use ho_i4_mod_development_to.Shapes.Loops.{is_seen}
use ho_i4_mod_development_to.Shapes.Finder.{
  Outside, Pass1, color_of, get_adjacent_point, get_label_and_color, adjacent_label,
}
use ho_i4_mod_development_to.Shapes.Finder.Matrix.{Fits, eq_of_match, match_self, at}
use ho_i4_mod_development_to.Shapes.Finder.Trees.{Tree, Serves, Offers}

module _ (d : Dimensions) (bytes : ℕ → ℕ) (fits : Fits d) where
  pub left_seen :
      (p q : Point2d)
      → IsInside d p
      → neighbour d p left ≡ some q
      → IsInside d q × (is_seen p.x p.y q ≡ true)
  left_seen p q i e = elim (Bool-cases (p.x == 0)) [
    | inl t ↦ absurd (ground (arith, t, e))
    | inr t ↦
        let g : record p { x = p.x - 1 } ≡ q = some-injective _ _ (sym (ground (arith, t)) ∙ e) in
        subst (λ v. IsInside d v × (is_seen p.x p.y v ≡ true)) g (ground (arith, i, t))
  ]

  pub up_seen :
      (p q : Point2d)
      → IsInside d p
      → neighbour d p up ≡ some q
      → IsInside d q × (is_seen p.x p.y q ≡ true)
  up_seen p q i e = elim (Bool-cases (p.y == 0)) [
    | inl t ↦ absurd (ground (arith, t, e))
    | inr t ↦
        let g : record p { y = p.y - 1 } ≡ q = some-injective _ _ (sym (ground (arith, t)) ∙ e) in
        subst (λ v. IsInside d v × (is_seen p.x p.y v ≡ true)) g (ground (arith, i, t))
  ]

  -- A neighbour of another colour counts as a border.
  pub get_label_and_color_lem :
      (labels : ℕ → ProvinceId) (q : Point2d) (c : Color)
      → let r = get_label_and_color d bytes labels q c in
        (do_colors_match r.1 border_color ≡ true)
        ⊎ ((is_border d bytes q ≡ false)
            × (color_of d bytes q ≡ c)
            × (r.0 ≡ at d fits labels q)
            × (do_colors_match r.1 border_color ≡ false))
  unfolding get_label_and_color
  get_label_and_color_lem labels q c = elim (Bool-cases (is_border d bytes q)) [
    | inl b ↦ inl (ground (arith, b))
    | inr b ↦ elim (Bool-cases (do_colors_match (color_of d bytes q) c)) [
      | inl m ↦ inr (b, eq_of_match _ _ m, ground (arith, b, m), ground (arith, b, m))
      | inr m ↦ inl (ground (arith, b, m, match_self border_color))
    ]
  ]

  module _ (out : Outside) where
    -- After the pixels before (x, y): the labels, all made by the pass, and the links between them.
    pub record Labelled (x y : ℕ) (s : Pass1) : Type 0 where
      pub n : ℕ
      pub next : s.next_label ≡ out.fresh n
      pub count : s.finder.created ≡ suc n
      pub col : ProvinceId → Color
      pub tree : Tree out n col s.finder.label_parents
      pub served :
          (p : Point2d)
          → IsInside d p
          → is_seen x y p ≡ true
          → is_border d bytes p ≡ false
          → Serves out n col (color_of d bytes p) (at d fits s.finder.provinces p)
      pub unused : s.finder.border_pixels ≡ []

    adjacent_label-none :
        (labels : ℕ → ProvinceId) (p : Point2d) (c : Color) (dir : Direction)
        → get_adjacent_pixel d bytes p dir ≡ none
        → adjacent_label d bytes labels p c dir ≡ (invalid_province, border_color)
    unfolding adjacent_label get_adjacent_point
    adjacent_label-none labels p c dir e = rw (adjacent_label, get_adjacent_point, e) refl

    adjacent_label-some :
        (labels : ℕ → ProvinceId) (p : Point2d) (c : Color) (dir : Direction) (q : Pixel)
        → get_adjacent_pixel d bytes p dir ≡ some q
        → adjacent_label d bytes labels p c dir ≡ get_label_and_color d bytes labels q.point c
    unfolding adjacent_label get_adjacent_point
    adjacent_label-some labels p c dir q e = rw (adjacent_label, get_adjacent_point, e) refl

    -- What a neighbour offers, where the labels before the pixel serve.
    pub adjacent_label-Offers :
        (n : ℕ) (col : ProvinceId → Color) (labels : ℕ → ProvinceId) (p : Point2d) (dir : Direction)
        → IsInside d p
        → ((q : Point2d)
            → neighbour d p dir ≡ some q
            → is_border d bytes q ≡ false
            → Serves out n col (color_of d bytes q) (at d fits labels q))
        → Offers out n col
            (color_of d bytes p)
            (adjacent_label d bytes labels p (color_of d bytes p) dir)
    adjacent_label-Offers n col labels p dir i h =
        let c = color_of d bytes p in
        let m = get_adjacent_pixel_lem d bytes p dir fits.image i in
        elim (Option-cases (neighbour d p dir)) [
          | inl e ↦ inl (
              rw (adjacent_label-none labels p c dir (ground (arith, m, e)))
                (match_self border_color))
          | inr (q, e) ↦ elim (Bool-cases (is_border d bytes q)) [
            | inl b ↦ inl (
                rw (adjacent_label-none labels p c dir (ground (arith, m, e, b)))
                  (match_self border_color))
            | inr b ↦
                let a : adjacent_label d bytes labels p c dir
                    ≡ get_label_and_color d bytes labels q c =
                  adjacent_label-some labels p c dir
                    (record { point = q; color = color_of d bytes q }) (ground (arith, m, e, b)) in
                elim (get_label_and_color_lem labels q c) [
                  | inl y ↦ inl (rw a y)
                  | inr (_, same, l, y) ↦
                      let s = h q e b in
                      rw a (
                        inr (
                          y,
                          subst (λ z. Serves out n col c z) (sym l)
                              (subst (λ z. Serves out n col z (at d fits labels q)) same s),
                        ))
                ]
          ]
        ]
