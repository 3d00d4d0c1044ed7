-- ===== src/Project/Outlines/Meeting.antt =====
-- Where provinces meet, and what one pixel adds to the neighbours of its province.
use ho_i4_mod_development_to.Base.{
  ℕ, ◌≡◌, refl, sym, ◌∙◌, ap, subst, true, false, some, List, inl, inr, ◌⊎◌, arith, Bool-cases,
  Option-cases,
}
use mathlib.Core.Option.{some-injective}
use ho_i4_mod_development_to.Base.Ord.{Ord}
use ho_i4_mod_development_to.Base.OrdSet
use ho_i4_mod_development_to.Colors.{Color, border_color, do_colors_match}
use ho_i4_mod_development_to.Project.{ProvinceId}
use ho_i4_mod_development_to.Project.Graphics.{Image}
use ho_i4_mod_development_to.Shapes.{
  Point2d, Dimensions, Pixel, Direction, left, right, up, down, xy_to_index, get_color_at,
  get_adjacent_pixel, calculate_adjacency, moved, is_in_image,
}
use ho_i4_mod_development_to.Shapes.Neighbours.{
  IsImage, IsInside, is_border, opposite, get_adjacent_pixel_back,
}
use ho_i4_mod_development_to.Shapes.Adjacency.{sees_label, calculate_adjacency-sees}

match_sym : (a b : Color) → do_colors_match a b ≡ do_colors_match b a
unfolding do_colors_match
match_sym a b = ground arith

-- A neighbour has the colour of its point.
adjacent_color :
    (d : Dimensions) (bytes : Image) (q : Point2d) (dir : Direction) (r : Pixel)
    → get_adjacent_pixel d bytes q dir ≡ some r
    → r.color ≡ get_color_at d bytes r.point.x r.point.y
unfolding get_adjacent_pixel
adjacent_color d bytes q dir r e =
    let n = moved dir q in
    let c = get_color_at d bytes n.x n.y in
    elim (Bool-cases (is_in_image d n.x n.y)) [
      | inr t ↦ absurd (ground (arith, t, e))
      | inl t ↦ elim (Bool-cases (do_colors_match c border_color)) [
        | inl u ↦ absurd (ground (arith, t, u, e))
        | inr u ↦
            let g : record { point = n; color = c } ≡ r =
              some-injective _ _ (sym (ground (arith, t, u)) ∙ e) in
            subst (λ v. v.color ≡ get_color_at d bytes v.point.x v.point.y) g refl
      ]
    ]

module _ (o : Ord ProvinceId) (d : Dimensions) (graphics : Image) (labels : ℕ → ProvinceId) where
  abbrev pub label_of : Point2d → ProvinceId
  label_of q = labels (xy_to_index d.w q.x q.y)

  -- A pixel of one province is next to a pixel of another colour, which is of the other province.
  pub record Meets (k l : ProvinceId) : Type 0 where
    pub from : Point2d
    pub to : Pixel
    pub dir : Direction
    pub inside : IsInside d from
    pub of_from : label_of from ≡ k
    pub of_to : label_of to.point ≡ l
    pub next : get_adjacent_pixel d graphics from dir ≡ some to
    pub differ : do_colors_match to.color (get_color_at d graphics from.x from.y) ≡ false

  -- Meeting goes both ways where no pixel is black.
  pub Meets-sym :
      IsImage d
      → ((q : Point2d) → IsInside d q → is_border d graphics q ≡ false)
      → (k l : ProvinceId) → Meets k l
      → Meets l k
  Meets-sym i colored k l m =
      let (inside, back) =
        get_adjacent_pixel_back d graphics m.from m.to m.dir i m.inside (colored m.from m.inside)
          m.next in
      record {
        from = m.to.point;
        to = record { point = m.from; color = get_color_at d graphics m.from.x m.from.y };
        dir = opposite m.dir;
        inside = inside;
        of_from = m.of_to;
        of_to = m.of_from;
        next = back;
        differ =
            match_sym _ _
            ∙ (ap (λ v. do_colors_match v (get_color_at d graphics m.from.x m.from.y))
                  (sym (adjacent_color d graphics m.from m.dir m.to m.next))
                ∙ m.differ);
      }

  -- What the pixel `q` adds.
  pub borders-Meets :
      (q : Point2d) (dir : Direction) (l : ProvinceId)
      → IsInside d q
      → sees_label o d graphics labels q dir l ≡ true
      → Meets (label_of q) l
  borders-Meets q dir l i b = elim (Option-cases (get_adjacent_pixel d graphics q dir)) [
    | inl e ↦ absurd (ground (arith, e, b))
    | inr (r, e) ↦
        let differ : do_colors_match r.color (get_color_at d graphics q.x q.y) ≡ false =
          ground (arith, e, b) in
        let same : OrdSet.same ⦃o = o⦄ l (label_of r.point) ≡ true = ground (arith, e, b, differ) in
        record {
          from = q;
          to = r;
          dir = dir;
          inside = i;
          of_from = refl;
          of_to = sym (OrdSet.same_iff ⦃o = o⦄ l (label_of r.point) same);
          next = e;
          differ = differ;
        }
  ]

  pub Meets-borders :
      (q : Point2d) (r : Pixel) (dir : Direction)
      → get_adjacent_pixel d graphics q dir ≡ some r
      → do_colors_match r.color (get_color_at d graphics q.x q.y) ≡ false
      → sees_label o d graphics labels q dir (label_of r.point) ≡ true
  Meets-borders q r dir e f = ground (arith, e, f, OrdSet.same_self ⦃o = o⦄ (label_of r.point))

  module _ (q : Point2d) (list : List ProvinceId) (sorted : OrdSet.IsSorted ⦃o = o⦄ list) where
    abbrev pub added : List ProvinceId
    added = (calculate_adjacency o d graphics labels list q).1

    pub added_from :
        (l : ProvinceId)
        → OrdSet.contains ⦃o = o⦄ l added ≡ true
        → ((dir : Direction) × (sees_label o d graphics labels q dir l ≡ true))
          ⊎ (OrdSet.contains ⦃o = o⦄ l list ≡ true)
    added_from l h =
        let (_, e, _) = calculate_adjacency-sees o d graphics labels q list sorted in
        let t = sym (e l) ∙ h in
        elim (Bool-cases (sees_label o d graphics labels q down l)) [
          | inl a ↦ inl (down, a)
          | inr a ↦ elim (Bool-cases (sees_label o d graphics labels q up l)) [
            | inl b ↦ inl (up, b)
            | inr b ↦ elim (Bool-cases (sees_label o d graphics labels q right l)) [
              | inl c ↦ inl (right, c)
              | inr c ↦ elim (Bool-cases (sees_label o d graphics labels q left l)) [
                | inl f ↦ inl (left, f)
                | inr f ↦ inr (ground (arith, t, a, b, c, f))
              ]
            ]
          ]
        ]

    pub added_to :
        (l : ProvinceId)
        → ((dir : Direction) × (sees_label o d graphics labels q dir l ≡ true))
          ⊎ (OrdSet.contains ⦃o = o⦄ l list ≡ true)
        → OrdSet.contains ⦃o = o⦄ l added ≡ true
    added_to l h =
        let (_, e, _) = calculate_adjacency-sees o d graphics labels q list sorted in
        let c = e l in
        elim h [
          | inl (left, b) ↦ ground (arith, c, b)
          | inl (right, b) ↦ ground (arith, c, b)
          | inl (up, b) ↦ ground (arith, c, b)
          | inl (down, b) ↦ ground (arith, c, b)
          | inr b ↦ ground (arith, c, b)
        ]
