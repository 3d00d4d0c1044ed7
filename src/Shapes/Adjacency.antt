-- ===== src/Shapes/Adjacency.antt =====
-- calculateAdjacency: which labels it adds.
use ho_i4_mod_development_to.Base.{
  ℕ, ◌≡◌, ap, ◌∙◌, Bool, false, not, ◌&&◌, ◌||◌, none, some, List, arith, Option-cases, Bool-cases,
  inl, inr,
}
use ho_i4_mod_development_to.Base.Ord.{Ord}
use ho_i4_mod_development_to.Base.OrdSet
use ho_i4_mod_development_to.Colors.{do_colors_match}
use ho_i4_mod_development_to.Project.{ProvinceId}
use ho_i4_mod_development_to.Shapes.Neighbours.{
  IsImage, IsInside, is_border, neighbour, get_adjacent_pixel_lem,
}
use ho_i4_mod_development_to.Shapes.{
  Point2d, Dimensions, Direction, left, right, up, down, xy_to_index, get_color_at,
  get_adjacent_pixel, look, calculate_adjacency,
}

-- The four sides, one by one.
four :
    {a a' b b' c c' e e' : Bool}
    → a ≡ a'
    → b ≡ b'
    → c ≡ c'
    → e ≡ e'
    → (r : Bool) → (a || (b || (c || (e || r)))) ≡ (a' || (b' || (c' || (e' || r))))
four p q s t r = cc

module _ (o : Ord ProvinceId) (d : Dimensions) (bytes : ℕ → ℕ) (labels : ℕ → ProvinceId)
    (p : Point2d) where
  -- Whether `getAdjacentPixel` gives a pixel of another colour.
  abbrev pub sees : Direction → Bool
  sees dir = elim (get_adjacent_pixel d bytes p dir) [
    | none ↦ false
    | some q ↦ not (do_colors_match q.color (get_color_at d bytes p.x p.y))
  ]

  -- Whether the label is that of such a pixel.
  abbrev pub sees_label : Direction → ProvinceId → Bool
  sees_label dir l = elim (get_adjacent_pixel d bytes p dir) [
    | none ↦ false
    | some q ↦
        not (do_colors_match q.color (get_color_at d bytes p.x p.y))
        && OrdSet.same ⦃o = o⦄ l (labels (xy_to_index d.w q.point.x q.point.y))
  ]

  look_lem :
      (dir : Direction) (found : Bool) (list : List ProvinceId) (l : ProvinceId)
      → ((look o d bytes labels p dir (found, list)).0 ≡ (sees dir || found))
        × (OrdSet.contains ⦃o = o⦄ l (look o d bytes labels p dir (found, list)).1
            ≡ (sees_label dir l || OrdSet.contains ⦃o = o⦄ l list))
  unfolding look
  look_lem dir found list l = elim (Option-cases (get_adjacent_pixel d bytes p dir)) [
    | inl e ↦ (ground (arith, e), ground (arith, e))
    | inr (q, e) ↦
        let c =
          OrdSet.contains-insert ⦃o = o⦄ (labels (xy_to_index d.w q.point.x q.point.y)) l list in
        (ground (arith, e), ground (arith, e, c))
  ]

  look-IsSorted :
      (dir : Direction) (found : Bool) (list : List ProvinceId)
      → OrdSet.IsSorted ⦃o = o⦄ list
      → OrdSet.IsSorted ⦃o = o⦄ (look o d bytes labels p dir (found, list)).1
  unfolding look
  look-IsSorted dir found list h = elim (Option-cases (get_adjacent_pixel d bytes p dir)) [
    | inl e ↦ ground (arith, e, h)
    | inr (q, e) ↦
        let s =
          OrdSet.insert-IsSorted ⦃o = o⦄ (labels (xy_to_index d.w q.point.x q.point.y)) list h in
        ground (arith, e, h, s)
  ]

  -- The four sides in the order of the calls.
  pub calculate_adjacency-sees :
      (list : List ProvinceId)
      → OrdSet.IsSorted ⦃o = o⦄ list
      → let r = calculate_adjacency o d bytes labels list p in
        (r.0 ≡ (sees down || (sees up || (sees right || (sees left || false)))))
        × ((l : ProvinceId)
            → OrdSet.contains ⦃o = o⦄ l r.1 ≡ (
                sees_label down l
                || (sees_label up l
                    || (sees_label right l
                        || (sees_label left l || OrdSet.contains ⦃o = o⦄ l list)))))
        × OrdSet.IsSorted ⦃o = o⦄ r.1
  unfolding calculate_adjacency
  calculate_adjacency-sees list h =
      let a = look o d bytes labels p left (false, list) in
      let b = look o d bytes labels p right a in
      let c = look o d bytes labels p up b in
      (
        (look_lem down c.0 c.1 0).0
            ∙ ap (λ v. sees down || v)
                ((look_lem up b.0 b.1 0).0
                  ∙ ap (λ v. sees up || v)
                      ((look_lem right a.0 a.1 0).0
                        ∙ ap (λ v. sees right || v) ((look_lem left false list 0).0))),
        λ l.
            (look_lem down c.0 c.1 l).1
            ∙ ap (λ v. sees_label down l || v)
                ((look_lem up b.0 b.1 l).1
                  ∙ ap (λ v. sees_label up l || v)
                      ((look_lem right a.0 a.1 l).1
                        ∙ ap (λ v. sees_label right l || v) ((look_lem left false list l).1))),
        look-IsSorted down c.0 c.1 (
            look-IsSorted up b.0 b.1
              (look-IsSorted right a.0 a.1 (look-IsSorted left false list h))),
      )

  -- Whether the pixel to one side is in the image, is not black, and has another colour.
  abbrev pub differs : Direction → Bool
  differs dir = elim (neighbour d p dir) [
    | none ↦ false
    | some q ↦
        not (is_border d bytes q)
        && not (do_colors_match (get_color_at d bytes q.x q.y) (get_color_at d bytes p.x p.y))
  ]

  -- Whether the label is that of such a pixel.
  abbrev pub borders : Direction → ProvinceId → Bool
  borders dir l = elim (neighbour d p dir) [
    | none ↦ false
    | some q ↦
        not (is_border d bytes q)
        && (not (do_colors_match (get_color_at d bytes q.x q.y) (get_color_at d bytes p.x p.y))
            && OrdSet.same ⦃o = o⦄ l (labels (xy_to_index d.w q.x q.y)))
  ]

  sees_lem :
      IsImage d
      → IsInside d p
      → (dir : Direction) (l : ProvinceId)
      → (sees dir ≡ differs dir) × (sees_label dir l ≡ borders dir l)
  sees_lem i h dir l =
      let m = get_adjacent_pixel_lem d bytes p dir i h in
      elim (Option-cases (neighbour d p dir)) [
        | inl e ↦ (ground (arith, m, e), ground (arith, m, e))
        | inr (q, e) ↦ elim (Bool-cases (is_border d bytes q)) [
          | inl t ↦ (ground (arith, m, e, t), ground (arith, m, e, t))
          | inr t ↦ (ground (arith, m, e, t), ground (arith, m, e, t))
        ]
      ]

  -- In a pixel of the image, the function says whether a pixel next to it, over the four sides, is
  -- neither black nor of the colour of the pixel. To the set it adds exactly the labels of those, and the
  -- set stays in order.
  pub calculate_adjacency_lem :
      IsImage d
      → IsInside d p
      → (list : List ProvinceId) → OrdSet.IsSorted ⦃o = o⦄ list
      → let r = calculate_adjacency o d bytes labels list p in
        (r.0 ≡ (differs down || (differs up || (differs right || (differs left || false)))))
        × ((l : ProvinceId)
            → OrdSet.contains ⦃o = o⦄ l r.1 ≡ (
                borders down l
                || (borders up l
                    || (borders right l || (borders left l || OrdSet.contains ⦃o = o⦄ l list)))))
        × OrdSet.IsSorted ⦃o = o⦄ r.1
  calculate_adjacency_lem i h list s =
      let (found, named, sorted) = calculate_adjacency-sees list s in
      let e = λ (dir : Direction). (sees_lem i h dir 0).0 in
      let f = sees_lem i h in
      (
        found ∙ four (e down) (e up) (e right) (e left) false,
        (λ l.
            named l
            ∙ four (f down l).1 (f up l).1 (f right l).1 (f left l).1
                (OrdSet.contains ⦃o = o⦄ l list)),
        sorted,
      )
