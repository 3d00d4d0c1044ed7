-- ===== src/Shapes/Finder/Whole.antt =====
-- What findAllShapes should give: the shapes of the labels, which part the image.
use ho_i4_mod_development_to.Base.{
  ℕ, zero, suc, ◌+◌, ◌%◌, ◌^◌, ◌≡◌, refl, sym, ◌∙◌, ap, Bool, true, false, some, List, [], ◌∷◌, map,
  length, inl, inr, if◌then◌else◌, leb, ◌==◌, get_elem?, All, Bool-cases, subst,
}
use mathlib.Core.Option.{some-injective}
use ho_i4_mod_development_to.Base.Dict
use ho_i4_mod_development_to.Base.Dict.{Dict}
use ho_i4_mod_development_to.Colors.{Color}
use ho_i4_mod_development_to.Project.{ProvinceId}
use ho_i4_mod_development_to.Shapes.{Point2d, Dimensions, Pixel}
use ho_i4_mod_development_to.Shapes.Neighbours.{IsInside, is_border}
use ho_i4_mod_development_to.Shapes.Finder.{Polygon, Outside, Finder, color_of, poll}
use ho_i4_mod_development_to.Shapes.Finder.Matrix.{Fits, at}
use ho_i4_mod_development_to.Shapes.Finder.Editing.{count}
use ho_i4_mod_development_to.Shapes.Finder.Finalize.{
  min_shape_size, number_pixels, bounded, finalize_shapes, calculate_adjacencies, conclude,
  do_finalize,
}
use ho_i4_mod_development_to.Shapes.Finder.Merged.{Waits}

-- What the last pass leaves of a shape.
abbrev pub core : Polygon → ProvinceId × List Pixel × Color
core s = (s.id, s.pixels, s.color)

get_elem?-map :
    (xs : List Polygon) (i : ℕ) (s : Polygon)
    → get_elem? xs i ≡ some s
    → get_elem? (map core xs) i ≡ some (core s)
get_elem?-map [] i s e = absurd cc
get_elem?-map (x ∷ xs) zero s e = ap (λ v. some (core v)) (some-injective _ _ e)
get_elem?-map (x ∷ xs) (suc i) s e = get_elem?-map xs i s e

get_elem?-unmap :
    (xs : List Polygon) (i : ℕ) (c : ProvinceId × List Pixel × Color)
    → get_elem? (map core xs) i ≡ some c
    → (s : Polygon) × (get_elem? xs i ≡ some s) × (core s ≡ c)
get_elem?-unmap [] i c e = absurd cc
get_elem?-unmap (x ∷ xs) zero c e = (x, refl, some-injective _ _ e)
get_elem?-unmap (x ∷ xs) (suc i) c e = get_elem?-unmap xs i c e

module _ (d : Dimensions) (bytes : ℕ → ℕ) (fits : Fits d) where
  -- The shapes part the image: each pixel has the label of one shape, which holds it once and no other
  -- shape holds it; a shape holds only pixels of the image, with their colours, and those that are no
  -- borders have the colour of the shape.
  pub record Whole (labels : ℕ → ProvinceId) (shapes : List Polygon) : Type 0 where
    pub covers :
        (p : Point2d)
        → IsInside d p
        → (i : ℕ) × (s : Polygon) × (get_elem? shapes i ≡ some s) × (s.id ≡ at d fits labels p)
    pub apart :
        (i j : ℕ) (s t : Polygon)
        → get_elem? shapes i ≡ some s
        → get_elem? shapes j ≡ some t
        → s.id ≡ t.id
        → i ≡ j
    pub exact :
        (i : ℕ) (s : Polygon) (p : Point2d)
        → get_elem? shapes i ≡ some s
        → IsInside d p
        → count p s.pixels ≡ (if at d fits labels p == s.id then 1 else 0)
    pub within :
        (i : ℕ) (s : Polygon)
        → get_elem? shapes i ≡ some s
        → All (λ x. IsInside d x.point × (x.color ≡ color_of d bytes x.point)) s.pixels
    pub one_color :
        (i : ℕ) (s : Polygon) (p : Point2d)
        → get_elem? shapes i ≡ some s
        → IsInside d p
        → is_border d bytes p ≡ false
        → at d fits labels p ≡ s.id
        → color_of d bytes p ≡ s.color

  pub Waits-Whole :
      (out : Outside) (n : ℕ) (col : ProvinceId → Color) (idx : Dict ℕ) (s : Finder)
      → Waits d bytes fits out n col idx [] s
      → Whole s.provinces s.shapes
  Waits-Whole out n col idx s h = record {
    covers = λ p i.
        let (k, e) = h.shaped.reached p i refl in
        let (t, g, own) = h.shaped.indexed _ k e in (k, t, g, own);
    apart = λ i j t u a b e.
        some-injective _ _
          (sym (h.shaped.known i t a) ∙ (ap (λ v. Dict.lookup v idx) e ∙ h.shaped.known j u b));
    exact = h.shaped.exact;
    within = h.shaped.within;
    one_color = λ i t p g j b e. sym ((h.served p j b).1) ∙ (ap col e ∙ h.hued i t g);
  }

  pub Whole-core :
      (labels : ℕ → ProvinceId) (xs ys : List Polygon)
      → map core xs ≡ map core ys
      → Whole labels xs
      → Whole labels ys
  Whole-core labels xs ys e h = record {
    covers = λ p i.
        let (k, s, g, own) = h.covers p i in
        let (t, f, same) =
          get_elem?-unmap ys k (core s)
            (ap (λ v. get_elem? v k) (sym e) ∙ get_elem?-map xs k s g) in
        (k, t, f, ap (λ v. v.0) same ∙ own);
    apart = λ i j s t a b f.
        let (s', a', u) = back i s a in
        let (t', b', v) = back j t b in
        h.apart i j s' t' a' b' (ap (λ w. w.0) u ∙ (f ∙ sym (ap (λ w. w.0) v)));
    exact = λ i s p a j.
        let (s', a', u) = back i s a in
        subst (λ w. count p w.1 ≡ (if at d fits labels p == w.0 then 1 else 0)) u
          (h.exact i s' p a' j);
    within = λ i s a.
        let (s', a', u) = back i s a in
        subst (λ w. All (λ x. IsInside d x.point × (x.color ≡ color_of d bytes x.point)) w.1) u
          (h.within i s' a');
    one_color = λ i s p a j b f.
        let (s', a', u) = back i s a in
        h.one_color i s' p a' j b (f ∙ sym (ap (λ w. w.0) u)) ∙ ap (λ w. w.2) u;
  }
    where
      back :
          (i : ℕ) (t : Polygon)
          → get_elem? ys i ≡ some t
          → (s : Polygon) × (get_elem? xs i ≡ some s) × (core s ≡ core t)
      back i t g =
          get_elem?-unmap xs i (core t) (ap (λ v. get_elem? v i) e ∙ get_elem?-map ys i t g)

  module _ (out : Outside) where
    finalize_shapes_lem :
        (label small : ℕ) (xs : List Polygon) (s : Finder)
        → let r = finalize_shapes d bytes out label small xs s in
          (map core xs ≡ map core r.1) × (r.3.provinces ≡ s.provinces)
    unfolding finalize_shapes
    finalize_shapes_lem label small [] s = (refl, refl)
    finalize_shapes_lem label small (x ∷ xs) s =
        let polled = poll d bytes out s in
        let next = (label + 1) % 2 ^ 32 in
        let numbered = record polled {
          label_matrix = number_pixels d bytes out next x.pixels polled.label_matrix;
        } in
        let count = if leb (length x.pixels) min_shape_size then (small + 1) % 2 ^ 32 else small in
        let (a, b) = finalize_shapes_lem next count xs numbered in
        let r = finalize_shapes d bytes out next count xs numbered in
        let stop : Bool × List Polygon × ℕ × Finder = (true, x ∷ xs, small, polled) in
        let go : Bool × List Polygon × ℕ × Finder = (r.0, bounded d bytes out x ∷ r.1, r.2, r.3) in
        let P = λ (v : Bool × List Polygon × ℕ × Finder).
          (map core (x ∷ xs) ≡ map core v.1) × (v.3.provinces ≡ s.provinces) in
        elim (Bool-cases polled.do_estop) [
          | inl e ↦ subst (λ v. P (if v then stop else go)) (sym e) (refl, refl)
          | inr e ↦ subst (λ v. P (if v then stop else go)) (sym e) (ap (λ v. core x ∷ v) a, b)
        ]

    calculate_adjacencies-core :
        (labels : ℕ → ProvinceId) (xs : List Polygon)
        → map core xs ≡ map core (calculate_adjacencies d bytes out labels xs)
    unfolding calculate_adjacencies
    calculate_adjacencies-core labels [] = refl
    calculate_adjacencies-core labels (x ∷ xs) =
        ap (λ v. core x ∷ v) (calculate_adjacencies-core labels xs)

    conclude-Whole :
        (r : Bool × List Polygon × ℕ × Finder)
        → Whole r.3.provinces r.1
        → let e = (conclude d bytes out r).1 in Whole e.provinces e.shapes
    unfolding conclude
    conclude-Whole (true, xs, small, s) h = h
    conclude-Whole (false, xs, small, s) h =
        Whole-core s.provinces xs (calculate_adjacencies d bytes out s.provinces xs)
          (calculate_adjacencies-core s.provinces xs) h

    -- The last pass changes neither which pixels a shape has nor its label and colour.
    pub do_finalize-Whole :
        (s : Finder)
        → Whole s.provinces s.shapes
        → let r = (do_finalize d bytes out s).1 in Whole r.provinces r.shapes
    unfolding do_finalize
    do_finalize-Whole s h =
        let r = finalize_shapes d bytes out 0 0 s.shapes s in
        let (a, b) = finalize_shapes_lem 0 0 s.shapes s in
        conclude-Whole r
          (Whole-core r.3.provinces s.shapes r.1 a (subst (λ v. Whole v s.shapes) (sym b) h))
