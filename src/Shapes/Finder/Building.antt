-- ===== src/Shapes/Finder/Building.antt =====
-- buildShape: the pixel goes to the shape of its label, which is made if there is none.
use ho_i4_mod_development_to.Base.{
  ℕ, suc, ◌%◌, ◌^◌, ◌<◌, ◌≤◌, ◌≡◌, refl, sym, ◌∙◌, ap, Bool, false, ◌||◌, some, List, [], ◌∷◌, ◌++◌,
  length, length-append, inl, inr, if◌then◌else◌, ◌==◌, ==_self, get_elem?, arith, Bool-cases,
  Option-cases, subst, is_some,
}
use mathlib.Core.Option.{some-injective}
use ho_i4_mod_development_to.Base.Dict
use ho_i4_mod_development_to.Base.Dict.{Dict}
use ho_i4_mod_development_to.Colors.{Color, generate_unique_color}
use ho_i4_mod_development_to.Project.{ProvinceId}
use ho_i4_mod_development_to.Shapes.{Point2d, Dimensions, Pixel}
use ho_i4_mod_development_to.Shapes.Neighbours.{IsInside}
use ho_i4_mod_development_to.Shapes.Finder.{Polygon, Outside, color_of}
use ho_i4_mod_development_to.Shapes.Finder.Matrix.{Fits, same_point, at}
use ho_i4_mod_development_to.Shapes.Finder.Second.{
  Pass2, get_province_type, ensure_shape, add_to_label, build_shape,
}
use ho_i4_mod_development_to.Shapes.Finder.Editing.{get_elem?-append, edit_from}
use ho_i4_mod_development_to.Shapes.Finder.Fibres.{Shaped, Shaped-ensure}
use ho_i4_mod_development_to.Shapes.Finder.Adding.{Shaped-add}

module _ (d : Dimensions) (bytes : ℕ → ℕ) (fits : Fits d) (out : Outside)
    (col : ProvinceId → Color) where
  -- Each shape has the colour of its label.
  abbrev pub AreHued : List Polygon → Type 0
  AreHued shapes = (i : ℕ) (t : Polygon) → get_elem? shapes i ≡ some t → col t.id ≡ t.color

  -- The shapes are those of the pixels done, and at most `k`.
  pub record Stands (k : ℕ) (is_done : Point2d → Bool) (s : Pass2) : Type 0 where
    pub shaped : Shaped d bytes fits s.finder.provinces is_done s.label_to_shapeidx s.finder.shapes
    pub hued : AreHued s.finder.shapes
    pub few : length s.finder.shapes ≤ k

  -- What is not about the shapes stays.
  abbrev pub Keeps : Pass2 → Pass2 → Type 0
  Keeps s t =
      (t.finder.provinces ≡ s.finder.provinces)
      × (t.finder.label_parents ≡ s.finder.label_parents)
      × (t.finder.border_pixels ≡ s.finder.border_pixels)

  hued-append :
      (shapes : List Polygon) (s : Polygon)
      → AreHued shapes
      → col s.id ≡ s.color
      → AreHued (shapes ++ s ∷ [])
  hued-append shapes s h e i t g = elim (Bool-cases (length shapes == i)) [
    | inl y ↦
        subst (λ v. col v.id ≡ v.color)
          (some-injective _ _ (
            sym (
              subst
                (λ b. get_elem? (shapes ++ s ∷ []) i ≡ (if b then some s else get_elem? shapes i)) y
                (get_elem?-append shapes s i))
            ∙ g))
          e
    | inr y ↦ h i t (ground (arith, get_elem?-append shapes s i, y, g))
  ]

  ensure_shape_lem :
      (k : ℕ) (is_done : Point2d → Bool) (label : ProvinceId) (p : Pixel) (s : Pass2)
      → k < 2 ^ 32
      → col label ≡ p.color
      → Stands k is_done s
      → let t = ensure_shape d bytes out label p s in
        Keeps s t
        × Stands (suc k) is_done t
        × ((i : ℕ) × (Dict.lookup label t.label_to_shapeidx ≡ some i))
  unfolding ensure_shape
  ensure_shape_lem k is_done label p s room hue h =
      let f = s.finder in
      let made = generate_unique_color out.palette (get_province_type p.color) f.generator in
      let P = λ (t : Pass2).
        Keeps s t
        × Stands (suc k) is_done t
        × ((i : ℕ) × (Dict.lookup label t.label_to_shapeidx ≡ some i)) in
      let shape : Polygon = record {
        id = label;
        pixels = [];
        color = p.color;
        unique_color = made.0;
        bounding_box = record { left = 0; bottom = 0; right = 0; top = 0 };
        adjacent_labels = [];
      } in
      let grown : Pass2 = record {
        finder = record f { generator = made.1; shapes = f.shapes ++ shape ∷ [] };
        label_to_shapeidx = Dict.insert label (length f.shapes % 2 ^ 32) s.label_to_shapeidx;
      } in
      let pick = λ (b : Bool). if b then s else grown in
      elim (Option-cases (Dict.lookup label s.label_to_shapeidx)) [
        | inr (i, g) ↦
            subst (λ b. P (pick b)) (sym (ap is_some g))
              (
                (refl, refl, refl),
                record { shaped = h.shaped; hued = h.hued; few = omega (arith, h.few) },
                (i, g),
              )
        | inl g ↦
            let exact : length f.shapes % 2 ^ 32 ≡ length f.shapes = omega (arith, room, h.few) in
            subst (λ b. P (pick b)) (sym (ap is_some g))
              (
                (refl, refl, refl),
                record {
                  shaped =
                      subst
                        (λ v.
                          Shaped d bytes fits f.provinces is_done
                            (Dict.insert label v s.label_to_shapeidx) (f.shapes ++ shape ∷ []))
                        (sym exact) (Shaped-ensure d bytes fits shape refl g h.shaped);
                  hued = hued-append f.shapes shape h.hued hue;
                  few = omega (arith, h.few, length-append f.shapes (shape ∷ []));
                },
                (
                  length f.shapes % 2 ^ 32,
                  ground (
                    arith,
                    Dict.lookup-insert label label (length f.shapes % 2 ^ 32) s.label_to_shapeidx,
                    ==_self label,
                  ),
                ),
              )
      ]

  add_to_label_lem :
      (k : ℕ) (is_done : Point2d → Bool) (label : ProvinceId) (p : Pixel) (s : Pass2) (i : ℕ)
      → IsInside d p.point
      → p.color ≡ color_of d bytes p.point
      → is_done p.point ≡ false
      → label ≡ at d fits s.finder.provinces p.point
      → Dict.lookup label s.label_to_shapeidx ≡ some i
      → Stands k is_done s
      → (t : Pass2) × (add_to_label d bytes out label p s ≡ some t)
        × Keeps s t
        × Stands k (λ q. same_point p.point q || is_done q) t
  unfolding add_to_label
  add_to_label_lem k is_done label p s i inside hue n own l h =
      let (u, g, _) = h.shaped.indexed label i l in
      let (ts, e, len, shaped) =
        Shaped-add d bytes fits p i inside hue n
          (subst (λ v. Dict.lookup v s.label_to_shapeidx ≡ some i) own l) h.shaped in
      (
        record s { finder = record s.finder { shapes = ts } },
        rw (add_to_label, l, e) refl,
        (refl, refl, refl),
        record {
          shaped = shaped;
          hued = λ j v o.
              let (r, a, b, c) = edit_from i p s.finder.shapes ts u j v g e o in
              ap col (sym b) ∙ (h.hued j r a ∙ c);
          few = omega (arith, len, h.few);
        },
      )

  -- The pixel is in a shape of its label, and nothing else changes.
  pub build_shape_lem :
      (k : ℕ) (is_done : Point2d → Bool) (label : ProvinceId) (p : Pixel) (s : Pass2)
      → k < 2 ^ 32
      → IsInside d p.point
      → p.color ≡ color_of d bytes p.point
      → is_done p.point ≡ false
      → label ≡ at d fits s.finder.provinces p.point
      → col label ≡ p.color
      → Stands k is_done s
      → (t : Pass2) × (build_shape d bytes out label p s ≡ some t)
        × Keeps s t
        × Stands (suc k) (λ q. same_point p.point q || is_done q) t
  unfolding build_shape
  build_shape_lem k is_done label p s room inside hue n own tint h =
      let ((a, b, c), stands, (i, l)) = ensure_shape_lem k is_done label p s room tint h in
      let own' = own ∙ sym (ap (λ m. at d fits m p.point) a) in
      let (t, e, (a', b', c'), r) =
        add_to_label_lem (suc k) is_done label p (ensure_shape d bytes out label p s) i inside hue n
          own' l stands in
      (t, e, (a' ∙ a, b' ∙ b, c' ∙ c), r)
