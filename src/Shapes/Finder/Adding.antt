-- ===== src/Shapes/Finder/Adding.antt =====
-- addPixelToShape: a pixel goes to the shape of its label.
use ho_i4_mod_development_to.Base.{
  ℕ, ◌+◌, ◌≡◌, ◌⊎◌, sym, ◌∙◌, ap, Bool, true, false, ◌&&◌, ◌||◌, some, List, length, inl, inr,
  if◌then◌else◌, ◌==◌, ==_iff, get_elem?, All, arith, Bool-cases, subst,
}
use mathlib.Core.Option.{some-injective}
use ho_i4_mod_development_to.Base.Dict
use ho_i4_mod_development_to.Base.Dict.{Dict}
use ho_i4_mod_development_to.Project.{ProvinceId}
use ho_i4_mod_development_to.Shapes.{Point2d, Dimensions, Pixel}
use ho_i4_mod_development_to.Shapes.Neighbours.{IsInside}
use ho_i4_mod_development_to.Shapes.Finder.{Polygon, color_of}
use ho_i4_mod_development_to.Shapes.Finder.Matrix.{Fits, same_point, eq_of_same_point, at}
use ho_i4_mod_development_to.Shapes.Finder.Second.{add_pixel_to_shape, edit}
use ho_i4_mod_development_to.Shapes.Finder.Editing.{count, count-append, All-append, edit_present}
use ho_i4_mod_development_to.Shapes.Finder.Fibres.{Shaped}

module _ (d : Dimensions) (bytes : ℕ → ℕ) (fits : Fits d) where
  -- A pixel that is not done goes to the shape of its label, and is done.
  pub Shaped-add :
      {labels : ℕ → ProvinceId} {is_done : Point2d → Bool} {idx : Dict ℕ} {shapes : List Polygon}
      (x : Pixel) (i : ℕ)
      → IsInside d x.point
      → x.color ≡ color_of d bytes x.point
      → is_done x.point ≡ false
      → Dict.lookup (at d fits labels x.point) idx ≡ some i
      → Shaped d bytes fits labels is_done idx shapes
      → (ts : List Polygon) × (edit i (add_pixel_to_shape x) shapes ≡ some ts)
        × (length ts ≡ length shapes)
        × Shaped d bytes fits labels (λ q. same_point x.point q || is_done q) idx ts
  Shaped-add {labels} {is_done} {idx} {shapes} x i inside hue n l h =
      let (s, g, own) = h.indexed _ i l in
      let (ts, e, len, after) = edit_present i (add_pixel_to_shape x) shapes s g in
      let which : (k : ℕ) (t : Polygon)
          → get_elem? ts k ≡ some t
          → (i ≡ k) × (add_pixel_to_shape x s ≡ t)
            ⊎ ((i == k) ≡ false) × (get_elem? shapes k ≡ some t) =
        λ k t o. elim (Bool-cases (i == k)) [
          | inl y ↦ inl (
            (==_iff i k).0 y,
            some-injective _ _ (
                sym (
                  subst
                    (λ b.
                      get_elem? ts k
                      ≡ (if b then some (add_pixel_to_shape x s) else get_elem? shapes k))
                    y (after k))
                ∙ o),
          )
          | inr y ↦ inr (y, ground (arith, after k, y, o))
        ] in
      (
        ts,
        e,
        len,
        record {
          indexed = λ m k o.
              let (t, a, b) = h.indexed m k o in
              elim (Bool-cases (i == k)) [
                | inl y ↦
                    let same : s ≡ t =
                      some-injective _ _ (sym g ∙ (ap (get_elem? shapes) ((==_iff i k).0 y) ∙ a)) in
                    (add_pixel_to_shape x s, ground (arith, after k, y), ap (λ z. z.id) same ∙ b)
                | inr y ↦ (t, ground (arith, after k, y, a), b)
              ];
          known = λ k t o. elim (which k t o) [
            | inl (y, z) ↦
                subst (λ v. Dict.lookup v.id idx ≡ some k) z
                  (subst (λ v. Dict.lookup s.id idx ≡ some v) y (h.known i s g))
            | inr (_, y) ↦ h.known k t y
          ];
          reached = λ q j t. elim (Bool-cases (same_point x.point q)) [
            | inl y ↦ (
              i,
              subst (λ v. Dict.lookup (at d fits labels v) idx ≡ some i)
                  (eq_of_same_point x.point q y) l,
            )
            | inr y ↦ h.reached q j (ground (arith, t, y))
          ];
          exact = λ k t q o j. elim (which k t o) [
            | inl (y, z) ↦
                subst
                  (λ v. count q v.pixels ≡ (
                    if (same_point x.point q || is_done q) && at d fits labels q == v.id
                    then 1
                    else 0))
                  z (count-append q s.pixels x ∙ added s q own (h.exact i s q g j))
            | inr (ne, y) ↦ old k t q ne y (h.exact k t q y j)
          ];
          within = λ k t o. elim (which k t o) [
            | inl (y, z) ↦
                subst
                  (λ v.
                    All (λ w. IsInside d w.point × (w.color ≡ color_of d bytes w.point)) v.pixels)
                  z (All-append _ s.pixels x (h.within i s g) (inside, hue))
            | inr (_, y) ↦ h.within k t y
          ];
        },
      )
    where
      added :
          (s : Polygon) (q : Point2d)
          → s.id ≡ at d fits labels x.point
          → count q s.pixels ≡ (if is_done q && at d fits labels q == s.id then 1 else 0)
          → (if same_point x.point q then 1 else 0) + count q s.pixels
            ≡ (if (same_point x.point q || is_done q) && at d fits labels q == s.id then 1 else 0)
      added s q own c = elim (Bool-cases (same_point x.point q)) [
        | inl y ↦
            let e : x.point ≡ q = eq_of_same_point x.point q y in
            let m : is_done q ≡ false = subst (λ v. is_done v ≡ false) e n in
            let o : at d fits labels q == s.id ≡ true =
              (==_iff _ _).1 (ap (at d fits labels) (sym e) ∙ sym own) in
            ground (arith, c, y, m, o)
        | inr y ↦ ground (arith, c, y)
      ]

      -- The label of the pixel is that of its own shape only.
      old :
          (k : ℕ) (t : Polygon) (q : Point2d)
          → (i == k) ≡ false
          → get_elem? shapes k ≡ some t
          → count q t.pixels ≡ (if is_done q && at d fits labels q == t.id then 1 else 0)
          → count q t.pixels
            ≡ (if (same_point x.point q || is_done q) && at d fits labels q == t.id then 1 else 0)
      old k t q ne g c = elim (Bool-cases (same_point x.point q)) [
        | inr y ↦ ground (arith, c, y)
        | inl y ↦ elim (Bool-cases (at d fits labels q == t.id)) [
          | inr z ↦ ground (arith, c, y, z)
          | inl z ↦
              let own : at d fits labels x.point ≡ t.id =
                ap (at d fits labels) (eq_of_same_point x.point q y) ∙ (==_iff _ _).0 z in
              let both : i ≡ k =
                some-injective _ _ (sym l ∙ (ap (λ v. Dict.lookup v idx) own ∙ h.known k t g)) in
              absurd (ground (arith, ne, both))
        ]
      ]
