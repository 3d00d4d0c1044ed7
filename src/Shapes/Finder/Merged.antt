-- ===== src/Shapes/Finder/Merged.antt =====
-- mergeBorders: where it succeeds, every pixel is in the shape of its label.
use ho_i4_mod_development_to.Base.{
  ℕ, ◌%◌, ◌^◌, ◌≤◌, ◌≡◌, refl, sym, ◌∙◌, ap, Bool, true, false, ◌||◌, Option, some, List, [], ◌∷◌,
  inl, inr, if◌then◌else◌, ◌==◌, All, arith, Bool-cases, subst,
}
use ho_i4_mod_development_to.Base.Dict
use ho_i4_mod_development_to.Base.Dict.{Dict}
use ho_i4_mod_development_to.Colors.{Color}
use ho_i4_mod_development_to.Project.{ProvinceId}
use ho_i4_mod_development_to.Shapes.{Point2d, Dimensions, Pixel}
use ho_i4_mod_development_to.Shapes.Neighbours.{IsInside, is_border}
use ho_i4_mod_development_to.Shapes.Loops.{Loop, more, done, Ends}
use ho_i4_mod_development_to.Shapes.Finder.{Outside, Finder, write, color_of, index_of, poll}
use ho_i4_mod_development_to.Shapes.Finder.Trees.{Serves}
use ho_i4_mod_development_to.Shapes.Finder.Borders.{
  Target, found, stopped, missing, merge_target, merge_into, merge_with, merge_border, merge_all,
}
use ho_i4_mod_development_to.Shapes.Finder.Matrix.{
  Fits, same_point, same_point_self, eq_of_same_point, at, at-write,
}
use ho_i4_mod_development_to.Shapes.Finder.Editing.{count, edit_from}
use ho_i4_mod_development_to.Shapes.Finder.Fibres.{Shaped, Shaped-same, Shaped-write}
use ho_i4_mod_development_to.Shapes.Finder.Adding.{Shaped-add}
use ho_i4_mod_development_to.Shapes.Finder.Building.{AreHued}
use ho_i4_mod_development_to.Shapes.Finder.Sorting.{IsBorderPixel, AllServe}
use ho_i4_mod_development_to.Shapes.Finder.Merging.{Same, IsTarget, merge_target-IsTarget}

module _ (d : Dimensions) (bytes : ℕ → ℕ) (fits : Fits d) (out : Outside) (n : ℕ)
    (col : ProvinceId → Color) (idx : Dict ℕ) where
  -- The pixels that no longer wait.
  abbrev pub is_merged : List Pixel → Point2d → Bool
  is_merged rest q = count q rest == 0

  -- The shapes have every pixel but those that wait, which are border pixels, each once.
  pub record Waits (rest : List Pixel) (s : Finder) : Type 0 where
    pub shaped : Shaped d bytes fits s.provinces (is_merged rest) idx s.shapes
    pub hued : AreHued d bytes fits out col s.shapes
    pub served : AllServe d bytes fits out n col s.provinces
    pub once : (q : Point2d) → IsInside d q → count q rest ≤ 1
    pub borders : All (IsBorderPixel d bytes fits out n col) rest

  waits_border :
      (q : Point2d) (rest : List Pixel)
      → All (IsBorderPixel d bytes fits out n col) rest
      → is_border d bytes q ≡ false
      → is_merged rest q ≡ true
  waits_border q [] h b = refl
  waits_border q (x ∷ rest) (h, hs) b = elim (Bool-cases (same_point x.point q)) [
    | inl t ↦ absurd (ground (arith, h.1, b, ap (is_border d bytes) (eq_of_same_point x.point q t)))
    | inr t ↦ ground (arith, t, waits_border q rest hs b)
  ]

  served_border :
      (p : Point2d) (l : ProvinceId) (labels : ℕ → ProvinceId)
      → IsInside d p
      → is_border d bytes p ≡ true
      → AllServe d bytes fits out n col labels
      → AllServe d bytes fits out n col (write (index_of d bytes p) l labels)
  served_border p l labels i b h q j c =
      let t : same_point p q ≡ false = elim (Bool-cases (same_point p q)) [
        | inl t ↦ absurd (ground (arith, b, c, ap (is_border d bytes) (eq_of_same_point p q t)))
        | inr t ↦ t
      ] in
      subst (λ z. Serves out n col (color_of d bytes q) z)
        (sym (ground (arith, at-write d fits bytes p q l labels i j, t))) (h q j c)

  -- A pixel that no longer waits: it was done, or it is the one that was merged.
  merged_next :
      (x : Pixel) (rest : List Pixel) (q : Point2d)
      → count x.point (x ∷ rest) ≤ 1
      → (same_point x.point q || is_merged (x ∷ rest) q) ≡ is_merged rest q
  merged_next x rest q h = elim (Bool-cases (same_point x.point q)) [
    | inl t ↦
        let e : count q rest ≡ count x.point rest =
          ap (λ v. count v rest) (sym (eq_of_same_point x.point q t)) in
        ground (arith, t, e, h, same_point_self x.point)
    | inr t ↦ ground (arith, t)
  ]

  -- Where the target is no border, the pixel goes to a shape.
  merge_into-Waits :
      (x : Pixel) (rest : List Pixel) (q : Point2d) (s : Finder)
      → Waits (x ∷ rest) s
      → IsInside d q
      → is_border d bytes q ≡ false
      → (t : Finder) × (merge_into d bytes out x q idx s ≡ some t) × Waits rest t
  unfolding merge_into
  merge_into-Waits x rest q s h j b =
      let ((inside, edge, hue), others) = h.borders in
      let label = at d fits s.provinces q in
      let (i, l) = h.shaped.reached q j (waits_border q (x ∷ rest) h.borders b) in
      let waiting : is_merged (x ∷ rest) x.point ≡ false =
        ground (arith, same_point_self x.point) in
      let labels = write (index_of d bytes x.point) label s.provinces in
      let own : at d fits labels x.point ≡ label = ground (
        arith,
        at-write d fits bytes x.point x.point label s.provinces inside inside,
        same_point_self x.point,
      ) in
      let (u, g, _) = h.shaped.indexed label i l in
      let (ts, e, len, shaped) =
        Shaped-add d bytes fits x i inside hue waiting (ap (λ v. Dict.lookup v idx) own ∙ l)
          (Shaped-write d bytes fits x.point label inside waiting h.shaped) in
      (
        record s {
          shapes = ts;
          provinces = labels;
          label_matrix = write (index_of d bytes x.point) (label % 2 ^ 32) s.label_matrix;
        },
        rw (merge_into, l, e) refl,
        record {
          shaped =
              Shaped-same d bytes fits (λ v k. merged_next x rest v (h.once x.point inside)) shaped;
          hued = λ k v o.
              let (r, a, c, f) = edit_from i x s.shapes ts u k v g e o in
              ap col (sym c) ∙ (h.hued k r a ∙ f);
          served = served_border x.point label s.provinces inside edge h.served;
          once = λ v k. omega (arith, h.once v k);
          borders = others;
        },
      )

  pub Waits-Same : (rest : List Pixel) (s t : Finder) → Same s t → Waits rest s → Waits rest t
  Waits-Same rest s t (a, b) h = record {
    shaped =
        subst (λ v. Shaped d bytes fits v (is_merged rest) idx t.shapes) (sym a)
          (subst (Shaped d bytes fits s.provinces (is_merged rest) idx) (sym b) h.shaped);
    hued = subst (AreHued d bytes fits out col) (sym b) h.hued;
    served = subst (AllServe d bytes fits out n col) (sym a) h.served;
    once = h.once;
    borders = h.borders;
  }

  -- What merging returns: that it failed, or the shapes of all pixels.
  abbrev pub Merges : Option (Bool × Finder) → Type 0
  Merges r = (b : Bool) × (t : Finder) × (r ≡ some (b, t)) × (b ≡ true → Waits [] t)

  merge_with-Ends :
      (x : Pixel) (rest : List Pixel) (s : Finder) (t : Target)
      → Waits (x ∷ rest) s
      → IsTarget d bytes fits out s t
      → Ends (Waits rest) Merges (merge_with d bytes out idx x t)
  unfolding merge_with
  merge_with-Ends x rest s (stopped t) h g = (false, t, refl, λ e. absurd cc)
  merge_with-Ends x rest s (missing t) h g = (false, t, refl, λ e. absurd cc)
  merge_with-Ends x rest s (found q t) h (j, b, same) =
      let (r, e, w) = merge_into-Waits x rest q t (Waits-Same (x ∷ rest) s t same h) j b in
      rw (merge_with, e) w

  merge_border-Ends :
      (x : Pixel) (rest : List Pixel) (s : Finder)
      → Waits (x ∷ rest) s
      → Ends (Waits rest) Merges (merge_border d bytes out idx x s)
  unfolding merge_border
  merge_border-Ends x rest s h =
      let polled = poll d bytes out s in
      let E = λ (v : Bool). Ends (Waits rest) Merges (
        if v
        then done (some (false, polled))
        else merge_with d bytes out idx x (merge_target d bytes out x.point polled)) in
      elim (Bool-cases polled.do_estop) [
        | inl e ↦ subst E (sym e) (false, polled, refl, λ f. absurd cc)
        | inr e ↦ subst E (sym e) (
            merge_with-Ends x rest polled _ (Waits-Same (x ∷ rest) s polled (refl, refl) h)
              (merge_target-IsTarget d bytes fits out x.point polled h.borders.0.0))
      ]

  -- Merging never fails to find the shape of a label, and where it says that it succeeded, every pixel
  -- is in a shape.
  pub merge_all-Merges :
      (xs : List Pixel) (s : Finder) → Waits xs s → Merges (merge_all d bytes out idx xs s)
  unfolding merge_all
  merge_all-Merges [] s h = (true, s, refl, λ _. h)
  merge_all-Merges (x ∷ xs) s h = next _ (λ t. merge_all-Merges xs t) (merge_border-Ends x xs s h)
    where
      next :
          (l : Loop Finder (Option (Bool × Finder)))
          → ((t : Finder) → Waits xs t → Merges (merge_all d bytes out idx xs t))
          → Ends (Waits xs) Merges l
          → Merges (elim l [ more t ↦ merge_all d bytes out idx xs t | done r ↦ r ])
      next (more t) later g = later t g
      next (done r) later g = g
