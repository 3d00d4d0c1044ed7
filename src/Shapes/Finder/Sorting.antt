-- ===== src/Shapes/Finder/Sorting.antt =====
-- pass2: the whole loop.
use ho_i4_mod_development_to.Base.{
  ℕ, suc, ◌+◌, ◌*◌, ◌≡◌, refl, sym, ◌∙◌, ap, Bool, true, false, not, ◌&&◌, ◌||◌, Option, some, [],
  inl, inr, if◌then◌else◌, All, arith, Bool-cases, subst,
}
use ho_i4_mod_development_to.Colors.{Color}
use ho_i4_mod_development_to.Project.{ProvinceId}
use ho_i4_mod_development_to.Shapes.{Point2d, Dimensions, Pixel}
use ho_i4_mod_development_to.Shapes.Neighbours.{IsInside, is_border}
use ho_i4_mod_development_to.Shapes.Loops.{point, more, done, or_none, Ends, is_seen, for_rows-Ends}
use ho_i4_mod_development_to.Shapes.Finder.{Outside, Finder, write, color_of, index_of, poll}
use ho_i4_mod_development_to.Shapes.Finder.Matrix.{
  Fits, below_area, same_point, same_point_self, eq_of_same_point, at, at-write,
}
use ho_i4_mod_development_to.Shapes.Finder.Roots.{get_root_label_lem}
use ho_i4_mod_development_to.Shapes.Finder.Trees.{Tree, Serves, Leads-color, Leads-IsUsed}
use ho_i4_mod_development_to.Shapes.Finder.Second.{
  Pass2, build_shape, root_written, shape_pixel, sort_pixel, do_pass2,
}
use ho_i4_mod_development_to.Shapes.Finder.Editing.{count, count-append, All-append}
use ho_i4_mod_development_to.Shapes.Finder.Fibres.{Shaped-same, Shaped-write}
use ho_i4_mod_development_to.Shapes.Finder.Building.{Stands, build_shape_lem}

-- The pass returned because it was stopped.
abbrev pub Stopped : Option Pass2 → Type 0
Stopped r = (t : Pass2) × (r ≡ some t) × (t.finder.do_estop ≡ true)

module _ (d : Dimensions) (bytes : ℕ → ℕ) (fits : Fits d) (out : Outside) (n : ℕ)
    (col : ProvinceId → Color) where
  -- The pixels that are in a shape after those before (x, y).
  abbrev pub is_sorted : ℕ → ℕ → Point2d → Bool
  is_sorted x y p = is_seen x y p && not (is_border d bytes p)

  -- A border pixel of the image, with its colour.
  abbrev pub IsBorderPixel : Pixel → Type 0
  IsBorderPixel p =
      IsInside d p.point × (is_border d bytes p.point ≡ true) × (p.color ≡ color_of d bytes p.point)

  -- The labels of all pixels serve.
  abbrev pub AllServe : (ℕ → ProvinceId) → Type 0
  AllServe labels =
      (p : Point2d)
      → IsInside d p
      → is_border d bytes p ≡ false
      → Serves out n col (color_of d bytes p) (at d fits labels p)

  pub record Sorted (x y : ℕ) (s : Pass2) : Type 0 where
    pub tree : Tree out n col s.finder.label_parents
    pub served : AllServe s.finder.provinces
    pub stands : Stands d bytes fits out col (x + y * d.w) (is_sorted x y) s
    pub counted :
        (p : Point2d)
        → IsInside d p
        → count p s.finder.border_pixels ≡ (if is_seen x y p && is_border d bytes p then 1 else 0)
    pub borders : All IsBorderPixel s.finder.border_pixels

  -- One more pixel has been seen.
  seen_next :
      (x y : ℕ) (q : Point2d) → is_seen (suc x) y q ≡ (same_point (point x y) q || is_seen x y q)
  seen_next x y q = ground arith

  unseen : (x y : ℕ) → is_seen x y (point x y) ≡ false
  unseen x y = ground arith

  seen_at : (x y : ℕ) (q : Point2d) → same_point (point x y) q ≡ true → is_seen x y q ≡ false
  seen_at x y q t = ground (arith, t)

  border_at :
      (x y : ℕ) (q : Point2d)
      → same_point (point x y) q ≡ true
      → is_border d bytes q ≡ is_border d bytes (point x y)
  border_at x y q t = ap (is_border d bytes) (sym (eq_of_same_point (point x y) q t))

  sorted_next :
      (x y : ℕ) (q : Point2d)
      → is_sorted (suc x) y q ≡ (
          if is_border d bytes (point x y)
          then is_sorted x y q
          else (same_point (point x y) q || is_sorted x y q))
  sorted_next x y q = elim (Bool-cases (same_point (point x y) q)) [
    | inl t ↦ ground (arith, seen_next x y q, t, border_at x y q t, seen_at x y q t)
    | inr t ↦ ground (arith, seen_next x y q, t)
  ]

  counted_next :
      (x y : ℕ) (q : Point2d)
      → (if is_seen (suc x) y q && is_border d bytes q then 1 else 0)
        ≡ (if is_border d bytes (point x y) && same_point (point x y) q then 1 else 0)
          + (if is_seen x y q && is_border d bytes q then 1 else 0)
  counted_next x y q = elim (Bool-cases (same_point (point x y) q)) [
    | inl t ↦ ground (arith, seen_next x y q, t, border_at x y q t, seen_at x y q t)
    | inr t ↦ ground (arith, seen_next x y q, t)
  ]

  AllServe-write :
      (p : Point2d) (l : ProvinceId) (labels : ℕ → ProvinceId)
      → IsInside d p
      → Serves out n col (color_of d bytes p) l
      → AllServe labels
      → AllServe (write (index_of d bytes p) l labels)
  AllServe-write p l labels i s h q j b = elim (Bool-cases (same_point p q)) [
    | inl t ↦
        let e : at d fits (write (index_of d bytes p) l labels) q ≡ l =
          ground (arith, at-write d fits bytes p q l labels i j, t) in
        subst (λ z. Serves out n col (color_of d bytes q) z) (sym e)
          (subst (λ z. Serves out n col (color_of d bytes z) l) (eq_of_same_point p q t) s)
    | inr t ↦
        let e : at d fits (write (index_of d bytes p) l labels) q ≡ at d fits labels q =
          ground (arith, at-write d fits bytes p q l labels i j, t) in
        subst (λ z. Serves out n col (color_of d bytes q) z) (sym e) (h q j b)
  ]

  -- A border pixel waits for the third pass.
  shape_border :
      (x y : ℕ) (s : Pass2)
      → IsInside d (point x y)
      → is_border d bytes (point x y) ≡ true
      → Sorted x y s
      → Ends (Sorted (suc x) y) Stopped (shape_pixel d bytes out (point x y) s)
  unfolding shape_pixel
  shape_border x y s i b h =
      let p = point x y in
      let px : Pixel = record { point = p; color = color_of d bytes p } in
      rw (shape_pixel, b)
        (record {
          tree = h.tree;
          served = h.served;
          stands = record {
            shaped =
                Shaped-same d bytes fits (λ q j. ground (arith, sorted_next x y q, b))
                  h.stands.shaped;
            hued = h.stands.hued;
            few = omega (arith, h.stands.few);
          };
          counted = λ q j. ground (
            arith,
            counted_next x y q,
            b,
            count-append q s.finder.border_pixels px,
            h.counted q j,
          );
          borders = All-append IsBorderPixel s.finder.border_pixels px h.borders (i, b, refl);
        })

  -- Any other pixel goes to the shape of the root of its label.
  shape_other :
      (x y : ℕ) (s : Pass2)
      → IsInside d (point x y)
      → is_border d bytes (point x y) ≡ false
      → Sorted x y s
      → Ends (Sorted (suc x) y) Stopped (shape_pixel d bytes out (point x y) s)
  unfolding shape_pixel
  shape_other x y s i b h =
      let p = point x y in
      let px : Pixel = record { point = p; color = color_of d bytes p } in
      let l = at d fits s.finder.provinces p in
      let own = h.served p i b in
      let (root, e, path, top) =
        get_root_label_lem out.order s.finder.label_parents l h.tree.descends in
      let tint : col root ≡ color_of d bytes p = sym (Leads-color out h.tree path) ∙ own.1 in
      let serves =
        AllServe-write p root s.finder.provinces i (Leads-IsUsed out h.tree own.0 path, tint)
          h.served in
      let still = ap (λ v. v && not (is_border d bytes p)) (unseen x y) in
      let written = root_written d bytes out p root s in
      let same : root ≡ at d fits written.finder.provinces p =
        ground (arith, at-write d fits bytes p p root s.finder.provinces i i, same_point_self p) in
      let (t, f, (a, c, g), stands) =
        build_shape_lem d bytes fits out col (x + y * d.w) (is_sorted x y) root px written
          (omega (arith, below_area d fits p i, fits.area)) i refl still same tint
          (record {
            shaped = Shaped-write d bytes fits p root i still h.stands.shaped;
            hued = h.stands.hued;
            few = h.stands.few;
          }) in
      let run : shape_pixel d bytes out p s ≡ more t =
        rw (shape_pixel, b)
          (ap
              (λ r. or_none {S = Pass2} r (λ z.
                or_none (build_shape d bytes out z px (root_written d bytes out p z s))
                  (λ v. more v)))
              e
            ∙ ap (λ r. or_none {S = Pass2} r (λ v. more v)) f) in
      subst (Ends (Sorted (suc x) y) Stopped) (sym run) (record {
        tree = subst (λ v. Tree out n col v) (sym c) h.tree;
        served = subst (λ v. AllServe v) (sym a) serves;
        stands = record {
          shaped =
              Shaped-same d bytes fits (λ q j. ground (arith, sorted_next x y q, b)) stands.shaped;
          hued = stands.hued;
          few = omega (arith, stands.few);
        };
        counted = λ q j.
            subst (λ v. count q v ≡ (if is_seen (suc x) y q && is_border d bytes q then 1 else 0))
              (sym g) (ground (arith, counted_next x y q, b, h.counted q j));
        borders = subst (All IsBorderPixel) (sym g) h.borders;
      })

  sort_pixel-Ends :
      (x y : ℕ) (s : Pass2)
      → IsInside d (point x y)
      → Sorted x y s
      → Ends (Sorted (suc x) y) Stopped (sort_pixel d bytes out (point x y) s)
  unfolding sort_pixel
  sort_pixel-Ends x y s i h =
      let polled = poll d bytes out s.finder in
      let s' = record s { finder = polled } in
      let E = λ (v : Bool).
        Ends (Sorted (suc x) y) Stopped
          (if v then done (some s') else shape_pixel d bytes out (point x y) s') in
      let h' : Sorted x y s' = record {
        tree = h.tree;
        served = h.served;
        stands = record { shaped = h.stands.shaped; hued = h.stands.hued; few = h.stands.few };
        counted = h.counted;
        borders = h.borders;
      } in
      elim (Bool-cases polled.do_estop) [
        | inl t ↦ subst E (sym t) (s', refl, t)
        | inr t ↦ subst E (sym t) (elim (Bool-cases (is_border d bytes (point x y))) [
          | inl b ↦ shape_border x y s' i b h'
          | inr b ↦ shape_other x y s' i b h'
        ])
      ]

  -- The pass, from labels that serve, goes over every pixel or is stopped.
  pub do_pass2-Ends :
      (s : Finder)
      → Tree out n col s.label_parents
      → AllServe s.provinces
      → s.border_pixels ≡ []
      → Ends (Sorted 0 d.h) Stopped (do_pass2 d bytes out s)
  unfolding do_pass2
  do_pass2-Ends s tree served no_borders =
      for_rows-Ends (sort_pixel d bytes out) Sorted Stopped 0 d.w d.h
        (λ x y t a b. sort_pixel-Ends x y t (a, b))
        (λ y t h. record {
          tree = h.tree;
          served = h.served;
          stands = record {
            shaped = Shaped-same d bytes fits (λ q j. ground (arith, j)) h.stands.shaped;
            hued = h.stands.hued;
            few = grind (arith, h.stands.few);
          };
          counted = λ q j. ground (arith, h.counted q j, j);
          borders = h.borders;
        })
        d.w (omega arith) d.h 0 _ (omega arith)
        (record {
          tree = tree;
          served = served;
          stands = record {
            shaped = record {
              indexed = λ l i e. absurd cc;
              known = λ i t e. absurd cc;
              reached = λ q j e. absurd (ground (arith, e));
              exact = λ i t q e j. absurd cc;
              within = λ i t e. absurd cc;
            };
            hued = λ i t e. absurd cc;
            few = omega arith;
          };
          counted = λ q j.
              subst (λ v. count q v ≡ (if is_seen 0 0 q && is_border d bytes q then 1 else 0))
                (sym no_borders) (ground arith);
          borders = subst (All IsBorderPixel) (sym no_borders) tt;
        })
