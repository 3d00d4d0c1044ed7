-- ===== src/Shapes/Finder/Using.antt =====
-- pass1: taking a label for the next pixel.
use ho_i4_mod_development_to.Base.{
  ℕ, suc, ◌≡◌, ◌≢◌, refl, sym, ◌∙◌, ap, true, false, inl, inr, if◌then◌else◌, ◌==◌, ==_iff, ==_ne,
  ==_self, arith, Bool-cases, subst,
}
use ho_i4_mod_development_to.Base.Dict
use ho_i4_mod_development_to.Base.Dict.{Dict}
use ho_i4_mod_development_to.Colors.{Color}
use ho_i4_mod_development_to.Project.{ProvinceId}
use ho_i4_mod_development_to.Shapes.{Point2d, Dimensions}
use ho_i4_mod_development_to.Shapes.Neighbours.{IsInside, is_border}
use ho_i4_mod_development_to.Shapes.Loops.{point, is_seen}
use ho_i4_mod_development_to.Shapes.Finder.{
  Outside, Finder, Pass1, write, color_of, index_of, color_label, use_label,
}
use ho_i4_mod_development_to.Shapes.Finder.Matrix.{Fits, same_point, eq_of_same_point, at, at-write}
use ho_i4_mod_development_to.Shapes.Finder.Trees.{IsFresh, IsUsed, Tree, Serves}
use ho_i4_mod_development_to.Shapes.Finder.Labels.{Labelled}

module _ (d : Dimensions) (bytes : ℕ → ℕ) (fits : Fits d) (out : Outside) where
  -- Giving a label its colour leaves the rest alone.
  color_label_keeps :
      (label : ProvinceId) (s : Finder)
      → let r = color_label d bytes out label s in
        (r.provinces ≡ s.provinces)
        × (r.label_parents ≡ s.label_parents)
        × (r.created ≡ s.created)
        × (r.border_pixels ≡ s.border_pixels)
  unfolding color_label
  color_label_keeps label s = elim (Bool-cases (Dict.has label s.label_to_color)) [
    | inl a ↦ rw (color_label, a) (refl, refl, refl, refl)
    | inr a ↦ elim (Bool-cases (label == 0)) [
      | inl b ↦ rw (color_label, a, b) (refl, refl, refl, refl)
      | inr b ↦ rw (color_label, a, b) (refl, refl, refl, refl)
    ]
  ]

  module _ (fresh : IsFresh out) where
    -- The colours, where the `n`-th label gets one.
    abbrev grown : ℕ → Color → (ProvinceId → Color) → ProvinceId → Color
    grown n c col z = if z == out.fresh n then c else col z

    Serves-grow :
        (n : ℕ) (col : ProvinceId → Color) (c k : Color) (l : ProvinceId)
        → Serves out n col c l
        → Serves out (suc n) (grown n k col) c l
    Serves-grow n col c k l ((j, h, e), s) =
        let ne : l ≢ out.fresh n = λ f. absurd (omega (arith, h, fresh.distinct j n (sym e ∙ f))) in
        ((j, omega (arith, h), e), ground (arith, ==_ne l (out.fresh n) ne, s))

    Tree-grow :
        (n : ℕ) (col : ProvinceId → Color) (k : Color) (parents : Dict ProvinceId)
        → Tree out n col parents
        → Tree out (suc n) (grown n k col) parents
    Tree-grow n col k parents t = record {
      descends = t.descends;
      keeps_color = λ a b e.
          let (u, v) = t.used a b e in
          (Serves-grow n col (col a) k a (u, refl)).1
          ∙ (t.keeps_color a b e ∙ sym ((Serves-grow n col (col b) k b (v, refl)).1));
      used = λ a b e.
          let (u, v) = t.used a b e in
          (
            (Serves-grow n col (col a) k a (u, refl)).0,
            (Serves-grow n col (col b) k b (v, refl)).0,
          );
    }

    pub not-IsUsed : (n : ℕ) → ¬ IsUsed out n (out.fresh n)
    not-IsUsed n (j, h, e) = absurd (omega (arith, h, fresh.distinct n j e))

    -- A label that serves, written at the pixel, where the ones before it serve.
    pub served_next :
        (n : ℕ) (col : ProvinceId → Color) (labels : ℕ → ProvinceId) (label : ProvinceId) (x y : ℕ)
        → IsInside d (point x y)
        → ((q : Point2d)
            → IsInside d q
            → is_seen x y q ≡ true
            → is_border d bytes q ≡ false
            → Serves out n col (color_of d bytes q) (at d fits labels q))
        → (is_border d bytes (point x y) ≡ false
            → Serves out n col (color_of d bytes (point x y)) label)
        → (q : Point2d) → IsInside d q
        → is_seen (suc x) y q ≡ true
        → is_border d bytes q ≡ false
        → Serves out n col
            (color_of d bytes q)
            (at d fits (write (index_of d bytes (point x y)) label labels) q)
    served_next n col labels label x y i before now q j seen b =
        let p = point x y in
        let w = at-write d fits bytes p q label labels i j in
        elim (Bool-cases (same_point p q)) [
          | inl t ↦
              let e : at d fits (write (index_of d bytes p) label labels) q ≡ label =
                ground (arith, w, t) in
              let same = eq_of_same_point p q t in
              subst (λ z. Serves out n col (color_of d bytes q) z) (sym e)
                (subst (λ z. Serves out n col (color_of d bytes z) label) same
                  (now (subst (λ z. is_border d bytes z ≡ false) (sym same) b)))
          | inr t ↦
              let e : at d fits (write (index_of d bytes p) label labels) q ≡ at d fits labels q =
                ground (arith, w, t) in
              let old : is_seen x y q ≡ true = ground (arith, seen, t) in
              subst (λ z. Serves out n col (color_of d bytes q) z) (sym e) (before q j old b)
        ]

    -- A write at the pixel changes no label before it.
    pub served_same :
        (n : ℕ) (col : ProvinceId → Color) (labels : ℕ → ProvinceId) (label : ProvinceId) (x y : ℕ)
        → IsInside d (point x y)
        → ((q : Point2d)
            → IsInside d q
            → is_seen x y q ≡ true
            → is_border d bytes q ≡ false
            → Serves out n col (color_of d bytes q) (at d fits labels q))
        → (q : Point2d) → IsInside d q
        → is_seen x y q ≡ true
        → is_border d bytes q ≡ false
        → Serves out n col
            (color_of d bytes q)
            (at d fits (write (index_of d bytes (point x y)) label labels) q)
    served_same n col labels label x y i before q j seen b =
        let p = point x y in
        let w = at-write d fits bytes p q label labels i j in
        let t : same_point p q ≡ false = ground (arith, seen) in
        let e : at d fits (write (index_of d bytes p) label labels) q ≡ at d fits labels q =
          ground (arith, w, t) in
        subst (λ z. Serves out n col (color_of d bytes q) z) (sym e) (before q j seen b)

    module _ (x y : ℕ) (s : Pass1) (h : Labelled d bytes fits out x y s)
        (i : IsInside d (point x y)) (label : ProvinceId) (links : Dict ProvinceId) where
      -- The next label is used, and another one is made.
      pub use_label_new :
          Tree out h.n h.col links
          → label ≡ s.next_label
          → Labelled d bytes fits out (suc x) y (use_label d bytes out (point x y) s (label, links))
      unfolding use_label
      use_label_new tree e =
          let q = point x y in
          let f = record s.finder {
            provinces = write (index_of d bytes q) label s.finder.provinces;
            label_parents = links;
          } in
          let k = color_label_keeps label (record f { created = suc f.created }) in
          let n = h.n in
          let c = color_of d bytes q in
          let col = grown n c h.col in
          let own : Serves out (suc n) col c label =
            subst (λ z. Serves out (suc n) col c z) (sym (e ∙ h.next))
              ((n, omega arith, refl), ground (arith, ==_self (out.fresh n))) in
          let yes : (label == s.next_label) ≡ true = (==_iff label s.next_label).1 e in
          rw (use_label, yes)
            (record {
              n = suc n;
              next = ap out.fresh h.count;
              count = k.2 ∙ ap suc h.count;
              col = col;
              tree = subst (λ z. Tree out (suc n) col z) (sym k.1) (Tree-grow n h.col c links tree);
              served = λ v j seen b.
                  subst (λ m. Serves out (suc n) col (color_of d bytes v) (at d fits m v)) (sym k.0)
                    (served_next (suc n) col s.finder.provinces label x y i
                      (λ v' j' seen' b'. Serves-grow n h.col _ c _ (h.served v' j' seen' b'))
                      (λ _. own) v j seen b);
              unused = k.3 ∙ h.unused;
            })

      -- A label in use is taken.
      pub use_label_old :
          Tree out h.n h.col links
          → Serves out h.n h.col (color_of d bytes (point x y)) label
          → Labelled d bytes fits out (suc x) y (use_label d bytes out (point x y) s (label, links))
      unfolding use_label
      use_label_old tree e =
          let f = record s.finder {
            provinces = write (index_of d bytes (point x y)) label s.finder.provinces;
            label_parents = links;
          } in
          let k = color_label_keeps label f in
          let n = h.n in
          let other : (label == s.next_label) ≡ false =
            ==_ne label s.next_label
              (λ same. absurd (not-IsUsed n (subst (λ z. IsUsed out n z) (same ∙ h.next) e.0))) in
          rw (use_label, other)
            (record {
              n = n;
              next = h.next;
              count = k.2 ∙ h.count;
              col = h.col;
              tree = subst (λ z. Tree out n h.col z) (sym k.1) tree;
              served = λ v j seen b.
                  subst (λ m. Serves out n h.col (color_of d bytes v) (at d fits m v)) (sym k.0)
                    (served_next n h.col s.finder.provinces label x y i h.served (λ _. e) v j seen
                      b);
              unused = k.3 ∙ h.unused;
            })
