-- ===== src/Shapes/Finder/First.antt =====
-- pass1: the whole loop.
use ho_i4_mod_development_to.Base.{
  ℕ, suc, ◌+◌, ◌%◌, ◌^◌, ◌≡◌, refl, sym, ap, Bool, true, Option, some, [], inl, inr, if◌then◌else◌,
  arith, Bool-cases, subst,
}
use ho_i4_mod_development_to.Base.Dict.{Dict}
use ho_i4_mod_development_to.Colors.{border_color}
use ho_i4_mod_development_to.Project.{ProvinceId}
use ho_i4_mod_development_to.Shapes.{Dimensions, left, up}
use ho_i4_mod_development_to.Shapes.Neighbours.{IsInside, is_border}
use ho_i4_mod_development_to.Shapes.Loops.{point, more, done, or_none, Ends, for_rows-Ends}
use ho_i4_mod_development_to.Shapes.Finder.{
  Outside, Finder, Pass1, write, color_of, index_of, adjacent_label, poll, use_label, visit_pixel,
  label_pixel, pick_label, do_pass1,
}
use ho_i4_mod_development_to.Shapes.Finder.Matrix.{Fits}
use ho_i4_mod_development_to.Shapes.Finder.Trees.{IsFresh, IsUsed, Picked, pick_label-Picked}
use ho_i4_mod_development_to.Shapes.Finder.Labels.{
  Labelled, left_seen, up_seen, adjacent_label-Offers,
}
use ho_i4_mod_development_to.Shapes.Finder.Using.{
  not-IsUsed, served_same, served_next, use_label_new, use_label_old,
}

-- The pass returned because it was stopped.
abbrev pub Stopped : Option Finder → Type 0
Stopped r = (f : Finder) × (r ≡ some f) × (f.do_estop ≡ true)

module _ (d : Dimensions) (bytes : ℕ → ℕ) (fits : Fits d) (out : Outside)
    (fresh : IsFresh out) where
  -- The state of `visit_pixel` once the next label and its hash are written.
  abbrev marked : ℕ → ℕ → Pass1 → Pass1
  marked x y s = record s {
    finder = record s.finder {
      provinces = write (index_of d bytes (point x y)) s.next_label s.finder.provinces;
      label_matrix =
          write (index_of d bytes (point x y)) (s.next_label % 2 ^ 32) s.finder.label_matrix;
    };
  }

  marked-Labelled :
      (x y : ℕ) (s : Pass1)
      → IsInside d (point x y)
      → Labelled d bytes fits out x y s
      → Labelled d bytes fits out x y (marked x y s)
  marked-Labelled x y s i h = record {
    n = h.n;
    next = h.next;
    count = h.count;
    col = h.col;
    tree = h.tree;
    served =
        served_same d bytes fits out fresh h.n h.col s.finder.provinces s.next_label x y i h.served;
    unused = h.unused;
  }

  abbrev choice : ℕ → ℕ → Pass1 → Option (ProvinceId × Dict ProvinceId)
  choice x y s =
      let m = marked x y s in
      let c = color_of d bytes (point x y) in
      pick_label out.order s.next_label
        (adjacent_label d bytes m.finder.provinces (point x y) c left)
        (adjacent_label d bytes m.finder.provinces (point x y) c up) m.finder.label_parents

  choice-Picked :
      (x y : ℕ) (s : Pass1)
      → IsInside d (point x y)
      → (h : Labelled d bytes fits out x y s)
      → Picked out h.n h.col
          (color_of d bytes (point x y))
          s.next_label
          s.finder.label_parents
          (choice x y s)
  unfolding marked-Labelled
  choice-Picked x y s i h =
      let g = marked-Labelled x y s i h in
      let c = color_of d bytes (point x y) in
      let labels = (marked x y s).finder.provinces in
      pick_label-Picked out s.next_label _ _ h.tree
        (subst (λ z. ¬ IsUsed out h.n z) (sym h.next) (not-IsUsed d bytes fits out fresh h.n))
        (adjacent_label-Offers d bytes fits out h.n h.col labels (point x y) left i (λ q e b.
          let (j, seen) = left_seen d bytes fits (point x y) q i e in g.served q j seen b))
        (adjacent_label-Offers d bytes fits out h.n h.col labels (point x y) up i
          (λ q e b. let (j, seen) = up_seen d bytes fits (point x y) q i e in g.served q j seen b))

  visit_pixel-Ends :
      (x y : ℕ) (s : Pass1)
      → IsInside d (point x y)
      → Labelled d bytes fits out x y s
      → Ends (Labelled d bytes fits out (suc x) y) Stopped (visit_pixel d bytes out (point x y) s)
  unfolding visit_pixel marked-Labelled
  visit_pixel-Ends x y s i h =
      let p = point x y in
      let E = Ends (Labelled d bytes fits out (suc x) y) Stopped in
      elim (Bool-cases (is_border d bytes p)) [
        | inl b ↦
            let f = (marked x y s).finder in
            let s' = record s {
              num_border_pixels = (s.num_border_pixels + 1) % 2 ^ 32;
              finder = record f { label_matrix = write (index_of d bytes p) 0 f.label_matrix };
            } in
            let e : visit_pixel d bytes out p s ≡ more s' = rw (visit_pixel, b) refl in
            subst E (sym e) (record {
              n = h.n;
              next = h.next;
              count = h.count;
              col = h.col;
              tree = h.tree;
              served =
                  served_next d bytes fits out fresh h.n h.col s.finder.provinces s.next_label x y i
                    h.served (λ n. absurd (ground (arith, b, n)));
              unused = h.unused;
            })
        | inr b ↦
            let c = choice-Picked x y s i h in
            let m = marked x y s in
            let g = marked-Labelled x y s i h in
            let used = λ (z : ProvinceId × Dict ProvinceId). use_label d bytes out p m z in
            let e : visit_pixel d bytes out p s ≡ more (used (c.label, c.links)) =
              rw (visit_pixel, b) (ap (λ r. or_none {S = Pass1} r (λ z. more (used z))) c.picks) in
            subst E (sym e) (elim c.serves [
              | inl n ↦ use_label_new d bytes fits out fresh x y m g i c.label c.links c.tree n
              | inr n ↦ use_label_old d bytes fits out fresh x y m g i c.label c.links c.tree n
            ])
      ]

  label_pixel-Ends :
      (x y : ℕ) (s : Pass1)
      → IsInside d (point x y)
      → Labelled d bytes fits out x y s
      → Ends (Labelled d bytes fits out (suc x) y) Stopped (label_pixel d bytes out (point x y) s)
  unfolding label_pixel
  label_pixel-Ends x y s i h =
      let polled = poll d bytes out s.finder in
      let s' = record s { finder = polled } in
      let E = λ (v : Bool).
        Ends (Labelled d bytes fits out (suc x) y) Stopped
          (if v then done (some polled) else visit_pixel d bytes out (point x y) s') in
      elim (Bool-cases polled.do_estop) [
        | inl t ↦ subst E (sym t) (polled, refl, t)
        | inr t ↦ subst E (sym t) (
            visit_pixel-Ends x y s' i (record {
              n = h.n;
              next = h.next;
              count = h.count;
              col = h.col;
              tree = h.tree;
              served = h.served;
              unused = h.unused;
            }))
      ]

  -- The pass, from a finder with no links and no border pixels, goes over every pixel or is stopped.
  pub do_pass1-Ends :
      (s : Finder)
      → s.label_parents ≡ []
      → s.border_pixels ≡ []
      → Ends (Labelled d bytes fits out 0 d.h) Stopped (do_pass1 d bytes out s)
  unfolding do_pass1
  do_pass1-Ends s none_yet no_borders =
      for_rows-Ends (label_pixel d bytes out) (Labelled d bytes fits out) Stopped 0 d.w d.h
        (λ x y t a b. label_pixel-Ends x y t (a, b))
        (λ y t h. record {
          n = h.n;
          next = h.next;
          count = h.count;
          col = h.col;
          tree = h.tree;
          served = λ q j seen b. h.served q j (ground (arith, seen, j)) b;
          unused = h.unused;
        })
        d.w (omega arith) d.h 0 _ (omega arith)
        (record {
          n = s.created;
          next = refl;
          count = refl;
          col = λ _. border_color;
          tree = record {
            descends = λ k v e. absurd (ground (arith, none_yet, e));
            keeps_color = λ k v e. refl;
            used = λ k v e. absurd (ground (arith, none_yet, e));
          };
          served = λ q j seen b. absurd (ground (arith, seen));
          unused = no_borders;
        })
