-- ===== src/Shapes/Finder/Quiet.antt =====
-- The passes of findAllShapes when nobody stops them.
use ho_i4_mod_development_to.Base.{
  ℕ, ◌%◌, ◌^◌, ◌≡◌, refl, sym, ◌∙◌, ap, Bool, false, Option, none, some, inl, inr, if◌then◌else◌,
  ◌==◌, arith, Bool-cases, Option-cases, subst,
}
use mathlib.Core.Option.{some-injective}
use ho_i4_mod_development_to.Base.Dict
use ho_i4_mod_development_to.Base.Dict.{Dict}
use ho_i4_mod_development_to.Project.{ProvinceId}
use ho_i4_mod_development_to.Shapes.{Point2d, Dimensions, Pixel, left, up}
use ho_i4_mod_development_to.Shapes.Neighbours.{is_border}
use ho_i4_mod_development_to.Shapes.Loops.{point, Loop, more, done, or_none, Ends, for_rows-Ends}
use ho_i4_mod_development_to.Shapes.Finder.{
  Outside, Finder, Pass1, write, color_of, index_of, get_root_label, poll, adjacent_label,
  pick_label, color_label, use_label, visit_pixel, label_pixel, do_pass1,
}
use ho_i4_mod_development_to.Shapes.Finder.Second.{
  Pass2, build_shape, add_to_label, ensure_shape, edit, add_pixel_to_shape, shape_pixel, sort_pixel,
  do_pass2, root_written,
}

abbrev pub IsCalm : Finder → Type 0
IsCalm s = s.do_estop ≡ false

-- There is no early return with a state.
abbrev pub Never : {A : Type 0} → Option A → Type 0
Never r = (t : _) → ¬ (r ≡ some t)

module _ (d : Dimensions) (bytes : ℕ → ℕ) (out : Outside)
    (quiet : (n : ℕ) → out.estop n ≡ false) where
  pub poll-IsCalm : (s : Finder) → IsCalm s → IsCalm (poll d bytes out s)
  poll-IsCalm s h = ground (arith, h, quiet s.tests)

  color_label-IsCalm :
      (l : ProvinceId) (s : Finder) → (color_label d bytes out l s).do_estop ≡ s.do_estop
  unfolding color_label
  color_label-IsCalm l s = elim (Bool-cases (Dict.has l s.label_to_color)) [
    | inl a ↦ rw (color_label, a) refl
    | inr a ↦ elim (Bool-cases (l == 0)) [
      | inl b ↦ rw (color_label, a, b) refl
      | inr b ↦ rw (color_label, a, b) refl
    ]
  ]

  use_label-IsCalm :
      (p : Point2d) (s : Pass1) (r : ProvinceId × Dict ProvinceId)
      → (use_label d bytes out p s r).finder.do_estop ≡ s.finder.do_estop
  unfolding use_label
  use_label-IsCalm p s (l, links) = elim (Bool-cases (l == s.next_label)) [
    | inl e ↦ rw (use_label, e) (color_label-IsCalm l _)
    | inr e ↦ rw (use_label, e) (color_label-IsCalm l _)
  ]

  or_none-IsCalm :
      {A S B : Type 0} (I : S → Type 0) (r : Option A) (f : A → Loop S (Option B))
      → ((a : A) → Ends I Never (f a))
      → Ends I Never (or_none r f)
  or_none-IsCalm I none f h = λ t e. absurd cc
  or_none-IsCalm I (some a) f h = h a

  label_pixel-IsCalm :
      (p : Point2d) (s : Pass1)
      → IsCalm s.finder
      → Ends (λ t. IsCalm t.finder) Never (label_pixel d bytes out p s)
  unfolding label_pixel visit_pixel
  label_pixel-IsCalm p s h =
      let polled = poll d bytes out s.finder in
      let s' = record s { finder = polled } in
      let c = poll-IsCalm s.finder h in
      let labels = write (index_of d bytes p) s.next_label polled.provinces in
      let marked : Pass1 = record s' {
        finder = record polled {
          provinces = labels;
          label_matrix = write (index_of d bytes p) (s.next_label % 2 ^ 32) polled.label_matrix;
        };
      } in
      let color = color_of d bytes p in
      let pick =
        pick_label out.order s.next_label (adjacent_label d bytes labels p color left)
          (adjacent_label d bytes labels p color up) polled.label_parents in
      let E = λ (v : Bool).
        Ends (λ (t : Pass1). IsCalm t.finder) Never
          (if v then done (some polled) else visit_pixel d bytes out p s') in
      subst E (sym c) (elim (Bool-cases (is_border d bytes p)) [
        | inl b ↦ rw (visit_pixel, b) c
        | inr b ↦
            rw (visit_pixel, b)
              (or_none-IsCalm {B = Finder} (λ (t : Pass1). IsCalm t.finder) pick
                (λ r. more (use_label d bytes out p marked r))
                (λ r. use_label-IsCalm p marked r ∙ c))
      ])

  pub do_pass1-IsCalm :
      (s : Finder) → IsCalm s → Ends (λ t. IsCalm t.finder) Never (do_pass1 d bytes out s)
  unfolding do_pass1
  do_pass1-IsCalm s h =
      for_rows-Ends (label_pixel d bytes out) (λ x y t. IsCalm t.finder) Never 0 d.w d.h
        (λ x y t a b i. label_pixel-IsCalm (point x y) t i) (λ y t i. i) d.w (omega arith) d.h 0 _
        (omega arith) h

  ensure_shape-IsCalm :
      (l : ProvinceId) (p : Pixel) (s : Pass2)
      → (ensure_shape d bytes out l p s).finder.do_estop ≡ s.finder.do_estop
  unfolding ensure_shape
  ensure_shape-IsCalm l p s = elim (Bool-cases (Dict.has l s.label_to_shapeidx)) [
    | inl e ↦ rw (ensure_shape, e) refl
    | inr e ↦ rw (ensure_shape, e) refl
  ]

  add_to_label-IsCalm :
      (l : ProvinceId) (p : Pixel) (s t : Pass2)
      → add_to_label d bytes out l p s ≡ some t
      → t.finder.do_estop ≡ s.finder.do_estop
  unfolding add_to_label
  add_to_label-IsCalm l p s t e = elim (Option-cases (Dict.lookup l s.label_to_shapeidx)) [
    | inl a ↦ absurd (ground (arith, a, e))
    | inr (i, a) ↦ elim (Option-cases (edit i (add_pixel_to_shape p) s.finder.shapes)) [
      | inl b ↦ absurd (ground (arith, a, b, e))
      | inr (ts, b) ↦
          let f : add_to_label d bytes out l p s
              ≡ some (record s { finder = record s.finder { shapes = ts } }) =
            rw (add_to_label, a, b) refl in
          ap (λ v. v.finder.do_estop) (some-injective _ _ (sym e ∙ f))
    ]
  ]

  sort_pixel-IsCalm :
      (p : Point2d) (s : Pass2)
      → IsCalm s.finder
      → Ends (λ t. IsCalm t.finder) Never (sort_pixel d bytes out p s)
  unfolding sort_pixel shape_pixel build_shape
  sort_pixel-IsCalm p s h =
      let s' : Pass2 = record s { finder = poll d bytes out s.finder } in
      let c = poll-IsCalm s.finder h in
      let px : Pixel = record { point = p; color = color_of d bytes p } in
      let I = λ (t : Pass2). IsCalm t.finder in
      let E =
        λ (v : Bool). Ends I Never (if v then done (some s') else shape_pixel d bytes out p s') in
      let build = λ (root : ProvinceId).
        build_shape d bytes out root px (root_written d bytes out p root s') in
      subst E (sym c) (elim (Bool-cases (is_border d bytes p)) [
        | inl b ↦ rw (shape_pixel, b) c
        | inr b ↦
            rw (shape_pixel, b)
              (or_none-IsCalm {B = Pass2} I
                (get_root_label s'.finder.label_parents (s'.finder.provinces (index_of d bytes p)))
                (λ root. or_none {B = Pass2} (build root) (λ t. more t))
                (λ root. elim (Option-cases (build root)) [
                  | inl e ↦ rw e (λ t f. absurd cc)
                  | inr (t, e) ↦
                      rw e (add_to_label-IsCalm root px _ t e ∙ (ensure_shape-IsCalm root px _ ∙ c))
                ]))
      ])

  pub do_pass2-IsCalm :
      (s : Finder) → IsCalm s → Ends (λ t. IsCalm t.finder) Never (do_pass2 d bytes out s)
  unfolding do_pass2
  do_pass2-IsCalm s h =
      for_rows-Ends (sort_pixel d bytes out) (λ x y t. IsCalm t.finder) Never 0 d.w d.h
        (λ x y t a b i. sort_pixel-IsCalm (point x y) t i) (λ y t i. i) d.w (omega arith) d.h 0 _
        (omega arith) h
