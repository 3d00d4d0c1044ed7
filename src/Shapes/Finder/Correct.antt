-- ===== src/Shapes/Finder/Correct.antt =====
-- findAllShapes: whatever is stopped when, it returns, with no shapes or with those of the labels.
use ho_i4_mod_development_to.Base.{
  ℕ, ◌≡◌, refl, sym, ◌∙◌, ap, Bool, true, false, ◌||◌, Option, none, some, [], ◌⊎◌, inl, inr,
  if◌then◌else◌, arith, Bool-cases, subst,
}
use mathlib.Core.Option.{some-injective}
use ho_i4_mod_development_to.Base.Dict
use ho_i4_mod_development_to.Base.Dict.{Dict}
use ho_i4_mod_development_to.Colors.{Color, border_color}
use ho_i4_mod_development_to.Project.{ProvinceId, invalid_province}
use ho_i4_mod_development_to.Shapes.{Point2d, Dimensions}
use ho_i4_mod_development_to.Shapes.Neighbours.{IsInside, is_border}
use ho_i4_mod_development_to.Shapes.Loops.{Loop, more, done, ◌>>=◌, Ends, bind-Ends}
use ho_i4_mod_development_to.Shapes.Finder.{
  Outside, Finder, Pass1, pass1, output_pass1, pass2, output_pass2, merge_borders, error_check,
  finished, poll,
}
use ho_i4_mod_development_to.Shapes.Finder.Second.{Pass2}
use ho_i4_mod_development_to.Shapes.Finder.Borders.{do_merge_borders}
use ho_i4_mod_development_to.Shapes.Finder.Run.{
  give_up, unless_stopped, first_pass, first_output, second_pass, second_output, third_pass,
  last_pass, returned, find_all_shapes, at_stage, reset_colors, write_stage,
}
use ho_i4_mod_development_to.Shapes.Finder.Matrix.{Fits}
use ho_i4_mod_development_to.Shapes.Finder.Trees.{IsFresh, Tree}
use ho_i4_mod_development_to.Shapes.Finder.Labels.{Labelled}
use ho_i4_mod_development_to.Shapes.Finder.First
use ho_i4_mod_development_to.Shapes.Finder.First.{do_pass1-Ends}
use ho_i4_mod_development_to.Shapes.Finder.Editing.{count}
use ho_i4_mod_development_to.Shapes.Finder.Fibres.{Shaped-same}
use ho_i4_mod_development_to.Shapes.Finder.Sorting
use ho_i4_mod_development_to.Shapes.Finder.Sorting.{AllServe, Sorted, do_pass2-Ends}
use ho_i4_mod_development_to.Shapes.Finder.Merging.{Same}
use ho_i4_mod_development_to.Shapes.Finder.Merged.{Waits, Waits-Same, Merges, merge_all-Merges}
use ho_i4_mod_development_to.Shapes.Finder.Whole.{Whole, Waits-Whole, do_finalize-Whole}

module _ (d : Dimensions) (bytes : ℕ → ℕ) (fits : Fits d) (out : Outside)
    (fresh : IsFresh out) where
  -- A return from the function has no shapes.
  abbrev pub Gives : Option Finder → Type 0
  Gives r = (t : Finder) × (r ≡ some t) × (t.shapes ≡ [])

  -- After the first pass.
  pub record IsLabelled (s : Finder) : Type 0 where
    n : ℕ
    col : ProvinceId → Color
    tree : Tree out n col s.label_parents
    served : AllServe d bytes fits out n col s.provinces
    unused : s.border_pixels ≡ []

  unless_stopped-Ends :
      (P : Finder → Type 0) (s : Finder)
      → P (poll d bytes out s)
      → Ends P Gives (unless_stopped d bytes out s)
  unfolding unless_stopped
  unless_stopped-Ends P s h =
      let polled = poll d bytes out s in
      let E =
        λ (v : Bool). Ends P Gives (if v then done (some (give_up polled)) else more polled) in
      elim (Bool-cases polled.do_estop) [
        | inl e ↦ subst E (sym e) (give_up polled, refl, refl)
        | inr e ↦ subst E (sym e) h
      ]

  -- A pass that was stopped is followed by a return.
  stays_stopped :
      (P : Finder → Type 0) (s : Finder)
      → s.do_estop ≡ true
      → Ends P Gives (unless_stopped d bytes out s)
  unfolding unless_stopped
  stays_stopped P s e =
      let polled = poll d bytes out s in
      let E =
        λ (v : Bool). Ends P Gives (if v then done (some (give_up polled)) else more polled) in
      subst E (sym (ap (λ v. v || out.estop s.tests) e)) (give_up polled, refl, refl)

  pub first_pass-Ends :
      (s : Finder)
      → s.label_parents ≡ []
      → s.border_pixels ≡ []
      → Ends IsLabelled Gives (first_pass d bytes out s)
  unfolding first_pass
  first_pass-Ends s a b =
      next _ (do_pass1-Ends d bytes fits out fresh (at_stage d bytes out pass1 s) a b)
    where
      next :
          (l : Loop Pass1 (Option Finder))
          → Ends (Labelled d bytes fits out 0 d.h) First.Stopped l
          → Ends IsLabelled Gives (elim l [
            | more t ↦ unless_stopped d bytes out t.finder
            | done none ↦ done none
            | done (some t) ↦ unless_stopped d bytes out t
          ])
      next (more t) h = unless_stopped-Ends IsLabelled t.finder (record {
        n = h.n;
        col = h.col;
        tree = h.tree;
        served = λ p i b. h.served p i (ground (arith, i)) b;
        unused = h.unused;
      })
      next (done none) (t, e, f) = absurd cc
      next (done (some t)) (u, e, f) =
          stays_stopped IsLabelled t (ap (λ v. v.do_estop) (some-injective _ _ e) ∙ f)

  IsLabelled-Same :
      (s t : Finder)
      → s.label_parents ≡ t.label_parents
      → s.provinces ≡ t.provinces
      → s.border_pixels ≡ t.border_pixels
      → IsLabelled s
      → IsLabelled t
  IsLabelled-Same s t a b c h = record {
    n = h.n;
    col = h.col;
    tree = subst (λ v. Tree out h.n h.col v) a h.tree;
    served = subst (AllServe d bytes fits out h.n h.col) b h.served;
    unused = sym c ∙ h.unused;
  }

  pub first_output-Ends :
      (s : Finder) → IsLabelled s → Ends IsLabelled Gives (first_output d bytes out s)
  unfolding first_output
  first_output-Ends s h =
      let t = at_stage d bytes out output_pass1 s in
      let u = write_stage d bytes out (record t {
        label_to_color = Dict.insert invalid_province border_color t.label_to_color;
      }) in
      let E =
        λ (v : Bool). Ends IsLabelled Gives (if v then unless_stopped d bytes out u else more t) in
      elim (Bool-cases out.output_stages) [
        | inl e ↦
            subst E (sym e)
              (unless_stopped-Ends IsLabelled u (IsLabelled-Same s _ refl refl refl h))
        | inr e ↦ subst E (sym e) (IsLabelled-Same s t refl refl refl h)
      ]

  -- After the second pass.
  pub record IsShaped (s : Pass2) : Type 0 where
    pub n : ℕ
    pub col : ProvinceId → Color
    pub waits : Waits d bytes fits out n col s.label_to_shapeidx s.finder.border_pixels s.finder
    pub present :
        (p : Point2d)
        → IsInside d p
        → is_border d bytes p ≡ true
        → count p s.finder.border_pixels ≡ 1

  Sorted-IsShaped :
      (n : ℕ) (col : ProvinceId → Color) (t : Pass2)
      → Sorted d bytes fits out n col 0 d.h t
      → IsShaped t
  Sorted-IsShaped n col t h = record {
    n = n;
    col = col;
    waits = record {
      shaped = Shaped-same d bytes fits (λ p i. ground (arith, i, h.counted p i)) h.stands.shaped;
      hued = h.stands.hued;
      served = h.served;
      once = λ p i. ground (arith, i, h.counted p i);
      borders = h.borders;
    };
    present = λ p i b. ground (arith, i, b, h.counted p i);
  }

  IsShaped-Same :
      (s t : Pass2)
      → s.label_to_shapeidx ≡ t.label_to_shapeidx
      → s.finder.border_pixels ≡ t.finder.border_pixels
      → Same s.finder t.finder
      → IsShaped s
      → IsShaped t
  IsShaped-Same s t a b e h = record {
    n = h.n;
    col = h.col;
    waits =
        subst (λ v. Waits d bytes fits out h.n h.col v t.finder.border_pixels t.finder) a
          (subst (λ v. Waits d bytes fits out h.n h.col s.label_to_shapeidx v t.finder) b
            (Waits-Same d bytes fits out h.n h.col s.label_to_shapeidx s.finder.border_pixels
              s.finder t.finder e h.waits));
    present = λ p i f. subst (λ v. count p v ≡ 1) b (h.present p i f);
  }

  pub second_pass-Ends :
      (s : Finder) → IsLabelled s → Ends IsShaped Gives (second_pass d bytes out s)
  unfolding second_pass
  second_pass-Ends s h = next _ (
      do_pass2-Ends d bytes fits out h.n h.col
        (at_stage d bytes out pass2 (reset_colors d bytes out s)) h.tree h.served h.unused)
    where
      after : Pass2 → Loop Pass2 (Option Finder)
      after t = unless_stopped d bytes out t.finder >>= λ f. more (record t { finder = f })

      next :
          (l : Loop Pass2 (Option Pass2))
          → Ends (Sorted d bytes fits out h.n h.col 0 d.h) Sorting.Stopped l
          → Ends IsShaped Gives
              (elim l [ more t ↦ after t | done none ↦ done none | done (some t) ↦ after t ])
      next (more t) g =
          bind-Ends (λ f. IsShaped (record t { finder = f })) IsShaped Gives _ _
            (unless_stopped-Ends (λ f. IsShaped (record t { finder = f })) t.finder
              (IsShaped-Same t _ refl refl (refl, refl) (Sorted-IsShaped h.n h.col t g)))
            (λ f j. j)
      next (done none) (t, e, f) = absurd cc
      next (done (some t)) (u, e, f) =
          bind-Ends (λ f. IsShaped (record t { finder = f })) IsShaped Gives _ _
            (stays_stopped (λ f. IsShaped (record t { finder = f })) t.finder
              (ap (λ v. v.finder.do_estop) (some-injective _ _ e) ∙ f))
            (λ f j. j)

  pub second_output-Ends :
      (s : Pass2) → IsShaped s → Ends IsShaped Gives (second_output d bytes out s)
  unfolding second_output
  second_output-Ends s h =
      let t = at_stage d bytes out output_pass2 s.finder in
      let P = λ (f : Finder). IsShaped (record s { finder = f }) in
      let kept : P t = IsShaped-Same s _ refl refl (refl, refl) h in
      let u = write_stage d bytes out t in
      let E = λ (v : Bool). Ends P Gives (if v then unless_stopped d bytes out u else more t) in
      let written : Ends P Gives
          (if out.output_stages then unless_stopped d bytes out u else more t) =
        elim (Bool-cases out.output_stages) [
          | inl e ↦
              subst E (sym e) (unless_stopped-Ends P u (IsShaped-Same s _ refl refl (refl, refl) h))
          | inr e ↦ subst E (sym e) kept
        ] in
      bind-Ends P IsShaped Gives _ _
        (bind-Ends P P Gives _ _ written (λ f j.
          unless_stopped-Ends P f
            (IsShaped-Same (record s { finder = f }) _ refl refl (refl, refl) j)))
        (λ f j. j)

  -- After the third pass.
  abbrev pub IsMerged : Finder → Type 0
  IsMerged s = Whole d bytes fits s.provinces s.shapes

  pub third_pass-Ends : (s : Pass2) → IsShaped s → Ends IsMerged Gives (third_pass d bytes out s)
  unfolding third_pass do_merge_borders
  third_pass-Ends s h =
      let f = at_stage d bytes out merge_borders (reset_colors d bytes out s.finder) in
      next _ (
        merge_all-Merges d bytes fits out h.n h.col s.label_to_shapeidx f.border_pixels f (
          Waits-Same d bytes fits out h.n h.col s.label_to_shapeidx s.finder.border_pixels s.finder
            f (refl, refl) h.waits))
    where
      merged : Bool → Finder → Loop Finder (Option Finder)
      merged b t =
          let polled = poll d bytes out t in
          if b
          then (if polled.do_estop
              then done (some (record polled { shapes = [] }))
              else more polled)
          else done (some (record t { shapes = [] }))

      go_on :
          (b : Bool) (t : Finder)
          → (b ≡ true → Waits d bytes fits out h.n h.col s.label_to_shapeidx [] t)
          → Ends IsMerged Gives (merged b t)
      go_on false t w = (record t { shapes = [] }, refl, refl)
      go_on true t w =
          let polled = poll d bytes out t in
          let stop = record polled { shapes = [] } in
          let E = λ (v : Bool). Ends IsMerged Gives (if v then done (some stop) else more polled) in
          elim (Bool-cases polled.do_estop) [
            | inl e ↦ subst E (sym e) (stop, refl, refl)
            | inr e ↦
                subst E (sym e)
                  (Waits-Whole d bytes fits out h.n h.col s.label_to_shapeidx t (w refl))
          ]

      next :
          (r : Option (Bool × Finder))
          → Merges d bytes fits out h.n h.col s.label_to_shapeidx r
          → Ends IsMerged Gives (elim r [ none ↦ done none | some (b, t) ↦ merged b t ])
      next r (b, t, e, w) =
          subst (λ v. Ends IsMerged Gives (elim v [ none ↦ done none | some (b, t) ↦ merged b t ]))
            (sym e) (go_on b t w)

  -- From a new finder, over an image whose pixels a uint32_t counts, findAllShapes returns, whenever it
  -- is stopped. It has gone to the end and its shapes part the image, each with one colour but for the
  -- borders, or it gives no shapes.
  pub find_all_shapes_lem :
      (s : Finder)
      → s.label_parents ≡ []
      → s.border_pixels ≡ []
      → (t : Finder) × (find_all_shapes d bytes out s ≡ some t)
        × ((t.stage ≡ finished) × Whole d bytes fits t.provinces t.shapes ⊎ (t.shapes ≡ []))
  unfolding find_all_shapes returned last_pass
  find_all_shapes_lem s a b = finish _ (
      bind-Ends IsShaped IsMerged Gives _ _
        (bind-Ends IsShaped IsShaped Gives _ _
          (bind-Ends IsLabelled IsShaped Gives _ _
            (bind-Ends IsLabelled IsLabelled Gives _ _ (first_pass-Ends s a b) first_output-Ends)
            second_pass-Ends)
          second_output-Ends)
        third_pass-Ends)
    where
      finish :
          (l : Loop Finder (Option Finder))
          → Ends IsMerged Gives l
          → (t : Finder) × (returned d bytes out l ≡ some t)
            × ((t.stage ≡ finished) × Whole d bytes fits t.provinces t.shapes ⊎ (t.shapes ≡ []))
      finish (more t) h = (
        last_pass d bytes out t,
        refl,
        inl (refl, do_finalize-Whole d bytes fits out (at_stage d bytes out error_check t) h),
      )
      finish (done r) (t, e, empty) = (t, e, inr empty)
