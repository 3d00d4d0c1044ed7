-- ===== src/Shapes/Finder/Finishes.antt =====
-- findAllShapes goes to the end when nobody stops it and the last pixel is no border.
use ho_i4_mod_development_to.Base.{
  ℕ, suc, ◌≡◌, refl, sym, Bool, false, Option, none, some, List, [], ◌∷◌, inl, inr, if◌then◌else◌,
  All, Bool-cases, subst,
}
use ho_i4_mod_development_to.Base.Dict
use ho_i4_mod_development_to.Base.Dict.{Dict}
use ho_i4_mod_development_to.Colors.{border_color}
use ho_i4_mod_development_to.Project.{invalid_province}
use ho_i4_mod_development_to.Shapes.{Point2d, Dimensions}
use ho_i4_mod_development_to.Shapes.Neighbours.{IsInside, is_border}
use ho_i4_mod_development_to.Shapes.Loops.{Loop, more, done, ◌>>=◌, Ends, bind-Ends}
use ho_i4_mod_development_to.Shapes.Finder.{
  Outside, Finder, Pass1, pass1, pass2, output_pass1, output_pass2, merge_borders, error_check,
  finished, poll,
}
use ho_i4_mod_development_to.Shapes.Finder.Second.{Pass2}
use ho_i4_mod_development_to.Shapes.Finder.Borders.{do_merge_borders}
use ho_i4_mod_development_to.Shapes.Finder.Run.{
  give_up, unless_stopped, first_pass, first_output, second_pass, second_output, third_pass,
  last_pass, returned, find_all_shapes, at_stage, reset_colors, write_stage,
}
use ho_i4_mod_development_to.Shapes.Finder.Matrix.{Fits}
use ho_i4_mod_development_to.Shapes.Finder.Trees.{IsFresh}
use ho_i4_mod_development_to.Shapes.Finder.Quiet.{
  IsCalm, Never, poll-IsCalm, do_pass1-IsCalm, do_pass2-IsCalm,
}
use ho_i4_mod_development_to.Shapes.Finder.Searching.{Succeeds, merge_all-Succeeds}
use ho_i4_mod_development_to.Shapes.Finder.Whole.{Whole, do_finalize-Whole}
use ho_i4_mod_development_to.Shapes.Finder.Correct.{
  Gives, IsLabelled, IsShaped, IsMerged, first_pass-Ends, first_output-Ends, second_pass-Ends,
  second_output-Ends, third_pass-Ends,
}

-- Two rules of a loop give one.
both-Ends :
    {S R : Type 0} (I J : S → Type 0) (P Q : R → Type 0) (l : Loop S R)
    → Ends I P l
    → Ends J Q l
    → Ends (λ s. I s × J s) (λ r. P r × Q r) l
both-Ends I J P Q (more s) a b = (a, b)
both-Ends I J P Q (done r) a b = (a, b)

All-map :
    {A : Type 0} (P Q : A → Type 0) (xs : List A) → ((a : A) → P a → Q a) → All P xs → All Q xs
All-map P Q [] f h = tt
All-map P Q (x ∷ xs) f (a, h) = (f x a, All-map P Q xs f h)

module _ (d : Dimensions) (bytes : ℕ → ℕ) (fits : Fits d) (out : Outside) (fresh : IsFresh out)
    (quiet : (n : ℕ) → out.estop n ≡ false) (last : Point2d) (inside : IsInside d last)
    (greatest : (d.w ≡ suc last.x) × (d.h ≡ suc last.y))
    (no_border : is_border d bytes last ≡ false) where
  unless_stopped-IsCalm : (s : Finder) → IsCalm s → Ends IsCalm Never (unless_stopped d bytes out s)
  unfolding unless_stopped
  unless_stopped-IsCalm s h =
      let polled = poll d bytes out s in
      let c = poll-IsCalm d bytes out quiet s h in
      subst (λ v. Ends IsCalm Never (if v then done (some (give_up polled)) else more polled))
        (sym c) c

  abbrev IsCalm2 : Pass2 → Type 0
  IsCalm2 s = IsCalm s.finder

  first_pass-IsCalm : (s : Finder) → IsCalm s → Ends IsCalm Never (first_pass d bytes out s)
  unfolding first_pass
  first_pass-IsCalm s h =
      next _ (do_pass1-IsCalm d bytes out quiet (at_stage d bytes out pass1 s) h)
    where
      next :
          (l : Loop Pass1 (Option Finder))
          → Ends (λ t. IsCalm t.finder) Never l
          → Ends IsCalm Never (elim l [
            | more t ↦ unless_stopped d bytes out t.finder
            | done none ↦ done none
            | done (some t) ↦ unless_stopped d bytes out t
          ])
      next (more t) g = unless_stopped-IsCalm t.finder g
      next (done none) g = λ t e. absurd cc
      next (done (some t)) g = absurd (g t refl)

  first_output-IsCalm : (s : Finder) → IsCalm s → Ends IsCalm Never (first_output d bytes out s)
  unfolding first_output
  first_output-IsCalm s h =
      let t = at_stage d bytes out output_pass1 s in
      let u = write_stage d bytes out (record t {
        label_to_color = Dict.insert invalid_province border_color t.label_to_color;
      }) in
      let E =
        λ (v : Bool). Ends IsCalm Never (if v then unless_stopped d bytes out u else more t) in
      elim (Bool-cases out.output_stages) [
        | inl e ↦ subst E (sym e) (unless_stopped-IsCalm u h)
        | inr e ↦ subst E (sym e) h
      ]

  second_pass-IsCalm : (s : Finder) → IsCalm s → Ends IsCalm2 Never (second_pass d bytes out s)
  unfolding second_pass
  second_pass-IsCalm s h = next _ (
      do_pass2-IsCalm d bytes out quiet (at_stage d bytes out pass2 (reset_colors d bytes out s)) h)
    where
      after : Pass2 → Loop Pass2 (Option Finder)
      after t = unless_stopped d bytes out t.finder >>= λ f. more (record t { finder = f })

      next :
          (l : Loop Pass2 (Option Pass2))
          → Ends IsCalm2 Never l
          → Ends IsCalm2 Never
              (elim l [ more t ↦ after t | done none ↦ done none | done (some t) ↦ after t ])
      next (more t) g =
          bind-Ends IsCalm IsCalm2 Never _ _ (unless_stopped-IsCalm t.finder g) (λ f j. j)
      next (done none) g = λ t e. absurd cc
      next (done (some t)) g = absurd (g t refl)

  second_output-IsCalm : (s : Pass2) → IsCalm2 s → Ends IsCalm2 Never (second_output d bytes out s)
  unfolding second_output
  second_output-IsCalm s h =
      let t = at_stage d bytes out output_pass2 s.finder in
      let u = write_stage d bytes out t in
      let E =
        λ (v : Bool). Ends IsCalm Never (if v then unless_stopped d bytes out u else more t) in
      let written : E out.output_stages = elim (Bool-cases out.output_stages) [
        | inl e ↦ subst E (sym e) (unless_stopped-IsCalm u h)
        | inr e ↦ subst E (sym e) h
      ] in
      bind-Ends IsCalm IsCalm2 Never _ _
        (bind-Ends IsCalm IsCalm Never _ _ written unless_stopped-IsCalm) (λ f j. j)

  third_pass-IsCalm :
      (s : Pass2)
      → IsShaped d bytes fits out fresh s
      → IsCalm2 s
      → Ends IsCalm Never (third_pass d bytes out s)
  unfolding third_pass do_merge_borders
  third_pass-IsCalm s g h = next _ (
      merge_all-Succeeds d bytes out quiet last inside greatest no_border s.label_to_shapeidx
        s.finder.border_pixels
        (at_stage d bytes out merge_borders (reset_colors d bytes out s.finder))
        (All-map _ _ s.finder.border_pixels (λ x b. b.0) g.waits.borders) h)
    where
      merged : Bool → Finder → Loop Finder (Option Finder)
      merged b t =
          let polled = poll d bytes out t in
          if b
          then (if polled.do_estop
              then done (some (record polled { shapes = [] }))
              else more polled)
          else done (some (record t { shapes = [] }))

      next :
          (r : Option (Bool × Finder))
          → Succeeds d bytes out quiet last inside greatest no_border r
          → Ends IsCalm Never (elim r [ none ↦ done none | some (b, t) ↦ merged b t ])
      next none k = λ t e. absurd cc
      next (some (b, t)) k =
          let (merges, c) = k b t refl in
          let p = poll-IsCalm d bytes out quiet t c in
          let polled = poll d bytes out t in
          subst (λ v. Ends IsCalm Never (merged v t)) (sym merges)
            (subst
              (λ v.
                Ends IsCalm Never
                  (if v then done (some (record polled { shapes = [] })) else more polled))
              (sym p) p)

  -- From a new finder, over an image whose pixels a uint32_t counts and whose last pixel is no border,
  -- findAllShapes goes to its end where nobody stops it, and its shapes part the image.
  pub find_all_shapes_finishes :
      (s : Finder)
      → s.label_parents ≡ []
      → s.border_pixels ≡ []
      → s.do_estop ≡ false
      → (t : Finder) × (find_all_shapes d bytes out s ≡ some t)
        × (t.stage ≡ finished)
        × Whole d bytes fits t.provinces t.shapes
  unfolding find_all_shapes returned last_pass
  find_all_shapes_finishes s a b c = finish _ (
      bind-Ends Shaped2 Merged Nowhere _ _
        (bind-Ends Shaped2 Shaped2 Nowhere _ _
          (bind-Ends Labelled2 Shaped2 Nowhere _ _
            (bind-Ends Labelled2 Labelled2 Nowhere _ _
              (both-Ends IsL IsCalm G Never _ (first_pass-Ends d bytes fits out fresh s a b)
                (first_pass-IsCalm s c))
              (λ t h.
                both-Ends IsL IsCalm G Never _ (first_output-Ends d bytes fits out fresh t h.0)
                  (first_output-IsCalm t h.1)))
            (λ t h.
              both-Ends IsS IsCalm2 G Never _ (second_pass-Ends d bytes fits out fresh t h.0)
                (second_pass-IsCalm t h.1)))
          (λ t h.
            both-Ends IsS IsCalm2 G Never _ (second_output-Ends d bytes fits out fresh t h.0)
              (second_output-IsCalm t h.1)))
        (λ t h.
          both-Ends (IsMerged d bytes fits out fresh) IsCalm G Never _
            (third_pass-Ends d bytes fits out fresh t h.0) (third_pass-IsCalm t h.0 h.1)))
    where
      IsL : Finder → Type 0
      IsL = IsLabelled d bytes fits out fresh

      IsS : Pass2 → Type 0
      IsS = IsShaped d bytes fits out fresh

      G : Option Finder → Type 0
      G = Gives d bytes fits out fresh

      Labelled2 : Finder → Type 0
      Labelled2 t = IsL t × IsCalm t

      Shaped2 : Pass2 → Type 0
      Shaped2 t = IsS t × IsCalm2 t

      Merged : Finder → Type 0
      Merged t = IsMerged d bytes fits out fresh t × IsCalm t

      Nowhere : Option Finder → Type 0
      Nowhere r = G r × Never r

      finish :
          (l : Loop Finder (Option Finder))
          → Ends Merged Nowhere l
          → (t : Finder) × (returned d bytes out l ≡ some t)
            × (t.stage ≡ finished)
            × Whole d bytes fits t.provinces t.shapes
      finish (more t) h = (
        last_pass d bytes out t,
        refl,
        refl,
        do_finalize-Whole d bytes fits out (at_stage d bytes out error_check t) h.0,
      )
      finish (done r) ((t, e, _), n) = absurd (n t e)
