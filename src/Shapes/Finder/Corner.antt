-- ===== src/Shapes/Finder/Corner.antt =====
-- mergeBorders gives up at a border pixel in the last column and row that has no neighbour to merge
-- with, however many other pixels have a colour.
use ho_i4_mod_development_to.Base.{
  ℕ, suc, ◌-◌, ◌≤◌, ◌≡◌, ◌≢◌, refl, sym, ap, Bool, true, false, Option, none, some, List, [], ◌∷◌,
  inl, inr, if◌then◌else◌, arith, Bool-cases, Option-cases, subst,
}
use mathlib.Core.Option.{some-injective}
use ho_i4_mod_development_to.Base.Dict.{Dict}
use ho_i4_mod_development_to.Shapes.{Point2d, Dimensions, Pixel, left, up, down}
use ho_i4_mod_development_to.Shapes.Neighbours.{IsInside, is_border}
use ho_i4_mod_development_to.Shapes.Loops.{point, Loop, more, done, Ends, bind-Ends, for_rows-Ends}
use ho_i4_mod_development_to.Shapes.Finder.{
  Outside, Finder, get_adjacent_point, poll, merge_borders,
}
use ho_i4_mod_development_to.Shapes.Finder.Second.{Pass2}
use ho_i4_mod_development_to.Shapes.Finder.Borders.{
  Target, found, stopped, missing, search_pixel, search, merge_target, merge_into, merge_with,
  merge_border, merge_all, do_merge_borders,
}
use ho_i4_mod_development_to.Shapes.Finder.Run.{
  third_pass, returned, find_all_shapes, at_stage, reset_colors,
}
use ho_i4_mod_development_to.Shapes.Finder.Matrix.{Fits, same_point, eq_of_same_point}
use ho_i4_mod_development_to.Shapes.Finder.Trees.{IsFresh}
use ho_i4_mod_development_to.Shapes.Finder.Editing.{count}
use ho_i4_mod_development_to.Shapes.Finder.Merged.{Merges, Waits-Same, merge_all-Merges}
use ho_i4_mod_development_to.Shapes.Finder.Correct.{
  Gives, IsLabelled, IsShaped, first_pass-Ends, first_output-Ends, second_pass-Ends,
  second_output-Ends,
}

-- A border pixel that has no coloured pixel to the left, above or below, and none to its lower right.
pub record IsStranded (d : Dimensions) (bytes : ℕ → ℕ) (p : Point2d) : Type 0 where
  pub inside : IsInside d p
  pub to_left : get_adjacent_point d bytes p left ≡ none
  pub above : get_adjacent_point d bytes p up ≡ none
  pub below : get_adjacent_point d bytes p down ≡ none
  pub borders : (q : Point2d) → IsInside d q → p.x ≤ q.x → p.y ≤ q.y → is_border d bytes q ≡ true

module _ (d : Dimensions) (bytes : ℕ → ℕ) (out : Outside) (p : Point2d)
    (stranded : IsStranded d bytes p) where
  -- There is nothing to merge with.
  abbrev IsLost : Target → Type 0
  IsLost (found q t) = true ≡ false
  IsLost (stopped t) = Unit
  IsLost (missing t) = Unit

  -- The search stays below and to the right.
  abbrev IsBeyond : ℕ → ℕ → Type 0
  IsBeyond x y = (p.x ≤ x) × (p.y ≤ y)

  search_pixel-Lost :
      (x y : ℕ) (s : Finder)
      → IsInside d (point x y)
      → IsBeyond x y
      → Ends (λ _. IsBeyond (suc x) y) IsLost (search_pixel d bytes out (point x y) s)
  unfolding search_pixel
  search_pixel-Lost x y s i h =
      let polled = poll d bytes out s in
      let b = stranded.borders (point x y) i h.0 h.1 in
      let rest : Bool → Loop Finder Target =
        λ v. if v then more polled else done (found (point x y) polled) in
      let E = λ (v : Bool).
        Ends (λ (_ : Finder). IsBeyond (suc x) y) IsLost
          (if v then done (stopped polled) else rest (is_border d bytes (point x y))) in
      elim (Bool-cases polled.do_estop) [
        | inl t ↦ subst E (sym t) tt
        | inr t ↦ subst E (sym t) (
            subst (λ v. Ends (λ (_ : Finder). IsBeyond (suc x) y) IsLost (rest v)) (sym b)
              (omega (arith, h.0), h.1))
      ]

  search-Lost : (s : Finder) → IsLost (search d bytes out p s)
  unfolding search
  search-Lost s = outcome _ (
      for_rows-Ends (search_pixel d bytes out) (λ x y t. IsBeyond x y) IsLost p.x d.w d.h
        (λ x y t i j h. search_pixel-Lost x y t (i, j) h)
        (λ y t h. (omega arith, omega (arith, h.1))) (d.w - p.x) (omega (arith, stranded.inside.0))
        (d.h - p.y) p.y s (omega (arith, stranded.inside.1)) (omega arith, omega arith))
    where
      outcome :
          (l : Loop Finder Target)
          → Ends (λ t. IsBeyond p.x d.h) IsLost l
          → IsLost (elim l [ more t ↦ missing t | done t ↦ t ])
      outcome (more t) h = tt
      outcome (done t) h = h

  merge_target-Lost : (s : Finder) → IsLost (merge_target d bytes out p s)
  unfolding merge_target
  merge_target-Lost s =
      rw (merge_target, stranded.to_left, stranded.above, stranded.below) (search-Lost s)

  -- If it ends without an exception, it says that it failed.
  abbrev Fails : Option (Bool × Finder) → Type 0
  Fails r = (b : Bool) (t : Finder) → r ≡ some (b, t) → b ≡ false

  merge_with-Lost :
      (idx : Dict ℕ) (x : Pixel) (t : Target)
      → IsLost t
      → Ends (λ _. true ≡ false) Fails (merge_with d bytes out idx x t)
  unfolding merge_with
  merge_with-Lost idx x (stopped t) h = λ b u e. ap (λ v. v.0) (sym (some-injective _ _ e))
  merge_with-Lost idx x (missing t) h = λ b u e. ap (λ v. v.0) (sym (some-injective _ _ e))
  merge_with-Lost idx x (found q t) h = absurd cc

  -- Whatever the target, a return says that merging failed.
  merge_with-Fails :
      (idx : Dict ℕ) (x : Pixel) (t : Target)
      → Ends (λ _. Unit) Fails (merge_with d bytes out idx x t)
  unfolding merge_with
  merge_with-Fails idx x (stopped t) = λ b u e. ap (λ v. v.0) (sym (some-injective _ _ e))
  merge_with-Fails idx x (missing t) = λ b u e. ap (λ v. v.0) (sym (some-injective _ _ e))
  merge_with-Fails idx x (found q t) = elim (Option-cases (merge_into d bytes out x q idx t)) [
    | inl e ↦ rw (merge_with, e) (λ b u f. absurd cc)
    | inr (u, e) ↦ rw (merge_with, e) tt
  ]

  merge_border-Fails :
      (idx : Dict ℕ) (x : Pixel) (s : Finder)
      → Ends (λ _. same_point x.point p ≡ false) Fails (merge_border d bytes out idx x s)
  unfolding merge_border
  merge_border-Fails idx x s =
      let polled = poll d bytes out s in
      let I = λ (_ : Finder). same_point x.point p ≡ false in
      let E = λ (v : Bool). Ends I Fails (
        if v
        then done (some (false, polled))
        else merge_with d bytes out idx x (merge_target d bytes out x.point polled)) in
      elim (Bool-cases polled.do_estop) [
        | inl t ↦ subst E (sym t) (λ b u e. ap (λ v. v.0) (sym (some-injective _ _ e)))
        | inr t ↦ subst E (sym t) (elim (Bool-cases (same_point x.point p)) [
          | inl e ↦
              let lost =
                subst (λ v. IsLost (merge_target d bytes out v polled))
                  (sym (eq_of_same_point x.point p e)) (merge_target-Lost polled) in
              weaken (λ _. true ≡ false) I _ (λ u h. absurd cc) (merge_with-Lost idx x _ lost)
          | inr e ↦ weaken (λ _. Unit) I _ (λ u h. e) (merge_with-Fails idx x _)
        ])
      ]
    where
      weaken :
          (I J : Finder → Type 0) (l : Loop Finder (Option (Bool × Finder)))
          → ((u : Finder) → I u → J u)
          → Ends I Fails l
          → Ends J Fails l
      weaken I J (more u) f h = f u h
      weaken I J (done r) f h = h

  merge_all-Fails :
      (idx : Dict ℕ) (xs : List Pixel) (s : Finder)
      → count p xs ≢ 0
      → Fails (merge_all d bytes out idx xs s)
  unfolding merge_all
  merge_all-Fails idx [] s h = absurd (h refl)
  merge_all-Fails idx (x ∷ xs) s h =
      next _ (λ t k. merge_all-Fails idx xs t k) (merge_border-Fails idx x s)
    where
      next :
          (l : Loop Finder (Option (Bool × Finder)))
          → ((t : Finder) → count p xs ≢ 0 → Fails (merge_all d bytes out idx xs t))
          → Ends (λ _. same_point x.point p ≡ false) Fails l
          → Fails (elim l [ more t ↦ merge_all d bytes out idx xs t | done r ↦ r ])
      next (more t) later e = later t (λ k. h (ground (arith, e, k)))
      next (done r) later e = e

  module _ (fits : Fits d) (fresh : IsFresh out) where
    third_pass-Fails :
        (s : Pass2)
        → IsShaped d bytes fits out fresh s
        → Ends (λ _. true ≡ false) (Gives d bytes fits out fresh) (third_pass d bytes out s)
    unfolding third_pass do_merge_borders
    third_pass-Fails s h =
        let f = at_stage d bytes out merge_borders (reset_colors d bytes out s.finder) in
        next _
          (merge_all-Merges d bytes fits out h.n h.col s.label_to_shapeidx f.border_pixels f (
            Waits-Same d bytes fits out h.n h.col s.label_to_shapeidx s.finder.border_pixels
              s.finder f (refl, refl) h.waits))
          (merge_all-Fails s.label_to_shapeidx f.border_pixels f (λ e. absurd (
            ground (
              arith,
              e,
              h.present p stranded.inside
                  (stranded.borders p stranded.inside (omega arith) (omega arith)),
            ))))
      where
        merged : Bool → Finder → Loop Finder (Option Finder)
        merged b t =
            let polled = poll d bytes out t in
            if b
            then (if polled.do_estop
                then done (some (record polled { shapes = [] }))
                else more polled)
            else done (some (record t { shapes = [] }))

        next :
            (r : Option (Bool × Finder))
            → Merges d bytes fits out h.n h.col s.label_to_shapeidx r
            → Fails r
            → Ends
                (λ _. true ≡ false)
                (Gives d bytes fits out fresh)
                (elim r [ none ↦ done none | some (b, t) ↦ merged b t ])
        next none (b, t, e, w) k = absurd cc
        next (some (b, t)) m k =
            subst (λ v. Ends (λ _. true ≡ false) (Gives d bytes fits out fresh) (merged v t))
              (sym (k b t refl)) (record t { shapes = [] }, refl, refl)

    -- From a new finder, over an image whose pixels a uint32_t counts and in which a border pixel
    -- is stranded, findAllShapes returns and gives no shapes, whatever the rest of the image.
    pub find_all_shapes_stranded :
        (s : Finder)
        → s.label_parents ≡ []
        → s.border_pixels ≡ []
        → (t : Finder) × (find_all_shapes d bytes out s ≡ some t) × (t.shapes ≡ [])
    unfolding find_all_shapes returned
    find_all_shapes_stranded s a b = finish _ (
        bind-Ends IsS (λ _. true ≡ false) G _ _
          (bind-Ends IsS IsS G _ _
            (bind-Ends IsL IsS G _ _
              (bind-Ends IsL IsL G _ _ (first_pass-Ends d bytes fits out fresh s a b)
                (first_output-Ends d bytes fits out fresh))
              (second_pass-Ends d bytes fits out fresh))
            (second_output-Ends d bytes fits out fresh))
          third_pass-Fails)
      where
        IsL : Finder → Type 0
        IsL = IsLabelled d bytes fits out fresh

        IsS : Pass2 → Type 0
        IsS = IsShaped d bytes fits out fresh

        G : Option Finder → Type 0
        G = Gives d bytes fits out fresh

        finish :
            (l : Loop Finder (Option Finder))
            → Ends (λ _. true ≡ false) G l
            → (t : Finder) × (returned d bytes out l ≡ some t) × (t.shapes ≡ [])
        finish (more t) h = absurd cc
        finish (done r) h = h
