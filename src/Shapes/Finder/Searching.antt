-- ===== src/Shapes/Finder/Searching.antt =====
-- mergeBorders when nobody stops it and the last pixel of the image is no border: there is always a
-- pixel to merge with.
use ho_i4_mod_development_to.Base.{
  ℕ, suc, ◌-◌, ◌≤◌, ◌≡◌, sym, ◌∙◌, ap, Bool, true, false, Option, some, List, [], ◌∷◌, inl, inr,
  if◌then◌else◌, All, arith, Bool-cases, Option-cases, subst,
}
use mathlib.Core.Option.{some-injective}
use ho_i4_mod_development_to.Base.Dict
use ho_i4_mod_development_to.Base.Dict.{Dict}
use ho_i4_mod_development_to.Shapes.{Point2d, Dimensions, Pixel, left, up, down}
use ho_i4_mod_development_to.Shapes.Neighbours.{IsInside, is_border}
use ho_i4_mod_development_to.Shapes.Loops.{point, Loop, more, done, Ends, is_seen, for_rows-Ends}
use ho_i4_mod_development_to.Shapes.Finder.{Outside, Finder, index_of, get_adjacent_point, poll}
use ho_i4_mod_development_to.Shapes.Finder.Second.{edit, add_pixel_to_shape}
use ho_i4_mod_development_to.Shapes.Finder.Borders.{
  Target, found, stopped, missing, search_pixel, search, merge_target, merge_into, merge_with,
  merge_border, merge_all,
}
use ho_i4_mod_development_to.Shapes.Finder.Matrix.{same_point, eq_of_same_point}
use ho_i4_mod_development_to.Shapes.Finder.Quiet.{IsCalm, Never, poll-IsCalm}

module _ (d : Dimensions) (bytes : ℕ → ℕ) (out : Outside) (quiet : (n : ℕ) → out.estop n ≡ false)
    (last : Point2d) (inside : IsInside d last) (greatest : (d.w ≡ suc last.x) × (d.h ≡ suc last.y))
    (no_border : is_border d bytes last ≡ false) where
  -- There is something to merge with.
  abbrev IsFound : Target → Type 0
  IsFound (found q t) = IsCalm t
  IsFound (stopped t) = true ≡ false
  IsFound (missing t) = true ≡ false

  -- While the search goes on, what it has seen are borders.
  record Searched (p : Point2d) (x y : ℕ) (s : Finder) : Type 0 where
    calm : IsCalm s
    seen :
        (q : Point2d)
        → IsInside d q
        → p.x ≤ q.x
        → p.y ≤ q.y
        → is_seen x y q ≡ true
        → is_border d bytes q ≡ true

  search_pixel-Found :
      (p : Point2d) (x y : ℕ) (s : Finder)
      → Searched p x y s
      → Ends (Searched p (suc x) y) IsFound (search_pixel d bytes out (point x y) s)
  unfolding search_pixel
  search_pixel-Found p x y s h =
      let polled = poll d bytes out s in
      let c = poll-IsCalm d bytes out quiet s h.calm in
      let rest : Bool → Loop Finder Target =
        λ b. if b then more polled else done (found (point x y) polled) in
      let E = λ (v : Bool).
        Ends (Searched p (suc x) y) IsFound
          (if v then done (stopped polled) else rest (is_border d bytes (point x y))) in
      subst E (sym c) (elim (Bool-cases (is_border d bytes (point x y))) [
        | inr b ↦ subst (λ v. Ends (Searched p (suc x) y) IsFound (rest v)) (sym b) c
        | inl b ↦
            subst (λ v. Ends (Searched p (suc x) y) IsFound (rest v)) (sym b)
              (record {
                calm = c;
                seen = λ q i u v t. elim (Bool-cases (same_point (point x y) q)) [
                  | inl e ↦
                      subst (λ z. is_border d bytes z ≡ true) (eq_of_same_point (point x y) q e) b
                  | inr e ↦ h.seen q i u v (ground (arith, t, e))
                ];
              })
      ])

  search-Found :
      (p : Point2d) (s : Finder) → IsInside d p → IsCalm s → IsFound (search d bytes out p s)
  unfolding search
  search-Found p s (a, b) c = outcome _ (
      for_rows-Ends (search_pixel d bytes out) (Searched p) IsFound p.x d.w d.h
        (λ x y t i j h. search_pixel-Found p x y t h)
        (λ y t h. record {
          calm = h.calm;
          seen = λ q i u v e. h.seen q i u v (ground (arith, i, e, u));
        })
        (d.w - p.x) (omega (arith, a)) (d.h - p.y) p.y s (omega (arith, b))
        (record { calm = c; seen = λ q i u v e. absurd (ground (arith, u, v, e)) }))
    where
      outcome :
          (l : Loop Finder Target)
          → Ends (Searched p p.x d.h) IsFound l
          → IsFound (elim l [ more t ↦ missing t | done t ↦ t ])
      outcome (more t) h = absurd (
          ground (
            arith,
            no_border,
            h.seen last inside (omega (arith, a, greatest.0)) (omega (arith, b, greatest.1))
                (ground (arith, greatest.1)),
          ))
      outcome (done t) h = h

  merge_target-Found :
      (p : Point2d) (s : Finder) → IsInside d p → IsCalm s → IsFound (merge_target d bytes out p s)
  unfolding merge_target
  merge_target-Found p s i c = elim (Option-cases (get_adjacent_point d bytes p left)) [
    | inr (q, e) ↦ rw (merge_target, e) c
    | inl e ↦ elim (Option-cases (get_adjacent_point d bytes p up)) [
      | inr (q, f) ↦ rw (merge_target, e, f) c
      | inl f ↦ elim (Option-cases (get_adjacent_point d bytes p down)) [
        | inr (q, g) ↦ rw (merge_target, e, f, g) c
        | inl g ↦ rw (merge_target, e, f, g) (search-Found p s i c)
      ]
    ]
  ]

  merge_with-Found :
      (idx : Dict ℕ) (x : Pixel) (t : Target)
      → IsFound t
      → Ends IsCalm Never (merge_with d bytes out idx x t)
  unfolding merge_with merge_into
  merge_with-Found idx x (stopped s) h = absurd cc
  merge_with-Found idx x (missing s) h = absurd cc
  merge_with-Found idx x (found q s) h =
      let label = s.provinces (index_of d bytes q) in
      elim (Option-cases (Dict.lookup label idx)) [
        | inl e ↦ rw (merge_with, merge_into, e) (λ t f. absurd cc)
        | inr (i, e) ↦ elim (Option-cases (edit i (add_pixel_to_shape x) s.shapes)) [
          | inl f ↦ rw (merge_with, merge_into, e, f) (λ t g. absurd cc)
          | inr (ts, f) ↦ rw (merge_with, merge_into, e, f) h
        ]
      ]

  -- If it ends without an exception, it has merged every pixel.
  abbrev pub Succeeds : Option (Bool × Finder) → Type 0
  Succeeds r = (b : Bool) (t : Finder) → r ≡ some (b, t) → (b ≡ true) × IsCalm t

  pub merge_all-Succeeds :
      (idx : Dict ℕ) (xs : List Pixel) (s : Finder)
      → All (λ x. IsInside d x.point) xs
      → IsCalm s
      → Succeeds (merge_all d bytes out idx xs s)
  unfolding merge_all merge_border
  merge_all-Succeeds idx [] s i c = λ b t e.
      let f = some-injective _ _ e in (ap (λ v. v.0) (sym f), ap (λ v. v.1.do_estop) (sym f) ∙ c)
  merge_all-Succeeds idx (x ∷ xs) s (i, is) c =
      let polled = poll d bytes out s in
      let p = poll-IsCalm d bytes out quiet s c in
      let E = λ (v : Bool). Ends IsCalm Never (
        if v
        then done (some (false, polled))
        else merge_with d bytes out idx x (merge_target d bytes out x.point polled)) in
      next _ (λ t. merge_all-Succeeds idx xs t is)
        (subst E (sym p) (merge_with-Found idx x _ (merge_target-Found x.point polled i p)))
    where
      next :
          (l : Loop Finder (Option (Bool × Finder)))
          → ((t : Finder) → IsCalm t → Succeeds (merge_all d bytes out idx xs t))
          → Ends IsCalm Never l
          → Succeeds (elim l [ more t ↦ merge_all d bytes out idx xs t | done r ↦ r ])
      next (more t) later h = later t h
      next (done r) later h = λ b t e. absurd (h (b, t) e)
