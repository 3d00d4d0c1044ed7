-- ===== src/Shapes/Neighbours.antt =====
-- getAdjacentPixel: which pixel is a neighbour, at the edges of the image too.
use ho_i4_mod_development_to.Base.{
  ℕ, ◌+◌, ◌%◌, ◌^◌, ◌-◌, ◌<◌, ◌≡◌, ◌∙◌, sym, Bool, true, false, Option, none, some, if◌then◌else◌,
  ltb, ◌==◌, arith, Bool-cases, Option-cases, inl, inr, subst,
}
use mathlib.Core.Option.{some-injective}
use ho_i4_mod_development_to.Colors.{border_color, do_colors_match}
use ho_i4_mod_development_to.Shapes.{
  Point2d, Dimensions, Pixel, Direction, left, right, up, down, is_in_image, get_color_at, moved,
  get_adjacent_pixel,
}

-- The dimensions are those of an image whose bytes a uint32_t can index.
pub record IsImage (d : Dimensions) : Type 0 where
  pub wide : d.w < 2 ^ 32
  pub high : d.h < 2 ^ 32

abbrev pub opposite : Direction → Direction
opposite left = right
opposite right = left
opposite up = down
opposite down = up

abbrev pub is_border : Dimensions → (ℕ → ℕ) → Point2d → Bool
is_border d bytes p = do_colors_match (get_color_at d bytes p.x p.y) border_color

-- The pixel next to one, where the image has it.
abbrev pub neighbour : Dimensions → Point2d → Direction → Option Point2d
neighbour d p left = if p.x == 0 then none else some (record p { x = p.x - 1 })
neighbour d p up = if p.y == 0 then none else some (record p { y = p.y - 1 })
neighbour d p right = if ltb (p.x + 1) d.w then some (record p { x = p.x + 1 }) else none
neighbour d p down = if ltb (p.y + 1) d.h then some (record p { y = p.y + 1 }) else none

abbrev pub IsInside : Dimensions → Point2d → Type 0
IsInside d p = (p.x < d.w) × (p.y < d.h)

-- What the wrap-around at the edges leads to is not in the image.
moved_lem :
    (d : Dimensions) (p : Point2d) (dir : Direction)
    → IsImage d
    → IsInside d p
    → (if is_in_image d (moved dir p).x (moved dir p).y then some (moved dir p) else none)
      ≡ neighbour d p dir
unfolding moved is_in_image
moved_lem d p left i (a, b) = elim (Bool-cases (p.x == 0)) [
  | inl t ↦ ground (arith, i.wide, a, b, t)
  | inr t ↦
      let e : (p.x + (2 ^ 32 - 1)) % 2 ^ 32 ≡ p.x - 1 = ground (arith, i.wide, a, t) in
      ground (arith, i.wide, a, b, t, e)
]
moved_lem d p right i (a, b) =
    let e : (p.x + 1) % 2 ^ 32 ≡ p.x + 1 = omega (arith, i.wide, a) in ground (arith, b, e)
moved_lem d p up i (a, b) = elim (Bool-cases (p.y == 0)) [
  | inl t ↦ ground (arith, i.high, a, b, t)
  | inr t ↦
      let e : (p.y + (2 ^ 32 - 1)) % 2 ^ 32 ≡ p.y - 1 = ground (arith, i.high, b, t) in
      ground (arith, i.high, a, b, t, e)
]
moved_lem d p down i (a, b) =
    let e : (p.y + 1) % 2 ^ 32 ≡ p.y + 1 = omega (arith, i.high, b) in ground (arith, a, e)

-- In a pixel of the image, the pixel to one side is the one whose coordinate differs by one, if the
-- image has it and it is no border; at an edge of the image there is none.
pub get_adjacent_pixel_lem :
    (d : Dimensions) (bytes : ℕ → ℕ) (p : Point2d) (dir : Direction)
    → IsImage d
    → IsInside d p
    → get_adjacent_pixel d bytes p dir ≡ elim (neighbour d p dir) [
      | none ↦ none
      | some q ↦
          if is_border d bytes q
          then none
          else some (record { point = q; color = get_color_at d bytes q.x q.y })
    ]
unfolding get_adjacent_pixel
get_adjacent_pixel_lem d bytes p dir i h =
    let m = moved_lem d p dir i h in
    elim (Bool-cases (is_in_image d (moved dir p).x (moved dir p).y)) [
      | inl t ↦
          let n : neighbour d p dir ≡ some (moved dir p) = ground (arith, m, t) in
          rw n (ground (arith, t))
      | inr t ↦ let n : neighbour d p dir ≡ none = ground (arith, m, t) in rw n (ground (arith, t))
    ]

-- A neighbour is in the image, and the pixel is its neighbour to the other side.
pub neighbour_back :
    (d : Dimensions) (p q : Point2d) (dir : Direction)
    → IsInside d p
    → neighbour d p dir ≡ some q
    → IsInside d q × (neighbour d q (opposite dir) ≡ some p)
neighbour_back d p q left (a, b) e = elim (Bool-cases (p.x == 0)) [
  | inl t ↦ absurd (ground (arith, t, e))
  | inr t ↦
      let n : p.x - 1 + 1 ≡ p.x = ground (arith, t) in
      let l : ltb (p.x - 1 + 1) d.w ≡ true = ground (arith, n, a, b) in
      let g : record p { x = p.x - 1 } ≡ q = some-injective _ _ (sym (ground (arith, t)) ∙ e) in
      subst (λ v. IsInside d v × (neighbour d v (opposite left) ≡ some p)) g
        ((ground (arith, a, b, t), ground (arith, a, b, t)), ground (arith, l, n))
]
neighbour_back d p q right (a, b) e = elim (Bool-cases (ltb (p.x + 1) d.w)) [
  | inl t ↦
      let n : p.x + 1 - 1 ≡ p.x = omega arith in
      let g : record p { x = p.x + 1 } ≡ q = some-injective _ _ (sym (ground (arith, t)) ∙ e) in
      subst (λ v. IsInside d v × (neighbour d v (opposite right) ≡ some p)) g
        ((ground (arith, a, b, t), ground (arith, a, b, t)), ground (arith, n))
  | inr t ↦ absurd (ground (arith, t, e))
]
neighbour_back d p q up (a, b) e = elim (Bool-cases (p.y == 0)) [
  | inl t ↦ absurd (ground (arith, t, e))
  | inr t ↦
      let n : p.y - 1 + 1 ≡ p.y = ground (arith, t) in
      let l : ltb (p.y - 1 + 1) d.h ≡ true = ground (arith, n, a, b) in
      let g : record p { y = p.y - 1 } ≡ q = some-injective _ _ (sym (ground (arith, t)) ∙ e) in
      subst (λ v. IsInside d v × (neighbour d v (opposite up) ≡ some p)) g
        ((ground (arith, a, b, t), ground (arith, a, b, t)), ground (arith, l, n))
]
neighbour_back d p q down (a, b) e = elim (Bool-cases (ltb (p.y + 1) d.h)) [
  | inl t ↦
      let n : p.y + 1 - 1 ≡ p.y = omega arith in
      let g : record p { y = p.y + 1 } ≡ q = some-injective _ _ (sym (ground (arith, t)) ∙ e) in
      subst (λ v. IsInside d v × (neighbour d v (opposite down) ≡ some p)) g
        ((ground (arith, a, b, t), ground (arith, a, b, t)), ground (arith, n))
  | inr t ↦ absurd (ground (arith, t, e))
]

-- Being next to each other goes both ways: where a pixel of the image that is no border has a
-- neighbour to one side, that neighbour is in the image, and has the pixel as its neighbour to the
-- other side.
pub get_adjacent_pixel_back :
    (d : Dimensions) (bytes : ℕ → ℕ) (p : Point2d) (q : Pixel) (dir : Direction)
    → IsImage d
    → IsInside d p
    → is_border d bytes p ≡ false
    → get_adjacent_pixel d bytes p dir ≡ some q
    → IsInside d q.point
      × (get_adjacent_pixel d bytes q.point (opposite dir)
          ≡ some (record { point = p; color = get_color_at d bytes p.x p.y }))
get_adjacent_pixel_back d bytes p q dir i h b e =
    let m = get_adjacent_pixel_lem d bytes p dir i h in
    elim (Option-cases (neighbour d p dir)) [
      | inl n ↦ absurd (ground (arith, m, n, e))
      | inr (r, n) ↦ elim (Bool-cases (is_border d bytes r)) [
        | inl t ↦ absurd (ground (arith, m, n, t, e))
        | inr t ↦
            let g : record { point = r; color = get_color_at d bytes r.x r.y } ≡ q =
              some-injective _ _ (sym (ground (arith, m, n, t)) ∙ e) in
            let (inside, back) = neighbour_back d p r dir h n in
            let k = get_adjacent_pixel_lem d bytes r (opposite dir) i inside in
            subst
              (λ v.
                IsInside d v.point
                × (get_adjacent_pixel d bytes v.point (opposite dir)
                    ≡ some (record { point = p; color = get_color_at d bytes p.x p.y })))
              g (inside, ground (arith, k, back, b))
      ]
    ]
