-- ===== src/Project/Graphics/Cells.antt =====
-- The bytes of the pixels: what a loop over the pixels leaves that gives some of them three bytes.
use ho_i4_mod_development_to.Base.{
  ℕ, zero, suc, ◌+◌, ◌*◌, ◌%◌, ◌^◌, ◌≤◌, ◌<◌, ◌≡◌, refl, sym, ◌∙◌, ap, subst, Bool, true, false,
  ◌||◌, Option, none, some, if◌then◌else◌, ◌==◌, arith, inl, inr, Bool-cases,
}
use ho_i4_mod_development_to.Shapes.{Point2d, Dimensions, xy_to_index}
use ho_i4_mod_development_to.Shapes.Neighbours.{IsImage, IsInside}
use ho_i4_mod_development_to.Shapes.Loops.{Loop, more, done, point, is_seen, Ends, for_rows-Ends}
use ho_i4_mod_development_to.Shapes.Finder.Matrix.{
  Fits, same_point, eq_of_same_point, below_area, index_inj,
}
use ho_i4_mod_development_to.Project.Graphics.{Image, turned, for_columns, cell, write_cell}

-- A uint32_t can index the bytes of the image.
pub record IsDrawable (d : Dimensions) : Type 0 where
  pub image : IsImage d
  pub bytes : d.w * d.h * 3 < 2 ^ 32

abbrev pub Cell : Type 0
Cell = ℕ × ℕ × ℕ

abbrev pub cell_at : ℕ → Image → Cell
cell_at i m = (m i, m (i + 1), m (i + 2))

write_cell-cell :
    (i j : ℕ) (c : Cell) (m : Image)
    → cell_at (i * 3) (write_cell (j * 3) c.0 c.1 c.2 m) ≡ (if j == i then c else cell_at (i * 3) m)
unfolding write_cell
write_cell-cell i j c m = ground arith

wide-le : (w h : ℕ) → 0 < h → w * 3 ≤ w * h * 3
wide-le w zero e = absurd (omega (arith, e))
wide-le w (suc h) e = omega arith

pub seen_next :
    (x y : ℕ) (q : Point2d)
    → is_seen (suc y) x (turned q) ≡ (same_point (point x y) q || is_seen y x (turned q))
seen_next x y q = ground arith

module _ (d : Dimensions) (h : IsDrawable d) where
  drawable-Fits : Fits d
  drawable-Fits = record { image = h.image; area = omega (arith, h.bytes) }

  cell-index : (p : Point2d) → IsInside d p → cell d p ≡ xy_to_index d.w p.x p.y * 3
  unfolding cell xy_to_index
  cell-index p i =
      let area = below_area d drawable-Fits p i in
      let row : d.w * 3 ≤ d.w * d.h * 3 = wide-le d.w d.h (omega (arith, i.1)) in
      let pitch : d.w * 3 % 2 ^ 32 ≡ d.w * 3 = omega (arith, row, h.bytes) in
      let column : p.x * 3 % 2 ^ 32 ≡ p.x * 3 = omega (arith, i.0, row, h.bytes) in
      ap (λ v. (p.x * 3 % 2 ^ 32 + p.y * v) % 2 ^ 32) pitch ∙ omega (arith, column, area, h.bytes)

  -- The three bytes of a pixel.
  abbrev pub bytes_at : Image → Point2d → Cell
  bytes_at m p = cell_at (cell d p) m

  -- What a pixel holds after the writes of another one.
  write_cell-bytes_at :
      (p q : Point2d) (c : Cell) (m : Image)
      → IsInside d p
      → IsInside d q
      → bytes_at (write_cell (cell d p) c.0 c.1 c.2 m) q
        ≡ (if same_point p q then c else bytes_at m q)
  write_cell-bytes_at p q c m i j =
      let a : ℕ = xy_to_index d.w p.x p.y in
      let b : ℕ = xy_to_index d.w q.x q.y in
      let e : (a == b) ≡ same_point p q = index_inj d drawable-Fits (λ k. k) p q i j in
      let P = λ (k l : ℕ) (t : Bool).
        cell_at l (write_cell k c.0 c.1 c.2 m) ≡ (if t then c else cell_at l m) in
      subst (λ k. P k (cell d q) (same_point p q)) (sym (cell-index p i))
        (subst (λ l. P (a * 3) l (same_point p q)) (sym (cell-index q j))
          (subst (P (a * 3) (b * 3)) e (write_cell-cell b a c m)))

  module _ {R : Type 0} (step : Point2d → Image → Loop Image R) (paint : Point2d → Option Cell)
      (start : Image) where
    -- What a pixel holds in the end.
    abbrev pub painted : Point2d → Cell
    painted q = elim (paint q) [ none ↦ bytes_at start q | some c ↦ c ]

    abbrev pub Paints : Type 0
    Paints =
        (q : Point2d) (m : Image)
        → IsInside d q
        → step q m
          ≡ more (elim (paint q) [ none ↦ m | some c ↦ write_cell (cell d q) c.0 c.1 c.2 m ])

    -- The pixels that the loop came to are painted, the others as before.
    abbrev PaintedTo : ℕ → ℕ → Image → Type 0
    PaintedTo y x m =
        (q : Point2d)
        → IsInside d q
        → bytes_at m q ≡ (if is_seen y x (turned q) then painted q else bytes_at start q)

    abbrev chosen : Point2d → Bool → Cell
    chosen q b = if b then painted q else bytes_at start q

    chosen_old : (q : Point2d) → paint q ≡ none → (b : Bool) → chosen q b ≡ bytes_at start q
    chosen_old q e true = ground (arith, e)
    chosen_old q e false = refl

    paint_one :
        (y x : ℕ) (m : Image)
        → y < d.h
        → x < d.w
        → PaintedTo y x m
        → (c : Option Cell) → c ≡ paint (point x y)
        → Ends {R = R}
            (PaintedTo (suc y) x)
            (λ _. ⊥)
            (more (elim c [ none ↦ m | some c ↦ write_cell (cell d (point x y)) c.0 c.1 c.2 m ]))
    paint_one y x m b a before none e q i =
        before q i ∙ (elim (Bool-cases (same_point (point x y) q)) [
          | inl t ↦
              let free : paint q ≡ none =
                ap paint (sym (eq_of_same_point (point x y) q t)) ∙ sym e in
              chosen_old q free (is_seen y x (turned q))
              ∙ sym (chosen_old q free (is_seen (suc y) x (turned q)))
          | inr t ↦
              ap (chosen q) (sym (ap (λ v. v || is_seen y x (turned q)) t) ∙ sym (seen_next x y q))
        ])
    paint_one y x m b a before (some c) e q i =
        write_cell-bytes_at (point x y) q c m (a, b) i
        ∙ (elim (Bool-cases (same_point (point x y) q)) [
          | inl t ↦
              let own : paint q ≡ some c =
                ap paint (sym (eq_of_same_point (point x y) q t)) ∙ sym e in
              ground (arith, seen_next x y q, t, own)
          | inr t ↦ ground (arith, seen_next x y q, t, before q i)
        ])

    paint-PaintedTo :
        Paints
        → (y x : ℕ) (m : Image) → y < d.h
        → x < d.w
        → PaintedTo y x m
        → Ends (PaintedTo (suc y) x) (λ _. ⊥) (step (point x y) m)
    paint-PaintedTo draws y x m b a before =
        subst (Ends (PaintedTo (suc y) x) (λ _. ⊥)) (sym (draws (point x y) m (a, b)))
          (paint_one y x m b a before (paint (point x y)) refl)

    pub for_columns_lem :
        Paints
        → (out : Image) × (for_columns step d start ≡ more out)
          × ((q : Point2d) → IsInside d q → bytes_at out q ≡ painted q)
    for_columns_lem draws =
        elim (for_columns step d start)
            as (λ l.
              Ends (PaintedTo 0 d.w) (λ _. ⊥) l
              → (out : Image) × (l ≡ more out)
                × ((q : Point2d) → IsInside d q → bytes_at out q ≡ painted q)) [
                  | more out ↦ λ e. (
                    out,
                    refl,
                    λ q i.
                        e q i
                        ∙ ap (chosen q)
                            (let t : is_seen 0 d.w (turned q) ≡ true = ground (arith, i.0) in t),
                  )
                  | done r ↦ λ e. absurd e
                ]
          (for_rows-Ends (λ p. step (turned p)) PaintedTo (λ _. ⊥) 0 d.h d.w
            (λ y x m b a t. paint-PaintedTo draws y x m b a t)
            (λ x m t q i.
              t q i
              ∙ ap (chosen q) (
                  let e : is_seen d.h x (turned q) ≡ is_seen 0 (suc x) (turned q) =
                    ground (arith, i.1) in
                  e))
            d.h (omega arith) d.w 0 start (omega arith)
            (λ q i. ap (chosen q) (let e : false ≡ is_seen 0 0 (turned q) = ground arith in e)))
