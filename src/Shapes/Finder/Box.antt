-- ===== src/Shapes/Finder/Box.antt =====
-- The bounding box that finalize gives a shape.
use ho_i4_mod_development_to.Base.{◌-◌, ◌≤◌, ◌<◌, List, [], ◌∷◌, All, foldl, arith}
use ho_i4_mod_development_to.Project.{BoundingBox}
use ho_i4_mod_development_to.Shapes.{Dimensions, Pixel}
use ho_i4_mod_development_to.Shapes.Neighbours.{IsInside}
use ho_i4_mod_development_to.Shapes.Finder.Finalize.{empty_box, extend_box, box_of}

-- The pixel is in the box; the rows count downwards.
abbrev pub Holds : BoundingBox → Pixel → Type 0
Holds b p =
    (b.left ≤ p.point.x) × (p.point.x ≤ b.right) × (b.top ≤ p.point.y) × (p.point.y ≤ b.bottom)

-- One box is in another.
abbrev pub IsWithin : BoundingBox → BoundingBox → Type 0
IsWithin a b = (b.left ≤ a.left) × (a.right ≤ b.right) × (b.top ≤ a.top) × (a.bottom ≤ b.bottom)

Holds-extend : (b : BoundingBox) (p : Pixel) → Holds (extend_box b p) p
unfolding extend_box
Holds-extend b p = (omega arith, omega arith, omega arith, omega arith)

extend-IsWithin : (b : BoundingBox) (p : Pixel) → IsWithin b (extend_box b p)
unfolding extend_box
extend-IsWithin b p = (omega arith, omega arith, omega arith, omega arith)

fold-IsWithin : (ps : List Pixel) (b : BoundingBox) → IsWithin b (foldl extend_box b ps)
fold-IsWithin [] b = (omega arith, omega arith, omega arith, omega arith)
fold-IsWithin (p ∷ ps) b =
    let h = fold-IsWithin ps (extend_box b p) in
    let k = extend-IsWithin b p in
    (
      omega (arith, h.0, k.0),
      omega (arith, h.1, k.1),
      omega (arith, h.2, k.2),
      omega (arith, h.3, k.3),
    )

Holds-within : (a b : BoundingBox) (p : Pixel) → IsWithin a b → Holds a p → Holds b p
Holds-within a b p w h = (
  omega (arith, w.0, h.0),
  omega (arith, w.1, h.1),
  omega (arith, w.2, h.2),
  omega (arith, w.3, h.3),
)

fold-Holds : (ps : List Pixel) (b : BoundingBox) → All (Holds (foldl extend_box b ps)) ps
fold-Holds [] b = tt
fold-Holds (p ∷ ps) b = (
  Holds-within _ _ p (fold-IsWithin ps (extend_box b p)) (Holds-extend b p),
  fold-Holds ps (extend_box b p),
)

-- A box that holds some pixels holds the box that they extend.
fold-least :
    (ps : List Pixel) (a b : BoundingBox)
    → IsWithin a b
    → All (Holds b) ps
    → IsWithin (foldl extend_box a ps) b
unfolding extend_box
fold-least [] a b w h = w
fold-least (p ∷ ps) a b w (h, hs) =
    fold-least ps (extend_box a p) b
      (
        omega (arith, w.0, h.0),
        omega (arith, w.1, h.1),
        omega (arith, w.2, h.2),
        omega (arith, w.3, h.3),
      )
      hs

abbrev image_box : Dimensions → BoundingBox
image_box d = record { left = 0; bottom = d.h - 1; right = d.w - 1; top = 0 }

image_box-Holds :
    (d : Dimensions) (ps : List Pixel)
    → All (λ q. IsInside d q.point) ps
    → All (Holds (image_box d)) ps
image_box-Holds d [] h = tt
image_box-Holds d (p ∷ ps) ((a, b), h) =
    ((omega arith, omega (arith, a), omega arith, omega (arith, b)), image_box-Holds d ps h)

-- The bounding box of some pixels of the image holds each of them, and it is the least such box: a
-- box, with edges from 0 to the dimensions, that holds them all holds the bounding box. If there is a
-- pixel, the box is in the image.
pub box_of_lem :
    (d : Dimensions) (p : Pixel) (ps : List Pixel)
    → All (λ q. IsInside d q.point) (p ∷ ps)
    → let b = box_of d (p ∷ ps) in
      All (Holds b) (p ∷ ps)
      × ((c : BoundingBox) → c.left ≤ d.w → c.top ≤ d.h → All (Holds c) (p ∷ ps) → IsWithin b c)
      × ((b.left ≤ b.right) × (b.right < d.w))
      × ((b.top ≤ b.bottom) × (b.bottom < d.h))
unfolding box_of empty_box
box_of_lem d p ps inside =
    let all = fold-Holds (p ∷ ps) (empty_box d) in
    let h = all.0 in
    let least =
      λ (c : BoundingBox) (l : c.left ≤ d.w) (t : c.top ≤ d.h) (k : All (Holds c) (p ∷ ps)).
        fold-least (p ∷ ps) (empty_box d) c (l, omega arith, t, omega arith) k in
    let w = least (image_box d) (omega arith) (omega arith) (image_box-Holds d (p ∷ ps) inside) in
    (
      all,
      least,
      (omega (arith, h.0, h.1), omega (arith, w.1, inside.0.0)),
      (omega (arith, h.2, h.3), omega (arith, w.3, inside.0.1)),
    )
