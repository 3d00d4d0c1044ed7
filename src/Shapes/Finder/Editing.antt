-- ===== src/Shapes/Finder/Editing.antt =====
-- Lists of pixels and of shapes that grow.
use ho_i4_mod_development_to.Base.{
  ℕ, zero, suc, ◌+◌, ◌<◌, ◌≡◌, refl, sym, ◌∙◌, ap, some, List, [], ◌∷◌, ◌++◌, length, inl, inr,
  if◌then◌else◌, ◌==◌, ==_iff, get_elem?, All, arith, Bool-cases, subst,
}
use mathlib.Core.Option.{some-injective}
use ho_i4_mod_development_to.Shapes.{Point2d, Pixel}
use ho_i4_mod_development_to.Shapes.Finder.{Polygon}
use ho_i4_mod_development_to.Shapes.Finder.Matrix.{same_point}
use ho_i4_mod_development_to.Shapes.Finder.Second.{add_pixel_to_shape, edit}

-- How often a point is among some pixels.
abbrev pub count : Point2d → List Pixel → ℕ
count p [] = 0
count p (x ∷ xs) = (if same_point x.point p then 1 else 0) + count p xs

pub count-append :
    (p : Point2d) (xs : List Pixel) (x : Pixel)
    → count p (xs ++ x ∷ []) ≡ (if same_point x.point p then 1 else 0) + count p xs
count-append p [] x = refl
count-append p (y ∷ xs) x = omega (arith, count-append p xs x)

pub All-append :
    {A : Type 0} (P : A → Type 0) (xs : List A) (x : A) → All P xs → P x → All P (xs ++ x ∷ [])
All-append P [] x h p = (p, tt)
All-append P (y ∷ xs) x (a, h) p = (a, All-append P xs x h p)

pub get_elem?-append :
    {A : Type 0} (xs : List A) (x : A) (j : ℕ)
    → get_elem? (xs ++ x ∷ []) j ≡ (if length xs == j then some x else get_elem? xs j)
get_elem?-append [] x zero = ground arith
get_elem?-append [] x (suc j) = ground arith
get_elem?-append (y ∷ xs) x zero = ground arith
get_elem?-append (y ∷ xs) x (suc j) = ground (arith, get_elem?-append xs x j)

pub get_elem?-length :
    {A : Type 0} (xs : List A) (i : ℕ) (x : A) → get_elem? xs i ≡ some x → i < length xs
get_elem?-length [] i x e = cc
get_elem?-length (y ∷ xs) zero x e = ground arith
get_elem?-length (y ∷ xs) (suc i) x e = ground (arith, get_elem?-length xs i x e)

edited_first :
    (f : Polygon → Polygon) (x s : Polygon) (ss : List Polygon) (j : ℕ)
    → x ≡ s
    → get_elem? (f x ∷ ss) j ≡ (if 0 == j then some (f s) else get_elem? (x ∷ ss) j)
edited_first f x s ss zero e = ap (λ v. some (f v)) e
edited_first f x s ss (suc j) e = ground arith

edited_later :
    (i : ℕ) (x t : Polygon) (ss ts : List Polygon) (j : ℕ)
    → ((k : ℕ) → get_elem? ts k ≡ (if i == k then some t else get_elem? ss k))
    → get_elem? (x ∷ ts) j ≡ (if suc i == j then some t else get_elem? (x ∷ ss) j)
edited_later i x t ss ts zero h = ground arith
edited_later i x t ss ts (suc j) h = ground (arith, h j)

-- Where there is a shape, it can be changed, and the others stay.
pub edit_present :
    (i : ℕ) (f : Polygon → Polygon) (ss : List Polygon) (s : Polygon)
    → get_elem? ss i ≡ some s
    → (ts : List Polygon) × (edit i f ss ≡ some ts)
      × (length ts ≡ length ss)
      × ((j : ℕ) → get_elem? ts j ≡ (if i == j then some (f s) else get_elem? ss j))
edit_present i f [] s e = absurd cc
edit_present zero f (x ∷ ss) s e =
    (f x ∷ ss, refl, refl, λ j. edited_first f x s ss j (some-injective _ _ e))
edit_present (suc i) f (x ∷ ss) s e =
    let (ts, a, n, g) = edit_present i f ss s e in
    (x ∷ ts, rw a refl, ap suc n, λ j. edited_later i x (f s) ss ts j g)

-- A shape with one more pixel keeps its label and its colour.
pub edit_from :
    (i : ℕ) (x : Pixel) (ss ts : List Polygon) (s : Polygon) (k : ℕ) (t : Polygon)
    → get_elem? ss i ≡ some s
    → edit i (add_pixel_to_shape x) ss ≡ some ts
    → get_elem? ts k ≡ some t
    → (r : Polygon) × (get_elem? ss k ≡ some r) × (r.id ≡ t.id) × (r.color ≡ t.color)
edit_from i x ss ts s k t g e o =
    let (us, f, _, after) = edit_present i (add_pixel_to_shape x) ss s g in
    let same : us ≡ ts = some-injective _ _ (sym f ∙ e) in
    let o' : get_elem? us k ≡ some t = ap (λ v. get_elem? v k) same ∙ o in
    elim (Bool-cases (i == k)) [
      | inl y ↦
          let z : add_pixel_to_shape x s ≡ t = some-injective _ _ (
            sym (
              subst
                (λ b.
                  get_elem? us k ≡ (if b then some (add_pixel_to_shape x s) else get_elem? ss k))
                y (after k))
            ∙ o') in
          (s, ap (get_elem? ss) (sym ((==_iff i k).0 y)) ∙ g, ap (λ v. v.id) z, ap (λ v. v.color) z)
      | inr y ↦ (t, ground (arith, after k, y, o'), refl, refl)
    ]
