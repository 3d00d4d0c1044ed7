-- ===== src/Shapes/Loops.antt =====
-- The two nested loops over the pixels of an image, row by row, whose body may return.
use ho_i4_mod_development_to.Base.{
  ℕ, zero, suc, ◌+◌, ◌<◌, ◌≡◌, Bool, ◌&&◌, ◌||◌, ltb, ◌==◌, arith, subst, Option, none, some,
}
use ho_i4_mod_development_to.Shapes.{Point2d, Dimensions}

abbrev pub point : ℕ → ℕ → Point2d
point x y = record { x = x; y = y }

-- What a body does: it goes on with a state, or it returns from the function.
pub data Loop (S R : Type 0) : Type 0 where
  more : S → Loop S R
  done : R → Loop S R

infixl 5 ◌>>=◌
abbrev pub ◌>>=◌ : {S T R : Type 0} → Loop S R → (S → Loop T R) → Loop T R
more s >>= f = f s
done r >>= f = done r

-- An optional result, where `none` leaves the function.
abbrev pub or_none : {A B S : Type 0} → Option A → (A → Loop S (Option B)) → Loop S (Option B)
or_none none f = done none
or_none (some a) f = f a

module _ {S R : Type 0} (step : Point2d → S → Loop S R) where
  -- The columns from `x` on, `left` of them.
  abbrev pub for_row : ℕ → ℕ → ℕ → S → Loop S R
  for_row zero x y s = more s
  for_row (suc left) x y s = step (point x y) s >>= for_row left (x + 1) y

  -- The rows from `y` on, `left` of them, each from the column `x`.
  abbrev pub for_rows : ℕ → ℕ → ℕ → ℕ → S → Loop S R
  for_rows cols x zero y s = more s
  for_rows cols x (suc left) y s = for_row cols x y s >>= for_rows cols x left (y + 1)

  abbrev pub for_pixels : Dimensions → S → Loop S R
  for_pixels d s = for_rows d.w 0 d.h 0 s

-- Whether the loop came to the pixel before the one at (x, y).
abbrev pub is_seen : ℕ → ℕ → Point2d → Bool
is_seen x y p = ltb p.y y || (p.y == y && ltb p.x x)

-- `I` holds where the loop goes on, `Q` where it returned.
abbrev pub Ends : {S R : Type 0} → (S → Type 0) → (R → Type 0) → Loop S R → Type 0
Ends I Q (more s) = I s
Ends I Q (done r) = Q r

pub bind-Ends :
    {S T R : Type 0} (I : S → Type 0) (J : T → Type 0) (Q : R → Type 0) (l : Loop S R)
    (f : S → Loop T R)
    → Ends I Q l
    → ((s : S) → I s → Ends J Q (f s))
    → Ends J Q (l >>= f)
bind-Ends I J Q (more s) f h k = k s h
bind-Ends I J Q (done r) f h k = h

module _ {S R : Type 0} (step : Point2d → S → Loop S R) (I : ℕ → ℕ → S → Type 0)
    (Q : R → Type 0) where
  for_row-Ends :
      (end y : ℕ)
      → ((x : ℕ) (s : S) → x < end → I x y s → Ends (I (suc x) y) Q (step (point x y) s))
      → (left x : ℕ) (s : S) → x + left ≡ end
      → I x y s
      → Ends (I end y) Q (for_row step left x y s)
  for_row-Ends end y keep zero x s e i = subst (λ v. I v y s) (omega (arith, e)) i
  for_row-Ends end y keep (suc left) x s e i =
      bind-Ends (I (suc x) y) (I end y) Q (step (point x y) s) (for_row step left (x + 1) y)
        (keep x s (omega (arith, e)) i)
        (λ t j.
          for_row-Ends end y keep left (x + 1) t (omega (arith, e))
            (subst (λ v. I v y t) (omega arith) j))

  -- The rule for a loop over some rows, with an invariant for each pixel that comes next.
  pub for_rows-Ends :
      (start end bottom : ℕ)
      → ((x y : ℕ) (s : S)
          → x < end
          → y < bottom
          → I x y s
          → Ends (I (suc x) y) Q (step (point x y) s))
      → ((y : ℕ) (s : S) → I end y s → I start (suc y) s)
      → (cols : ℕ) → start + cols ≡ end
      → (left y : ℕ) (s : S) → y + left ≡ bottom
      → I start y s
      → Ends (I start bottom) Q (for_rows step cols start left y s)
  for_rows-Ends start end bottom keep wrap cols c zero y s e i =
      subst (λ v. I start v s) (omega (arith, e)) i
  for_rows-Ends start end bottom keep wrap cols c (suc left) y s e i =
      bind-Ends (I end y) (I start bottom) Q (for_row step cols start y s)
        (for_rows step cols start left (y + 1))
        (for_row-Ends end y (λ x s h. keep x y s h (omega (arith, e))) cols start s c i)
        (λ t j.
          for_rows-Ends start end bottom keep wrap cols c left (y + 1) t (omega (arith, e))
            (subst (λ v. I start v t) (omega arith) (wrap y t j)))
