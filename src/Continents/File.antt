-- ===== src/Continents/File.antt =====
-- The continents file: what is saved is loaded again.
use ho_i4_mod_development_to.Base.{◌≡◌, refl, ◌∙◌, ◌≢◌, [], ◌∷◌, ◌++◌, All, arith}
use ho_i4_mod_development_to.Base.Ord.{Text, text_ord, lex, lex_flip}
use ho_i4_mod_development_to.Base.OrdSet
use ho_i4_mod_development_to.Status.{success}
use ho_i4_mod_development_to.Continents.{ContinentSet, content, save, lines, load_lines, load}
use Prim.Native.Nat.Ordering.{lt}
use mathlib.Core.List.{append-nil, append_assoc}

-- A name that a line can hold.
abbrev pub IsLine : Text → Type 0
IsLine name = (name ≢ []) × All (λ c. c ≢ 10) name

lines-append :
    (name rest : Text) → All (λ c. c ≢ 10) name → lines (name ++ 10 ∷ rest) ≡ name ∷ lines rest
unfolding lines
lines-append [] rest h = refl
lines-append (c ∷ name) rest h = ground (arith, lines-append name rest h.1)

lines-save : (s : ContinentSet) → All IsLine s → lines (save s) ≡ s
unfolding save
lines-save [] h = unfold lines in refl
lines-save (name ∷ s) h = rw (lines-append name (save s) h.0.1, lines-save s h.1) refl

-- Every name of the set comes before `name`.
abbrev After : Text → ContinentSet → Type 0
After name = All (λ x. lex x name ≡ lt)

insert_last :
    (name : Text) (s : ContinentSet) → After name s → OrdSet.insert name s ≡ s ++ name ∷ []
insert_last name [] h = refl
insert_last name (x ∷ s) h = ground (arith, insert_last name s h.1, lex_flip x name)

After-append :
    (name : Text) (s t : ContinentSet) → After name s → After name t → After name (s ++ t)
After-append name [] t h k = k
After-append name (x ∷ s) t h k = (h.0, After-append name s t h.1 k)

AllAfter : ContinentSet → ContinentSet → Type 0
AllAfter s = All (λ name. After name s)

load_lines_sorted :
    (s t : ContinentSet)
    → All IsLine t
    → OrdSet.IsSorted t
    → All (λ name. After name s) t
    → load_lines s t ≡ s ++ t
unfolding load_lines
load_lines_sorted s [] h k a = rw append-nil
load_lines_sorted s ([] ∷ t) h k a = absurd (h.0.0 refl)
load_lines_sorted s ((c ∷ name) ∷ t) h k a =
    rw (insert_last (c ∷ name) s a.0)
      (load_lines_sorted (s ++ (c ∷ name) ∷ []) t h.1 k.1 (grow t k.0 a.1) ∙ rw append_assoc)
  where
    grow :
        (u : ContinentSet)
        → OrdSet.Before (c ∷ name) u
        → All (λ x. After x s) u
        → All (λ x. After x (s ++ (c ∷ name) ∷ [])) u
    grow [] b e = tt
    grow (x ∷ u) b e = (After-append x s ((c ∷ name) ∷ []) e.0 (b.0, tt), grow u b.1 e.1)

-- A set of names that are not empty and hold no line break is loaded from its own file as it was.
pub load-save :
    (s : ContinentSet)
    → OrdSet.IsSorted s
    → All IsLine s
    → load (content (save s)) [] ≡ (success, s)
unfolding load
load-save s k h = rw (lines-save s h, load_lines_sorted [] s h k (none s)) refl
  where
    none : (u : ContinentSet) → All (λ name. After name []) u
    none [] = tt
    none (x ∷ u) = (tt, none u)
