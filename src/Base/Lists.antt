-- ===== src/Base/Lists.antt =====
-- Lists measured by native numbers, and predicates on lists by recursion.
use Prim.Native.Nat.{ℕ, zero, suc, ◌+◌}
use mathlib.Core.Path.{◌≡◌, refl, ap}
use mathlib.Core.Bool.{Bool, true, false}
use mathlib.Core.List.{List, [], ◌∷◌, ◌++◌, map}
use mathlib.Core.Option.{Option, none, some}
use native.Mathlib.Omega.{arith}
use ho_i4_mod_development_to.Base.Tests.{◌==◌, if◌then◌else◌}

module _ {ℓ} {A : Type ℓ} where
  abbrev pub length : List A → ℕ
  length [] = 0
  length (x ∷ xs) = suc (length xs)

  abbrev pub get_elem? : List A → ℕ → Option A
  get_elem? [] i = none
  get_elem? (x ∷ xs) zero = some x
  get_elem? (x ∷ xs) (suc i) = get_elem? xs i

  -- A write out of bounds changes nothing.
  abbrev pub set : List A → ℕ → A → List A
  set [] i v = []
  set (x ∷ xs) zero v = v ∷ xs
  set (x ∷ xs) (suc i) v = x ∷ set xs i v

  pub length-append : (xs ys : List A) → length (xs ++ ys) ≡ length xs + length ys
  length-append [] ys = omega arith
  length-append (x ∷ xs) ys = omega (arith, length-append xs ys)

pub length-map {ℓ κ} :
    {A : Type ℓ} {B : Type κ} (f : A → B) (xs : List A) → length (map f xs) ≡ length xs
length-map f [] = refl
length-map f (x ∷ xs) = ap suc (length-map f xs)

abbrev pub All {ℓ κ} : {A : Type ℓ} → (A → Type κ) → List A → Type κ
All P [] = Unit
All P (x ∷ xs) = P x × All P xs

-- Whether a number stands in a list.
abbrev pub elem : ℕ → List ℕ → Bool
elem k [] = false
elem k (x ∷ xs) = if x == k then true else elem k xs

pub elem-append :
    (k : ℕ) (xs ys : List ℕ) → elem k (xs ++ ys) ≡ (if elem k xs then true else elem k ys)
elem-append k [] ys = refl
elem-append k (x ∷ xs) ys = ground (arith, elem-append k xs ys)

-- No number stands twice in the list.
abbrev pub IsDistinct : List ℕ → Type 0
IsDistinct [] = Unit
IsDistinct (x ∷ xs) = (elem x xs ≡ false) × IsDistinct xs

-- `*it == k → erase(it); break`: the first occurrence goes.
abbrev pub erase_first : ℕ → List ℕ → List ℕ
erase_first k [] = []
erase_first k (x ∷ xs) = if x == k then xs else x ∷ erase_first k xs

pub elem-erase_first_ne :
    (j k : ℕ) (xs : List ℕ) → (k == j) ≡ false → elem j (erase_first k xs) ≡ elem j xs
elem-erase_first_ne j k [] h = refl
elem-erase_first_ne j k (x ∷ xs) h = ground (arith, elem-erase_first_ne j k xs h)

pub elem-erase_first_self :
    (k : ℕ) (xs : List ℕ) → IsDistinct xs → elem k (erase_first k xs) ≡ false
elem-erase_first_self k [] h = refl
elem-erase_first_self k (x ∷ xs) h = ground (arith, elem-erase_first_self k xs h.1)

pub erase_first-IsDistinct : (k : ℕ) (xs : List ℕ) → IsDistinct xs → IsDistinct (erase_first k xs)
erase_first-IsDistinct k [] h = tt
erase_first-IsDistinct k (x ∷ xs) h =
    ground (arith, erase_first-IsDistinct k xs h.1, elem-erase_first_ne x k xs)
