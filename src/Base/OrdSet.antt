-- ===== src/Base/OrdSet.antt =====
-- std::set: a list in strictly increasing order.
use Prim.Native.Nat.{Ordering}
use Prim.Native.Nat.Ordering.{lt, gt}
use mathlib.Core.Path.{◌≡◌, refl}
use mathlib.Core.Bool.{Bool, true, false}
use mathlib.Core.List.{List, [], ◌∷◌}
use native.Mathlib.Omega.{arith}
use ho_i4_mod_development_to.Base.Tests.{if◌then◌else◌}
use ho_i4_mod_development_to.Base.Lists.{All}
use ho_i4_mod_development_to.Base.Ord.{Ord}

module _ {A : Type 0} ⦃o : Ord A⦄ where
  abbrev pub same : A → A → Bool
  same a b = elim (o.cmp a b) [ Ordering.eq ↦ true | _ ↦ false ]

  -- `count(a) != 0`
  abbrev pub contains : A → List A → Bool
  contains a [] = false
  contains a (x ∷ xs) = if same a x then true else contains a xs

  abbrev pub insert : A → List A → List A
  insert a [] = a ∷ []
  insert a (x ∷ xs) = elim (o.cmp a x) [
    | Ordering.lt ↦ a ∷ x ∷ xs
    | Ordering.eq ↦ x ∷ xs
    | Ordering.gt ↦ x ∷ insert a xs
  ]

  abbrev pub erase : A → List A → List A
  erase a [] = []
  erase a (x ∷ xs) = if same a x then xs else x ∷ erase a xs

  -- Every element comes before `b`'s.
  abbrev pub Before : A → List A → Type 0
  Before a = All (λ x. o.cmp a x ≡ lt)

  abbrev pub IsSorted : List A → Type 0
  IsSorted [] = Unit
  IsSorted (x ∷ xs) = Before x xs × IsSorted xs

  pub Before-trans : (a b : A) (xs : List A) → o.cmp a b ≡ lt → Before b xs → Before a xs
  Before-trans a b [] h k = tt
  Before-trans a b (x ∷ xs) h k = (o.trans a b x h k.0, Before-trans a b xs h k.1)

  pub Before-insert :
      (a b : A) (xs : List A) → o.cmp b a ≡ lt → Before b xs → Before b (insert a xs)
  Before-insert a b [] h k = (h, tt)
  Before-insert a b (x ∷ xs) h k = ground (arith, Before-insert a b xs h k.1)

  pub insert-IsSorted : (a : A) (xs : List A) → IsSorted xs → IsSorted (insert a xs)
  insert-IsSorted a [] h = (tt, tt)
  insert-IsSorted a (x ∷ xs) h =
      ground
        (arith, insert-IsSorted a xs h.1, Before-trans a x xs, Before-insert a x xs, o.flip_gt a x)

  pub Before-erase : (a b : A) (xs : List A) → Before b xs → Before b (erase a xs)
  Before-erase a b [] h = tt
  Before-erase a b (x ∷ xs) h = ground (arith, Before-erase a b xs h.1)

  pub erase-IsSorted : (a : A) (xs : List A) → IsSorted xs → IsSorted (erase a xs)
  erase-IsSorted a [] h = tt
  erase-IsSorted a (x ∷ xs) h = ground (arith, erase-IsSorted a xs h.1, Before-erase a x xs)

  -- What stands before every element is none of them.
  pub contains-Before : (a : A) (xs : List A) → Before a xs → contains a xs ≡ false
  contains-Before a [] h = refl
  contains-Before a (x ∷ xs) h = ground (arith, contains-Before a xs h.1)

  pub same_iff : (a b : A) → same a b ≡ true → a ≡ b
  same_iff a b h = ground (arith, o.eq_of_cmp a b)

  pub same_self : (a : A) → same a a ≡ true
  same_self a = ground (arith, o.cmp_self a)

  pub contains-insert :
      (a b : A) (xs : List A)
      → contains b (insert a xs) ≡ (if same b a then true else contains b xs)
  contains-insert a b [] = refl
  contains-insert a b (x ∷ xs) = ground (arith, contains-insert a b xs, o.eq_of_cmp a x)

  pub contains-erase :
      (a b : A) (xs : List A)
      → IsSorted xs
      → contains b (erase a xs) ≡ (if same b a then false else contains b xs)
  contains-erase a b [] h = ground arith
  contains-erase a b (x ∷ xs) h = ground (
    arith,
    contains-erase a b xs h.1,
    o.eq_of_cmp a x,
    o.eq_of_cmp b a,
    o.cmp_self a,
    contains-Before x xs h.0,
  )

  -- Taking out what was just put in gives the set back.
  pub erase-insert : (a : A) (xs : List A) → contains a xs ≡ false → erase a (insert a xs) ≡ xs
  erase-insert a [] h = ground (arith, o.cmp_self a)
  erase-insert a (x ∷ xs) h = ground (arith, o.cmp_self a, erase-insert a xs)

  insert_head : (a : A) (xs : List A) → Before a xs → insert a xs ≡ a ∷ xs
  insert_head a [] h = refl
  insert_head a (x ∷ xs) h = ground arith

  cmp_contained : (a x : A) (xs : List A) → Before x xs → contains a xs ≡ true → o.cmp a x ≡ gt
  cmp_contained a x [] h k = cc
  cmp_contained a x (y ∷ ys) h k =
      ground (arith, cmp_contained a x ys h.1, o.eq_of_cmp a y, o.flip x a, h.0)

  pub insert-erase :
      (a : A) (xs : List A) → IsSorted xs → contains a xs ≡ true → insert a (erase a xs) ≡ xs
  insert-erase a [] s h = cc
  insert-erase a (x ∷ xs) s h = ground (
    arith,
    o.eq_of_cmp a x,
    insert_head x xs s.0,
    insert-erase a xs s.1,
    cmp_contained a x xs s.0,
  )
