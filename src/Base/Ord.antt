-- ===== src/Base/Ord.antt =====
-- Total orders, as the key order of std::set and std::map: numbers, and strings by their bytes.
use Prim.Native.Nat.{ℕ, compare, Ordering}
use Prim.Native.Nat.Ordering.{lt, eq, gt}
use mathlib.Core.Path.{◌≡◌, refl}
use mathlib.Core.Logic.{◌⊎◌, inl, inr}
use mathlib.Core.List.{List, [], ◌∷◌}
use native.Mathlib.Omega.{arith}

pub record Ord (A : Type 0) : Type 0 where
  pub cmp : A → A → Ordering
  pub cmp_self : (a : A) → cmp a a ≡ eq
  pub eq_of_cmp : (a b : A) → cmp a b ≡ eq → a ≡ b
  pub flip : (a b : A) → cmp a b ≡ lt → cmp b a ≡ gt
  pub flip_gt : (a b : A) → cmp a b ≡ gt → cmp b a ≡ lt
  pub trans : (a b c : A) → cmp a b ≡ lt → cmp b c ≡ lt → cmp a c ≡ lt

pub Ordering-cases : (c : Ordering) → (c ≡ lt) ⊎ ((c ≡ eq) ⊎ (c ≡ gt))
Ordering-cases lt = inl refl
Ordering-cases eq = inr (inl refl)
Ordering-cases gt = inr (inr refl)

pub compare_self : (a : ℕ) → compare a a ≡ eq
compare_self a = ground arith

pub eq_of_compare : (a b : ℕ) → compare a b ≡ eq → a ≡ b
eq_of_compare a b h = ground arith

pub compare_flip : (a b : ℕ) → compare a b ≡ lt → compare b a ≡ gt
compare_flip a b h = ground arith

pub compare_flip_gt : (a b : ℕ) → compare a b ≡ gt → compare b a ≡ lt
compare_flip_gt a b h = ground arith

pub compare_trans : (a b c : ℕ) → compare a b ≡ lt → compare b c ≡ lt → compare a c ≡ lt
compare_trans a b c h k = ground arith

instance abbrev pub nat_ord : Ord ℕ
nat_ord = record {
  cmp = compare;
  cmp_self = compare_self;
  eq_of_cmp = eq_of_compare;
  flip = compare_flip;
  flip_gt = compare_flip_gt;
  trans = compare_trans;
}

-- A string is the list of its bytes; std::string compares them from the front.
abbrev pub Text : Type 0
Text = List ℕ

abbrev pub lex : Text → Text → Ordering
lex [] [] = eq
lex [] (y ∷ ys) = lt
lex (x ∷ xs) [] = gt
lex (x ∷ xs) (y ∷ ys) = elim (compare x y) [
  | Ordering.lt ↦ lt
  | Ordering.gt ↦ gt
  | Ordering.eq ↦ lex xs ys
]

pub lex_self : (a : Text) → lex a a ≡ eq
lex_self [] = refl
lex_self (x ∷ xs) = ground (arith, lex_self xs)

pub eq_of_lex : (a b : Text) → lex a b ≡ eq → a ≡ b
eq_of_lex [] [] h = refl
eq_of_lex [] (y ∷ ys) h = cc
eq_of_lex (x ∷ xs) [] h = cc
eq_of_lex (x ∷ xs) (y ∷ ys) h = ground (arith, eq_of_lex xs ys)

pub lex_flip : (a b : Text) → lex a b ≡ lt → lex b a ≡ gt
lex_flip [] [] h = cc
lex_flip [] (y ∷ ys) h = refl
lex_flip (x ∷ xs) [] h = cc
lex_flip (x ∷ xs) (y ∷ ys) h = ground (arith, lex_flip xs ys)

pub lex_flip_gt : (a b : Text) → lex a b ≡ gt → lex b a ≡ lt
lex_flip_gt [] [] h = cc
lex_flip_gt [] (y ∷ ys) h = cc
lex_flip_gt (x ∷ xs) [] h = refl
lex_flip_gt (x ∷ xs) (y ∷ ys) h = ground (arith, lex_flip_gt xs ys)

pub lex_trans : (a b c : Text) → lex a b ≡ lt → lex b c ≡ lt → lex a c ≡ lt
lex_trans [] [] c h k = cc
lex_trans [] (y ∷ ys) [] h k = cc
lex_trans [] (y ∷ ys) (z ∷ zs) h k = refl
lex_trans (x ∷ xs) [] c h k = cc
lex_trans (x ∷ xs) (y ∷ ys) [] h k = cc
lex_trans (x ∷ xs) (y ∷ ys) (z ∷ zs) h k = ground (arith, lex_trans xs ys zs)

instance abbrev pub text_ord : Ord Text
text_ord = record {
  cmp = lex;
  cmp_self = lex_self;
  eq_of_cmp = eq_of_lex;
  flip = lex_flip;
  flip_gt = lex_flip_gt;
  trans = lex_trans;
}
