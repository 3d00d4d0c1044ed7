-- ===== src/Version/Smaller.antt =====
-- Version.cpp: when a version is smaller than another.
use ho_i4_mod_development_to.Base.{
  ℕ, zero, suc, ◌≤◌, ◌<◌, ◌≡◌, refl, sym, ◌≢◌, ◌⊎◌, inl, inr, Bool, true, false, ◌||◌, Option, none,
  some, List, [], ◌∷◌, if◌then◌else◌, ltb, arith, Bool-cases, Option-cases, subst,
}
use ho_i4_mod_development_to.Base.Ord.{Text, text_ord}
use ho_i4_mod_development_to.Base.OrdSet
use ho_i4_mod_development_to.Version.{
  pos, negsuc, parts, stoi, compare_rest, compare_parts, compare, is_smaller,
}

-- The numbers that the parts read as, where all are numbers without a minus sign.
abbrev pub numbers : List Text → Option (List ℕ)
numbers [] = some []
numbers (t ∷ ts) =
    let rest = numbers ts in
    elim (stoi t) [ some (pos n) ↦ elim rest [ none ↦ none | some ns ↦ some (n ∷ ns) ] | _ ↦ none ]

-- The number at a place; zero past the end.
abbrev pub at : ℕ → List ℕ → ℕ
at i [] = 0
at zero (n ∷ ns) = n
at (suc i) (n ∷ ns) = at i ns

abbrev any_positive : List ℕ → Bool
any_positive [] = false
any_positive (k ∷ ks) = ltb 0 k || any_positive ks

abbrev any_smaller : List ℕ → List ℕ → Bool
any_smaller [] ks = any_positive ks
any_smaller (n ∷ ns) [] = false
any_smaller (n ∷ ns) (k ∷ ks) = ltb n k || any_smaller ns ks

any_positive-at : (i : ℕ) (ks : List ℕ) → 0 < at i ks → any_positive ks ≡ true
any_positive-at i [] h = absurd (omega arith)
any_positive-at zero (k ∷ ks) h = ground arith
any_positive-at (suc i) (k ∷ ks) h = ground (arith, any_positive-at i ks h)

any_smaller-at : (i : ℕ) (ns ks : List ℕ) → at i ns < at i ks → any_smaller ns ks ≡ true
any_smaller-at i [] ks h = any_positive-at i ks h
any_smaller-at i (n ∷ ns) [] h = absurd (omega arith)
any_smaller-at zero (n ∷ ns) (k ∷ ks) h = ground arith
any_smaller-at (suc i) (n ∷ ns) (k ∷ ks) h = ground (arith, any_smaller-at i ns ks h)

positive_at : (ks : List ℕ) → any_positive ks ≡ true → (i : ℕ) × (0 < at i ks)
positive_at [] h = absurd (let no : ◌≡◌ {A = Bool} false true = h in cc)
positive_at (k ∷ ks) h = elim (Bool-cases (ltb 0 k)) [
  | inl t ↦ (0, ground (arith, t))
  | inr t ↦ let (i, p) = positive_at ks (ground (arith, t, h)) in (suc i, p)
]

smaller_at : (ns ks : List ℕ) → any_smaller ns ks ≡ true → (i : ℕ) × (at i ns < at i ks)
smaller_at [] ks h = positive_at ks h
smaller_at (n ∷ ns) [] h = absurd (let no : ◌≡◌ {A = Bool} false true = h in cc)
smaller_at (n ∷ ns) (k ∷ ks) h = elim (Bool-cases (ltb n k)) [
  | inl t ↦ (0, ground (arith, t))
  | inr t ↦ let (i, p) = smaller_at ns ks (ground (arith, t, h)) in (suc i, p)
]

none_positive : (ks : List ℕ) → any_positive ks ≡ false → (i : ℕ) → at i ks ≡ 0
none_positive [] h i = refl
none_positive (k ∷ ks) h zero = ground arith
none_positive (k ∷ ks) h (suc i) = none_positive ks (ground (arith, h)) i

none_smaller : (ns ks : List ℕ) → any_smaller ns ks ≡ false → (i : ℕ) → at i ks ≤ at i ns
none_smaller [] ks h i = omega (arith, none_positive ks h i)
none_smaller (n ∷ ns) [] h i = omega arith
none_smaller (n ∷ ns) (k ∷ ks) h zero = ground arith
none_smaller (n ∷ ns) (k ∷ ks) h (suc i) = none_smaller ns ks (ground (arith, h)) i

numbers-cons :
    (t : Text) (ts : List Text) (ks : List ℕ)
    → numbers (t ∷ ts) ≡ some ks
    → (n : ℕ) × (ns : List ℕ) × (stoi t ≡ some (pos n)) × (numbers ts ≡ some ns) × (n ∷ ns ≡ ks)
numbers-cons t ts ks h = elim (Option-cases (stoi t)) [
  | inl e ↦ absurd (ground (arith, e, h))
  | inr (negsuc n, e) ↦ absurd (ground (arith, e, h))
  | inr (pos n, e) ↦ elim (Option-cases (numbers ts)) [
    | inl g ↦ absurd (ground (arith, e, g, h))
    | inr (ns, g) ↦ (n, ns, e, g, ground (arith, e, g, h))
  ]
]

compare_rest_lem :
    (ts : List Text) (ks : List ℕ)
    → numbers ts ≡ some ks
    → compare_rest ts ≡ (if any_positive ks then some (negsuc 0) else some (pos 1))
unfolding compare_rest
compare_rest_lem [] [] h = refl
compare_rest_lem [] (k ∷ ks) h = absurd cc
compare_rest_lem (t ∷ ts) ks h =
    let (n, ns, e, g, k) = numbers-cons t ts ks h in
    subst (λ x. compare_rest (t ∷ ts) ≡ (if any_positive x then some (negsuc 0) else some (pos 1)))
      k (ground (arith, e, compare_rest_lem ts ns g))

compare_parts_lem :
    (ts us : List Text) (ns ks : List ℕ)
    → numbers ts ≡ some ns
    → numbers us ≡ some ks
    → compare_parts ts us ≡ (if any_smaller ns ks then some (negsuc 0) else some (pos 1))
unfolding compare_parts
compare_parts_lem [] us [] ks h g = compare_rest_lem us ks g
compare_parts_lem [] us (n ∷ ns) ks h g = absurd cc
compare_parts_lem (t ∷ ts) [] ns [] h g =
    let (n, ns', e, f, k) = numbers-cons t ts ns h in
    subst
      (λ x.
        compare_parts (t ∷ ts) [] ≡ (if any_smaller x [] then some (negsuc 0) else some (pos 1)))
      k refl
compare_parts_lem (t ∷ ts) [] ns (k ∷ ks) h g = absurd cc
compare_parts_lem (t ∷ ts) (u ∷ us) ns ks h g =
    let (n, ns', e, f, j) = numbers-cons t ts ns h in
    let (k, ks', e', f', j') = numbers-cons u us ks g in
    subst
      (λ x.
        compare_parts (t ∷ ts) (u ∷ us)
        ≡ (if any_smaller x ks then some (negsuc 0) else some (pos 1)))
      j
      (subst
        (λ x.
          compare_parts (t ∷ ts) (u ∷ us)
          ≡ (if any_smaller (n ∷ ns') x then some (negsuc 0) else some (pos 1)))
        j' (ground (arith, e, e', compare_parts_lem ts us ns' ks' f f')))

abbrev Reads : Text → List ℕ → Type 0
Reads m ns = numbers (parts m) ≡ some ns

unequal : (m n : Text) → m ≢ n → OrdSet.same ⦃o = text_ord⦄ m n ≡ false
unequal m n h = elim (Bool-cases (OrdSet.same ⦃o = text_ord⦄ m n)) [
  | inl t ↦ absurd (h (OrdSet.same_iff ⦃o = text_ord⦄ m n t))
  | inr t ↦ t
]

-- Of two different strings of parts that are numbers without a minus sign, the first is smaller
-- exactly if at some place its number is smaller, where a missing number is zero; otherwise it is
-- greater. `compare` throws nothing then.
pub compare_lem :
    (m n : Text) (ns ks : List ℕ)
    → m ≢ n
    → Reads m ns
    → Reads n ks
    → (((i : ℕ) × (at i ns < at i ks)) × (compare m n ≡ some (negsuc 0)))
      ⊎ (((i : ℕ) → at i ks ≤ at i ns) × (compare m n ≡ some (pos 1)))
unfolding compare
compare_lem m n ns ks d h g =
    let c = compare_parts_lem (parts m) (parts n) ns ks h g in
    let u = unequal m n d in
    elim (Bool-cases (any_smaller ns ks)) [
      | inl t ↦ inl (smaller_at ns ks t, ground (arith, u, c, t))
      | inr t ↦ inr (none_smaller ns ks t, ground (arith, u, c, t))
    ]

-- Two versions, each of which has a greater number than the other at some place, are each smaller
-- than the other.
pub is_smaller_both :
    (m n : Text) (ns ks : List ℕ) (i j : ℕ)
    → m ≢ n
    → Reads m ns
    → Reads n ks
    → at i ns < at i ks
    → at j ks < at j ns
    → (is_smaller m n ≡ some true) × (is_smaller n m ≡ some true)
unfolding compare is_smaller
is_smaller_both m n ns ks i j d h g a b =
    let c = compare_parts_lem (parts m) (parts n) ns ks h g in
    let e = compare_parts_lem (parts n) (parts m) ks ns g h in
    (
      ground (arith, unequal m n d, c, any_smaller-at i ns ks a),
      ground (arith, unequal n m (λ x. d (sym x)), e, any_smaller-at j ks ns b),
    )
