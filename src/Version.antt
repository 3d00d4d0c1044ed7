-- ===== src/Version.antt =====
-- mod_dev_tool/common/src/Version.cpp: comparing version numbers that are held as strings.
pub mod Smaller
mod Tests
use ho_i4_mod_development_to.Base.{
  ℕ, zero, suc, ◌+◌, ◌-◌, ◌*◌, ◌^◌, Bool, true, false, not, ◌&&◌, ◌||◌, Option, none, some, List,
  [], ◌∷◌, ◌++◌, if◌then◌else◌, ◌==◌, ltb, leb,
}
use ho_i4_mod_development_to.Base.Ord.{Text, text_ord}
use ho_i4_mod_development_to.Base.OrdSet

pub data ℤ : Type 0 where
  pos negsuc : ℕ → ℤ

abbrev pub ltz : ℤ → ℤ → Bool
ltz (pos m) (pos n) = ltb m n
ltz (pos m) (negsuc n) = false
ltz (negsuc m) (pos n) = true
ltz (negsuc m) (negsuc n) = ltb n m

-- The strings that std::getline gives up to each '.': nothing stands after a last '.'.
abbrev pub parts_from : Text → Text → List Text
parts_from [] [] = []
parts_from (d ∷ part) [] = (d ∷ part) ∷ []
parts_from part (c ∷ text) =
    let next = parts_from [] text in
    let longer = parts_from (part ++ c ∷ []) text in if c == 46 then part ∷ next else longer

unfoldable pub parts : Text → List Text
parts = parts_from []

-- std::stoi. `none`: it throws, since there are no digits, or since an int does not hold the number.
abbrev pub is_space : ℕ → Bool
is_space c = c == 32 || (leb 9 c && leb c 13)

abbrev pub is_digit : ℕ → Bool
is_digit c = leb 48 c && leb c 57

abbrev pub digits : ℕ → Text → ℕ
digits n [] = n
digits n (c ∷ text) = let rest = digits (n * 10 + (c - 48)) text in if is_digit c then rest else n

abbrev pub signed : Bool → Text → Option ℤ
signed minus [] = none
signed minus (c ∷ text) =
    let n = digits 0 (c ∷ text) in
    if not (is_digit c)
    then none
    else if minus
    then (if ltb (2 ^ 31) n then none else (if n == 0 then some (pos 0) else some (negsuc (n - 1))))
    else (if leb (2 ^ 31) n then none else some (pos n))

abbrev pub stoi : Text → Option ℤ
stoi [] = none
stoi (c ∷ text) =
    let rest = stoi text in
    if is_space c
    then rest
    else if c == 45
    then signed true text
    else (if c == 43 then signed false text else signed false (c ∷ text))

-- The second loop, after the first version has run out.
unfoldable pub compare_rest : List Text → Option ℤ
compare_rest [] = some (pos 1)
compare_rest (part2 ∷ rest2) =
    let rest = compare_rest rest2 in
    elim (stoi part2) [ none ↦ none | some n ↦ if ltz (pos 0) n then some (negsuc 0) else rest ]

-- The first loop; it leaves the second version's last part unread where the first has run out.
unfoldable pub compare_parts : List Text → List Text → Option ℤ
compare_parts [] parts2 = compare_rest parts2
compare_parts (part1 ∷ rest1) [] = some (pos 1)
compare_parts (part1 ∷ rest1) (part2 ∷ rest2) =
    let rest = compare_parts rest1 rest2 in
    elim (stoi part1) [
      | none ↦ none
      | some n1 ↦ elim (stoi part2) [
        | none ↦ none
        | some n2 ↦ if ltz n1 n2 then some (negsuc 0) else rest
      ]
    ]

unfoldable pub compare : Text → Text → Option ℤ
compare m n =
    if OrdSet.same ⦃o = text_ord⦄ m n then some (pos 0) else compare_parts (parts m) (parts n)

-- `operator<`, `operator>`, `operator==` and the others test the result of `compare`.
abbrev pub test : (ℤ → Bool) → Option ℤ → Option Bool
test f none = none
test f (some z) = some (f z)

unfoldable pub is_equal : Text → Text → Option Bool
is_equal m n = test (λ z. not (ltz z (pos 0)) && not (ltz (pos 0) z)) (compare m n)

unfoldable pub is_unequal : Text → Text → Option Bool
is_unequal m n = test (λ z. ltz z (pos 0) || ltz (pos 0) z) (compare m n)

unfoldable pub is_smaller : Text → Text → Option Bool
is_smaller m n = test (λ z. ltz z (pos 0)) (compare m n)

unfoldable pub is_greater : Text → Text → Option Bool
is_greater m n = test (λ z. ltz (pos 0) z) (compare m n)

unfoldable pub is_smaller_or_equal : Text → Text → Option Bool
is_smaller_or_equal m n = test (λ z. not (ltz (pos 0) z)) (compare m n)

unfoldable pub is_greater_or_equal : Text → Text → Option Bool
is_greater_or_equal m n = test (λ z. not (ltz z (pos 0))) (compare m n)
