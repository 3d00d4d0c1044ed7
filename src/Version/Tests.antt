-- ===== src/Version/Tests.antt =====
-- Versions that are compared: 1.2 with 1.10, and 2.0 with 1.5.
use ho_i4_mod_development_to.Base.{ℕ, ◌≤◌, ◌<◌, ◌≡◌, ◌⊎◌, refl, true, some, [], ◌∷◌, arith}
use ho_i4_mod_development_to.Base.Ord.{Text}
use ho_i4_mod_development_to.Version.{pos, negsuc, parts, compare, is_smaller}
use ho_i4_mod_development_to.Version.Smaller.{at, compare_lem, is_smaller_both}

abbrev one_two : Text
one_two = b'1' ∷ b'.' ∷ b'2' ∷ []

abbrev one_ten : Text
one_ten = b'1' ∷ b'.' ∷ b'1' ∷ b'0' ∷ []

abbrev two_zero : Text
two_zero = b'2' ∷ b'.' ∷ b'0' ∷ []

abbrev one_five : Text
one_five = b'1' ∷ b'.' ∷ b'5' ∷ []

compare_example :
    (((i : ℕ) × (at i (1 ∷ 2 ∷ []) < at i (1 ∷ 10 ∷ [])))
      × (compare one_two one_ten ≡ some (negsuc 0)))
    ⊎ (((i : ℕ) → at i (1 ∷ 10 ∷ []) ≤ at i (1 ∷ 2 ∷ []))
        × (compare one_two one_ten ≡ some (pos 1)))
unfolding parts
compare_example =
    compare_lem one_two one_ten (1 ∷ 2 ∷ []) (1 ∷ 10 ∷ []) (λ e. ground (arith, e)) refl refl

is_smaller_both_example :
    (is_smaller two_zero one_five ≡ some true) × (is_smaller one_five two_zero ≡ some true)
unfolding parts
is_smaller_both_example =
    is_smaller_both two_zero one_five (2 ∷ 0 ∷ []) (1 ∷ 5 ∷ []) 1 0 (λ e. ground (arith, e)) refl
      refl (omega arith) (omega arith)
