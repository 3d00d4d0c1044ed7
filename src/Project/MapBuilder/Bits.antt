-- ===== src/Project/MapBuilder/Bits.antt =====
-- The lowest bit of a number.
use ho_i4_mod_development_to.Base.{
  ℕ, zero, suc, ◌+◌, ◌*◌, ◌/◌, ◌%◌, ◌^◌, ◌≤◌, ◌<◌, ◌≡◌, refl, sym, ◌∙◌, ap, subst, false, inl, inr,
  ◌⊎◌, ==_iff, ==_ne, Bool-cases, ltb, ◌-◌, ◌==◌, arith,
}
use native.Mathlib.Nat.{mul-div_cancel, zero-div}
use ho_i4_mod_development_to.Project.MapBuilder.{count_zeros, index_of_lsb, shift_to_lsb}

pow_suc : (k : ℕ) → 2 ^ suc k ≡ 2 ^ k * 2
pow_suc k = omega arith

pow_pos : (k : ℕ) → 0 < 2 ^ k
pow_pos zero = omega arith
pow_pos (suc k) = omega (arith, pow_suc k, pow_pos k)

times_pow : (m k : ℕ) → m * 2 ^ suc k ≡ m * 2 ^ k * 2
times_pow m k = ap (λ v. m * v) (pow_suc k) ∙ omega arith

div_pow : (m k : ℕ) → m * 2 ^ k / 2 ^ k ≡ m
div_pow m k = mul-div_cancel m (pow_pos k)

count_zeros_lem : (n m k : ℕ) → m % 2 ≡ 1 → k < n → count_zeros n (m * 2 ^ k) ≡ k
unfolding count_zeros
count_zeros_lem zero m k o h = absurd (omega (arith, h))
count_zeros_lem (suc n) m zero o h =
    let odd : m * 1 % 2 ≡ 1 = omega (arith, o) in ground (arith, odd)
count_zeros_lem (suc n) m (suc k) o h =
    let e = times_pow m k in
    let half : m * 2 ^ suc k / 2 ≡ m * 2 ^ k = omega (arith, e) in
    let even : m * 2 ^ suc k % 2 ≡ 0 = omega (arith, e) in
    let rest = count_zeros_lem n m k o (omega (arith, h)) in
    ground (arith, even, ap (count_zeros n) half ∙ rest)

times_pow_pos : (m k : ℕ) → 0 < m → 0 < m * 2 ^ k
times_pow_pos m zero h = omega (arith, h)
times_pow_pos m (suc k) h = omega (arith, times_pow m k, times_pow_pos m k h)

too_big : (m j : ℕ) → 0 < m → 2 ^ 6 ≤ m * 2 ^ (j + 6)
too_big m zero h = omega (arith, h)
too_big m (suc j) h =
    let e : m * 2 ^ (suc j + 6) ≡ m * 2 ^ (j + 6) * 2 =
      ap (λ v. m * 2 ^ v) (omega arith) ∙ times_pow m (j + 6) in
    omega (arith, e, too_big m j h)

-- A factor of a number of six bits.
pub small_power : (m k : ℕ) → m % 2 ≡ 1 → m * 2 ^ k < 2 ^ 6 → k < 6
small_power m k o h = elim (Bool-cases (ltb k 6)) [
  | inl t ↦ ground (arith, t)
  | inr t ↦
      let e : k - 6 + 6 ≡ k = ground (arith, t) in
      let big = subst (λ v. 2 ^ 6 ≤ m * 2 ^ v) e (too_big m (k - 6) (omega (arith, o))) in
      absurd (omega (arith, big, h))
]

-- A number that is odd but for a factor `2 ^ k` is shifted to its odd part.
pub shift_to_lsb_lem : (z m k : ℕ) → m % 2 ≡ 1 → k < 32 → shift_to_lsb z (m * 2 ^ k) ≡ m
unfolding index_of_lsb
shift_to_lsb_lem z m k o h =
    let some_bit : (m * 2 ^ k == 0) ≡ false =
      ==_ne (m * 2 ^ k) 0 (λ e. omega (arith, e, times_pow_pos m k (omega (arith, o)))) in
    let index : index_of_lsb z (m * 2 ^ k) ≡ k =
      ground (arith, some_bit, count_zeros_lem 32 m k o h) in
    ap (λ v. m * 2 ^ k / 2 ^ v) index ∙ mul-div_cancel m (pow_pos k)

pub moved_up : (m k j : ℕ) → m * 2 ^ k * 2 ^ j ≡ m * 2 ^ (k + j)
moved_up m k zero =
    let e : m * 2 ^ k ≡ m * 2 ^ (k + 0) = ap (λ v. m * 2 ^ v) (omega arith) in omega (arith, e)
moved_up m k (suc j) =
    times_pow (m * 2 ^ k) j
    ∙ (ap (λ v. v * 2) (moved_up m k j)
        ∙ (sym (times_pow m (k + j)) ∙ ap (λ v. m * 2 ^ v) (omega arith)))

pub shift_to_lsb_zero : (z k : ℕ) → shift_to_lsb z (0 * 2 ^ k) ≡ 0
shift_to_lsb_zero z k =
    let e : 0 * 2 ^ k ≡ 0 = omega arith in ap (shift_to_lsb z) e ∙ zero-div (2 ^ index_of_lsb z 0)

-- One bit, shifted.
pub shift_to_lsb_bit : (z b k : ℕ) → b < 2 → k < 32 → shift_to_lsb z (b * 2 ^ k) ≡ b
shift_to_lsb_bit z zero k h l =
    let e : 0 * 2 ^ k ≡ 0 = omega arith in ap (shift_to_lsb z) e ∙ zero-div (2 ^ index_of_lsb z 0)
shift_to_lsb_bit z (suc zero) k h l = shift_to_lsb_lem z 1 k refl l
shift_to_lsb_bit z (suc (suc b)) k h l = absurd (omega (arith, h))

-- A number is 0, or it is odd but for a factor `2 ^ k`.
pub odd_part_lem :
    (n v : ℕ) → v < 2 ^ n → (v ≡ 0) ⊎ ((m : ℕ) × (k : ℕ) × (m % 2 ≡ 1) × (v ≡ m * 2 ^ k))
odd_part_lem zero v h = inl (omega (arith, h))
odd_part_lem (suc n) v h = elim (Bool-cases (v % 2 == 1)) [
  | inl t ↦ inr (v, 0, (==_iff _ _).0 t, omega arith)
  | inr t ↦
      let even : v % 2 ≡ 0 = ground (arith, t) in
      elim (odd_part_lem n (v / 2) (omega (arith, h, pow_suc n))) [
        | inl e ↦ inl (omega (arith, e, even))
        | inr (m, k, o, e) ↦ inr (m, suc k, o, omega (arith, e, even, times_pow m k))
      ]
]
