-- ===== src/Project/MapBuilder/Decoded.antt =====
-- What the colours of the shapes hold, and the list of the provinces.
use ho_i4_mod_development_to.Base.{
  ℕ, zero, suc, ◌+◌, ◌*◌, ◌/◌, ◌%◌, ◌^◌, ◌≤◌, ◌<◌, ◌≡◌, ◌≢◌, ◌⊎◌, inl, inr, refl, ◌∙◌, ap, subst,
  false, some, List, [], ◌∷◌, length, get_elem?, ◌==◌, arith, ==_ne, ==_self,
}
use mathlib.Core.Option.{some-injective}
use ho_i4_mod_development_to.Base.Ord.{Text}
use ho_i4_mod_development_to.Base.Dict
use ho_i4_mod_development_to.Base.Dict.{Dict}
use ho_i4_mod_development_to.Colors.{Color, color_to_rgb}
use ho_i4_mod_development_to.Project.{ProvinceId, Province}
use ho_i4_mod_development_to.Project.MapBuilder.{
  byte_to_string, masked, shift_to_lsb, is_coastal, get_terrain_type, get_continent, get_state,
  decoded, list_provinces, create_province_list,
}
use ho_i4_mod_development_to.Project.MapBuilder.Bits.{
  shift_to_lsb_lem, shift_to_lsb_zero, odd_part_lem, small_power, shift_to_lsb_bit, moved_up,
}
use ho_i4_mod_development_to.Shapes.Finder.{Polygon}

-- A field of the colour, where it has six bits at most, is shifted to its odd part.
field_lem :
    (z v low width m k : ℕ)
    → low < 19
    → m % 2 ≡ 1
    → m * 2 ^ k < 2 ^ 6
    → v / 2 ^ low % 2 ^ width ≡ m * 2 ^ k
    → shift_to_lsb z (masked low width v) ≡ m
field_lem z v low width m k l o h e =
    ap (shift_to_lsb z) (ap (λ t. t * 2 ^ low) e ∙ moved_up m k low)
    ∙ shift_to_lsb_lem z m (k + low) o (omega (arith, l, small_power m k o h))

-- What the text of a field says: the number is 0, or the text is that of its greatest odd divisor.
abbrev pub Reads : ℕ → Text → Type 0
Reads v text =
    ((v ≡ 0) × (text ≡ byte_to_string 0))
    ⊎ ((m : ℕ) × (k : ℕ) × (m % 2 ≡ 1) × (v ≡ m * 2 ^ k) × (text ≡ byte_to_string m))

field-Reads :
    (z v low width : ℕ)
    → low < 19
    → v / 2 ^ low % 2 ^ width < 2 ^ 6
    → Reads (v / 2 ^ low % 2 ^ width) (byte_to_string (shift_to_lsb z (masked low width v)))
field-Reads z v low width l h = elim (odd_part_lem 6 (v / 2 ^ low % 2 ^ width) h) [
  | inl e ↦
      inl
        (e, ap byte_to_string (ap (λ t. shift_to_lsb z (t * 2 ^ low)) e ∙ shift_to_lsb_zero z low))
  | inr (m, k, o, e) ↦
      inr (m, k, o, e, ap byte_to_string (field_lem z v low width m k l o (omega (arith, e, h)) e))
]

module _ (ctz_of_zero : ℕ) (c : Color) where
  coastal_lem : is_coastal ctz_of_zero c ≡ (color_to_rgb c / 2 ^ 17 % 2 == 1)
  unfolding is_coastal
  coastal_lem =
      ap (λ v. v == 1)
        (shift_to_lsb_bit ctz_of_zero (color_to_rgb c / 2 ^ 17 % 2) 17 (omega arith) (omega arith))

  -- The lowest twelve bits of the colour's number are the state, and the bit 17 says whether the province
  -- is coastal, whatever the other bits. The text of the six bits of the terrain is that of their
  -- greatest odd divisor, or that of 0 where they are all zero, and so is the text of the three bits of
  -- the continent.
  pub fields_lem :
      (get_state c ≡ color_to_rgb c % 2 ^ 12)
      × (is_coastal ctz_of_zero c ≡ (color_to_rgb c / 2 ^ 17 % 2 == 1))
      × Reads (color_to_rgb c / 2 ^ 18 % 2 ^ 6) (get_terrain_type ctz_of_zero c)
      × Reads (color_to_rgb c / 2 ^ 14 % 2 ^ 3) (get_continent ctz_of_zero c)
  unfolding get_state get_terrain_type get_continent
  fields_lem = (
    omega arith,
    coastal_lem,
    field-Reads ctz_of_zero (color_to_rgb c) 18 6 (omega arith) (omega arith),
    field-Reads ctz_of_zero (color_to_rgb c) 14 3 (omega arith) (omega arith),
  )

module _ (ctz_of_zero : ℕ) (fresh : ℕ → ProvinceId) where
  list_provinces_other :
      (shapes : List Polygon) (i : ℕ) (m : Dict Province) (k : ProvinceId)
      → ((j : ℕ) → i ≤ j → fresh j ≢ k)
      → Dict.lookup k (list_provinces ctz_of_zero fresh i shapes m) ≡ Dict.lookup k m
  unfolding list_provinces
  list_provinces_other [] i m k h = refl
  list_provinces_other (x ∷ xs) i m k h =
      list_provinces_other xs (i + 1) (Dict.insert (fresh i) (decoded ctz_of_zero (fresh i) x) m) k
        (λ j l. h j (omega (arith, l)))
      ∙ ground (
        arith,
        Dict.lookup-insert (fresh i) k (decoded ctz_of_zero (fresh i) x) m,
        ==_ne (fresh i) k (h i (omega arith)),
      )

  module _ (distinct : (i j : ℕ) → fresh i ≡ fresh j → i ≡ j) where
    list_provinces_at :
        (shapes : List Polygon) (i : ℕ) (m : Dict Province) (j : ℕ) (s : Polygon)
        → get_elem? shapes j ≡ some s
        → Dict.lookup (fresh (i + j)) (list_provinces ctz_of_zero fresh i shapes m)
          ≡ some (decoded ctz_of_zero (fresh (i + j)) s)
    unfolding list_provinces
    list_provinces_at [] i m j s e = absurd cc
    list_provinces_at (x ∷ xs) i m zero s e =
        let next = Dict.insert (fresh i) (decoded ctz_of_zero (fresh i) x) m in
        let here : i ≡ i + 0 = omega arith in
        let kept =
          list_provinces_other xs (i + 1) next (fresh i)
            (λ j l e. omega (arith, distinct j i e, l)) in
        let own : Dict.lookup (fresh i) next ≡ some (decoded ctz_of_zero (fresh i) x) = ground (
          arith,
          Dict.lookup-insert (fresh i) (fresh i) (decoded ctz_of_zero (fresh i) x) m,
          ==_self (fresh i),
        ) in
        subst
          (λ v.
            Dict.lookup (fresh v) (list_provinces ctz_of_zero fresh (i + 1) xs next)
            ≡ some (decoded ctz_of_zero (fresh v) s))
          here
          (kept ∙ (own ∙ ap (λ t. some (decoded ctz_of_zero (fresh i) t)) (some-injective _ _ e)))
    list_provinces_at (x ∷ xs) i m (suc j) s e =
        let next = Dict.insert (fresh i) (decoded ctz_of_zero (fresh i) x) m in
        let shift : i + 1 + j ≡ i + suc j = omega arith in
        subst
          (λ v.
            Dict.lookup (fresh v) (list_provinces ctz_of_zero fresh (i + 1) xs next)
            ≡ some (decoded ctz_of_zero (fresh v) s))
          shift (list_provinces_at xs (i + 1) next j s e)

    list_provinces-size :
        (shapes : List Polygon) (i : ℕ) (m : Dict Province)
        → ((j : ℕ) → i ≤ j → Dict.has (fresh j) m ≡ false)
        → Dict.size (list_provinces ctz_of_zero fresh i shapes m) ≡ length shapes + Dict.size m
    unfolding list_provinces
    list_provinces-size [] i m new = omega arith
    list_provinces-size (x ∷ xs) i m new =
        let p = decoded ctz_of_zero (fresh i) x in
        let rest = list_provinces-size xs (i + 1) (Dict.insert (fresh i) p m) (λ j l. ground (
          arith,
          new j (omega (arith, l)),
          Dict.lookup-insert (fresh i) (fresh j) p m,
          ==_ne (fresh i) (fresh j) (λ e. omega (arith, distinct i j e, l)),
        )) in
        omega (arith, rest, Dict.size-insert_new (fresh i) p m (new i (omega arith)))

    -- Where the platform makes different UUIDs, there are as many provinces as shapes, and each shape has
    -- the province that its colour describes, under the UUID that was made for it.
    pub create_province_list_lem :
        (shapes : List Polygon)
        → (Dict.size (create_province_list ctz_of_zero fresh shapes) ≡ length shapes)
          × ((i : ℕ) (s : Polygon)
              → get_elem? shapes i ≡ some s
              → Dict.lookup (fresh i) (create_province_list ctz_of_zero fresh shapes)
                ≡ some (decoded ctz_of_zero (fresh i) s))
    unfolding create_province_list
    create_province_list_lem shapes = (
      omega (arith, list_provinces-size shapes 0 [] (λ j l. refl)),
      (λ i s e.
          subst
            (λ v.
              Dict.lookup (fresh v) (list_provinces ctz_of_zero fresh 0 shapes [])
              ≡ some (decoded ctz_of_zero (fresh v) s))
            (let z : 0 + i ≡ i = omega arith in z) (list_provinces_at shapes 0 [] i s e)),
    )
