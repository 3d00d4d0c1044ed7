-- ===== src/Colors/Sequence.antt =====
-- What a run of calls of the colour generator gives out.
use ho_i4_mod_development_to.Base.{ℕ, zero, suc, ◌+◌, ◌*◌, ◌≤◌, ◌<◌, ◌≡◌, refl, ◌≢◌, ◌∙◌, ap, arith}
use ho_i4_mod_development_to.Colors.{
  ProvinceType, unknown, land, sea, lake, Palette, Generator, get_unique_color_ptr,
  set_unique_color_ptr, verify_colors_remain, color_at, take_color, fall_back,
  generate_unique_color, reset_one, reset_unique_color_generator,
}

module _ (pal : Palette) where
  -- The generator after `n` calls with one bias.
  pub after : ℕ → ProvinceType → Generator → Generator
  after zero bias g = g
  after (suc n) bias g = after n bias (generate_unique_color pal bias g).1

  get-set :
      (bias : ProvinceType) (p : ℕ) (g : Generator)
      → get_unique_color_ptr bias (set_unique_color_ptr bias p g) ≡ p
  unfolding get_unique_color_ptr set_unique_color_ptr
  get-set land p g = refl
  get-set sea p g = refl
  get-set lake p g = refl
  get-set unknown p g = refl

  -- While colours remain, a call gives the three bytes at the pointer and moves on by three.
  generate_remaining :
      (bias : ProvinceType) (g : Generator)
      → get_unique_color_ptr bias g < pal.start bias + pal.size bias
      → ((generate_unique_color pal bias g).0 ≡ color_at pal (get_unique_color_ptr bias g))
        × (get_unique_color_ptr bias (generate_unique_color pal bias g).1
            ≡ get_unique_color_ptr bias g + 3)
  unfolding generate_unique_color fall_back take_color verify_colors_remain set_unique_color_ptr
      get_unique_color_ptr
  generate_remaining land g h = ground arith
  generate_remaining sea g h = ground arith
  generate_remaining lake g h = ground arith
  generate_remaining unknown g h = ground arith

  after_ptr :
      (n : ℕ) (bias : ProvinceType) (g : Generator)
      → get_unique_color_ptr bias g + 3 * n < pal.start bias + pal.size bias + 3
      → get_unique_color_ptr bias (after n bias g) ≡ get_unique_color_ptr bias g + 3 * n
  unfolding after
  after_ptr zero bias g h = omega arith
  after_ptr (suc n) bias g h =
      let step = (generate_remaining bias g (omega arith)).1 in
      after_ptr n bias (generate_unique_color pal bias g).1 (omega (arith, step))
      ∙ omega (arith, step)

  reset_ptr :
      (bias : ProvinceType) (g : Generator)
      → get_unique_color_ptr bias (reset_unique_color_generator pal g) ≡ pal.start bias
  unfolding get_unique_color_ptr reset_unique_color_generator reset_one set_unique_color_ptr
  reset_ptr land g = refl
  reset_ptr sea g = refl
  reset_ptr lake g = refl
  reset_ptr unknown g = refl

  -- Of any bias, after a reset and `n` calls the next call gives the `n`-th triple of that bias's
  -- array, if the array goes on so far.
  pub generate_nth :
      (n : ℕ) (bias : ProvinceType) (g : Generator)
      → 3 * n < pal.size bias
      → (generate_unique_color pal bias (after n bias (reset_unique_color_generator pal g))).0
        ≡ color_at pal (pal.start bias + 3 * n)
  generate_nth n bias g h =
      let g' = reset_unique_color_generator pal g in
      let moved : get_unique_color_ptr bias (after n bias g') ≡ pal.start bias + 3 * n =
        omega (arith, after_ptr n bias g' (omega (arith, reset_ptr bias g)), reset_ptr bias g) in
      rw (← moved) ((generate_remaining bias (after n bias g') (omega (arith, moved))).0)

  -- What the pointers must be for a call to take a colour of the unknown ones: the array of the bias is
  -- used up, and the array of the unknown colours lies behind it in memory and is not used up.
  pub record IsUsedUp (bias : ProvinceType) (g : Generator) : Type 0 where
    pub used : pal.start bias + pal.size bias ≤ get_unique_color_ptr bias g
    pub behind : pal.start bias + pal.size bias ≤ get_unique_color_ptr unknown g
    pub left : get_unique_color_ptr unknown g < pal.start unknown + pal.size unknown

  fall_back_lem :
      (bias : ProvinceType) (g : Generator)
      → bias ≢ unknown
      → IsUsedUp bias g
      → ((generate_unique_color pal bias g).0 ≡ color_at pal (get_unique_color_ptr unknown g))
        × (get_unique_color_ptr unknown (generate_unique_color pal bias g).1
            ≡ get_unique_color_ptr unknown g)
        × (get_unique_color_ptr bias (generate_unique_color pal bias g).1
            ≡ get_unique_color_ptr unknown g + 3)
  unfolding generate_unique_color fall_back take_color verify_colors_remain set_unique_color_ptr
      get_unique_color_ptr
  fall_back_lem land g n u = ground (arith, u.used, u.behind, u.left)
  fall_back_lem sea g n u = ground (arith, u.used, u.behind, u.left)
  fall_back_lem lake g n u = ground (arith, u.used, u.behind, u.left)
  fall_back_lem unknown g n u = absurd (n refl)

  fall_back-IsUsedUp :
      (bias : ProvinceType) (g : Generator)
      → bias ≢ unknown
      → IsUsedUp bias g
      → IsUsedUp bias (generate_unique_color pal bias g).1
  fall_back-IsUsedUp bias g n u =
      let (_, e, f) = fall_back_lem bias g n u in
      record {
        used = omega (arith, f, u.behind);
        behind = omega (arith, e, u.behind);
        left = omega (arith, e, u.left);
      }

  -- When the array of a bias other than the unknown one is used up, and the array of the unknown
  -- colours lies behind it in memory and is not, every further call with the bias gives the colour
  -- at the pointer of the unknown colours. It leaves that pointer where it was, and sets the one
  -- of the bias three bytes behind it.
  pub generate_repeats :
      (n : ℕ) (bias : ProvinceType) (g : Generator)
      → bias ≢ unknown
      → IsUsedUp bias g
      → ((generate_unique_color pal bias (after n bias g)).0
          ≡ color_at pal (get_unique_color_ptr unknown g))
        × (get_unique_color_ptr unknown (after (suc n) bias g) ≡ get_unique_color_ptr unknown g)
        × (get_unique_color_ptr bias (after (suc n) bias g) ≡ get_unique_color_ptr unknown g + 3)
  unfolding after
  generate_repeats zero bias g d u = fall_back_lem bias g d u
  generate_repeats (suc n) bias g d u =
      let (a, b, c) =
        generate_repeats n bias (generate_unique_color pal bias g).1 d
          (fall_back-IsUsedUp bias g d u) in
      let e = (fall_back_lem bias g d u).1 in
      (a ∙ ap (color_at pal) e, b ∙ e, c ∙ ap (λ v. v + 3) e)
