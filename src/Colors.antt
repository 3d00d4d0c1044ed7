-- ===== src/Colors.antt =====
-- mod_dev_tool/common: Color and ProvinceType (Types.h), the colour conversions of Util.cpp, and the
-- generator of unique colours (UniqueColorGenerator.cpp) over the arrays that the build generates.
pub mod Sequence
pub mod Packed
mod Tests
use ho_i4_mod_development_to.Base.{
  ℕ, zero, suc, ◌+◌, ◌*◌, ◌/◌, ◌%◌, ◌^◌, Bool, true, false, ◌&&◌, List, [], ◌∷◌, if◌then◌else◌, ltb,
  ◌==◌,
}

pub record Color : Type 0 where
  pub r : ℕ
  pub g : ℕ
  pub b : ℕ

abbrev pub border_color : Color
border_color = record { r = 0; g = 0; b = 0 }

pub data ProvinceType : Type 0 where
  unknown land sea lake : ProvinceType

-- `doColorsMatch`, which `operator==` calls.
unfoldable pub do_colors_match : Color → Color → Bool
do_colors_match c d = c.r == d.r && (c.g == d.g && c.b == d.b)

-- The bytes side by side: r << 16 | g << 8 | b, below 2 ^ 24.
unfoldable pub color_to_rgb : Color → ℕ
color_to_rgb c = (c.g * 2 ^ 8 + c.r * 2 ^ 16 + c.b) % 2 ^ 24

unfoldable pub rgb_to_color : ℕ → Color
rgb_to_color rgb = record { r = rgb / 2 ^ 16 % 2 ^ 8; g = rgb / 2 ^ 8 % 2 ^ 8; b = rgb % 2 ^ 8 }

-- Where the four arrays lie in memory, how many bytes each has, and what the bytes are.
pub record Palette : Type 0 where
  pub start : ProvinceType → ℕ
  pub size : ProvinceType → ℕ
  pub byte : ℕ → ℕ

-- The static pointers of `getUniqueColorPtr`.
pub record Generator : Type 0 where
  pub land_ptr : ℕ
  pub sea_ptr : ℕ
  pub lake_ptr : ℕ
  pub unknown_ptr : ℕ

unfoldable pub get_unique_color_ptr : ProvinceType → Generator → ℕ
get_unique_color_ptr land g = g.land_ptr
get_unique_color_ptr sea g = g.sea_ptr
get_unique_color_ptr lake g = g.lake_ptr
get_unique_color_ptr unknown g = g.unknown_ptr

-- A write through the reference that `getUniqueColorPtr` returns.
unfoldable pub set_unique_color_ptr : ProvinceType → ℕ → Generator → Generator
set_unique_color_ptr land p g = record g { land_ptr = p }
set_unique_color_ptr sea p g = record g { sea_ptr = p }
set_unique_color_ptr lake p g = record g { lake_ptr = p }
set_unique_color_ptr unknown p g = record g { unknown_ptr = p }

module _ (pal : Palette) where
  unfoldable pub verify_colors_remain : ProvinceType → Generator → Bool
  verify_colors_remain bias g = ltb (get_unique_color_ptr bias g) (pal.start bias + pal.size bias)

  abbrev pub color_at : ℕ → Color
  color_at p = record { r = pal.byte p; g = pal.byte (p + 1); b = pal.byte (p + 2) }

  -- `c = *color_ptr; color_ptr += 3;` where `color_ptr` refers to the pointer of `bias`.
  unfoldable pub take_color : ProvinceType → Generator → Color × Generator
  take_color bias g = (
    color_at (get_unique_color_ptr bias g),
    set_unique_color_ptr bias (get_unique_color_ptr bias g + 3) g,
  )

  -- From `unknown_color_label`: the pointer of `bias` itself is set to the unknown one.
  unfoldable pub fall_back : ProvinceType → Generator → Color × Generator
  fall_back bias g =
      let g' = set_unique_color_ptr bias (get_unique_color_ptr unknown g) g in
      if verify_colors_remain unknown g' then take_color bias g' else (border_color, g')

  unfoldable pub generate_unique_color : ProvinceType → Generator → Color × Generator
  generate_unique_color unknown g = fall_back unknown g
  generate_unique_color bias g =
      if verify_colors_remain bias g then take_color bias g else fall_back bias g

  unfoldable pub reset_one : ProvinceType → Generator → Generator
  reset_one bias g = set_unique_color_ptr bias (pal.start bias) g

  unfoldable pub reset_unique_color_generator : Generator → Generator
  reset_unique_color_generator g =
      reset_one unknown (reset_one sea (reset_one lake (reset_one land g)))
