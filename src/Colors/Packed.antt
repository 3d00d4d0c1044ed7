-- ===== src/Colors/Packed.antt =====
-- Colours as numbers, and their equality.
use ho_i4_mod_development_to.Base.{ℕ, ◌<◌, ◌^◌, ◌≡◌, ◌↔◌, true, arith}
use ho_i4_mod_development_to.Colors.{Color, do_colors_match, color_to_rgb, rgb_to_color}

-- The channels are bytes.
pub record IsByteColor (c : Color) : Type 0 where
  pub red : c.r < 256
  pub green : c.g < 256
  pub blue : c.b < 256

-- A colour of bytes comes back from its number, which lies below 2 ^ 24.
pub rgb_to_color-color_to_rgb :
    (c : Color) → IsByteColor c → (rgb_to_color (color_to_rgb c) ≡ c) × (color_to_rgb c < 2 ^ 24)
unfolding rgb_to_color color_to_rgb
rgb_to_color-color_to_rgb c h = (ground arith, omega arith)

-- A number below 2 ^ 24 comes back from its colour.
pub color_to_rgb-rgb_to_color : (n : ℕ) → n < 2 ^ 24 → color_to_rgb (rgb_to_color n) ≡ n
unfolding rgb_to_color color_to_rgb
color_to_rgb-rgb_to_color n h = omega arith

pub do_colors_match_iff : (c d : Color) → (do_colors_match c d ≡ true) ↔ (c ≡ d)
unfolding do_colors_match
do_colors_match_iff c d = ground arith
