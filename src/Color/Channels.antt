-- ===== src/Color/Channels.antt =====
-- The colours given to cairo (cairo.c). cairo takes every channel over 255; what is modelled is the
-- number that is divided.
use swaylock.Base.{
  ℕ, ◌+◌, ◌*◌, ◌/◌, ◌%◌, ◌^◌, ◌<◌, ◌≡◌, refl, ◌∙◌, inl, inr, Bool, Option, none, some, List, [],
  ◌∷◌, arith, ◌==◌, if◌then◌else◌, All,
}
use swaylock.Base.Bits.{bit_and-mask}
use Prim.Native.Nat.{bit_and}
use swaylock.Color.{parse_color}
use swaylock.Color.Parse.{IsDigit, hex_value, hex_value-lt, hashed, parse_color-digits}

-- The arguments of `cairo_set_source_rgba`, in 255ths.
pub record Rgba : Type 0 where
  pub red : ℕ
  pub green : ℕ
  pub blue : ℕ
  pub alpha : ℕ

unfoldable pub cairo_set_source_u32 : ℕ → Rgba
cairo_set_source_u32 color = record {
  red = bit_and (color / 2 ^ 24) 0xFF;
  green = bit_and (color / 2 ^ 16) 0xFF;
  blue = bit_and (color / 2 ^ 8) 0xFF;
  alpha = bit_and (color / 2 ^ 0) 0xFF;
}

pub data SubpixelOrder : Type 0 where
  rgb bgr vrgb vbgr default_order : SubpixelOrder

-- `enum wl_output_subpixel` counts: unknown, none, horizontal RGB and BGR, vertical RGB and BGR.
unfoldable pub to_cairo_subpixel_order : ℕ → SubpixelOrder
to_cairo_subpixel_order subpixel =
    if subpixel == 2
    then SubpixelOrder.rgb
    else if subpixel == 3
    then SubpixelOrder.bgr
    else if subpixel == 4
    then SubpixelOrder.vrgb
    else if subpixel == 5
    then SubpixelOrder.vbgr
    else SubpixelOrder.default_order

-- A colour argument of six digits, and of eight.
abbrev pub Digits : Type 0
Digits = ℕ × ℕ

abbrev pub with_alpha : Option Digits → List ℕ
with_alpha none = []
with_alpha (some (a, a')) = a ∷ a' ∷ []

abbrev pub alpha_of : Option Digits → ℕ
alpha_of none = 255
alpha_of (some (a, a')) = hex_value a * 16 + hex_value a'

low_byte : (a : ℕ) → bit_and a 0xFF ≡ a % 256
low_byte a = bit_and-mask 8 a 0xFF refl

-- A colour taken apart into its bytes.
cairo_set_source_u32-bytes :
    (color r g b a : ℕ)
    → r < 256
    → g < 256
    → b < 256
    → a < 256
    → color ≡ r * 2 ^ 24 + g * 2 ^ 16 + b * 2 ^ 8 + a
    → cairo_set_source_u32 color ≡ record { red = r; green = g; blue = b; alpha = a }
unfolding cairo_set_source_u32
cairo_set_source_u32-bytes color r g b a hr hg hb ha e =
    let red : bit_and (color / 2 ^ 24) 0xFF ≡ r = low_byte (color / 2 ^ 24) ∙ omega arith in
    let green : bit_and (color / 2 ^ 16) 0xFF ≡ g = low_byte (color / 2 ^ 16) ∙ omega arith in
    let blue : bit_and (color / 2 ^ 8) 0xFF ≡ b = low_byte (color / 2 ^ 8) ∙ omega arith in
    let alpha : bit_and (color / 2 ^ 0) 0xFF ≡ a = low_byte (color / 2 ^ 0) ∙ omega arith in
    λ i. record { red = red i; green = green i; blue = blue i; alpha = alpha i }

two_digits : (d d' : ℕ) → IsDigit d → IsDigit d' → hex_value d * 16 + hex_value d' < 256
two_digits d d' h h' = omega (arith, hex_value-lt d h, hex_value-lt d' h')

-- What cairo is given for a colour argument of two hexadecimal digits of either case for each of red, green and blue, with or
-- without a leading hash, and with or without two digits of alpha: the numbers of the digits, and
-- full alpha where none is written.
pub cairo_set_source_u32-parse_color :
    (hash : Bool) (r r' g g' b b' : ℕ) (alpha : Option Digits)
    → All IsDigit (r ∷ r' ∷ g ∷ g' ∷ b ∷ b' ∷ with_alpha alpha)
    → cairo_set_source_u32 (parse_color (hashed hash (r ∷ r' ∷ g ∷ g' ∷ b ∷ b' ∷ with_alpha alpha)))
      ≡ record {
        red = hex_value r * 16 + hex_value r';
        green = hex_value g * 16 + hex_value g';
        blue = hex_value b * 16 + hex_value b';
        alpha = alpha_of alpha;
      }
cairo_set_source_u32-parse_color hash r r' g g' b b' none h =
    let read = parse_color-digits hash r r' (g ∷ g' ∷ b ∷ b' ∷ []) h (inl refl) in
    cairo_set_source_u32-bytes _ (hex_value r * 16 + hex_value r') (hex_value g * 16 + hex_value g')
      (hex_value b * 16 + hex_value b') 255 (two_digits r r' h.0 h.1.0)
      (two_digits g g' h.1.1.0 h.1.1.1.0) (two_digits b b' h.1.1.1.1.0 h.1.1.1.1.1.0) (omega arith)
      (read ∙ omega arith)
cairo_set_source_u32-parse_color hash r r' g g' b b' (some (a, a')) h =
    let read = parse_color-digits hash r r' (g ∷ g' ∷ b ∷ b' ∷ a ∷ a' ∷ []) h (inr refl) in
    cairo_set_source_u32-bytes _ (hex_value r * 16 + hex_value r') (hex_value g * 16 + hex_value g')
      (hex_value b * 16 + hex_value b') (hex_value a * 16 + hex_value a')
      (two_digits r r' h.0 h.1.0) (two_digits g g' h.1.1.0 h.1.1.1.0)
      (two_digits b b' h.1.1.1.1.0 h.1.1.1.1.1.0)
      (two_digits a a' h.1.1.1.1.1.1.0 h.1.1.1.1.1.1.1.0) (read ∙ omega arith)
