-- ===== src/Options.antt =====
-- The codes of `parse_options` (main.c) and the two tables that name them. A short option is its
-- letter's code; the colour options and the others that only have a long name have codes of their own.
pub mod Apply
pub mod Defaults
pub mod Colors
pub mod Tables
use swaylock.Base.{ℕ, Bool, true, false, List, [], ◌∷◌}
use Prim.Native.String.{String}

-- `enum long_option_codes` where the option sets a colour; `background` is the letter c.
pub data ColorOption : Type 0 where
  background : ColorOption
  bs_hl_color : ColorOption
  caps_lock_bs_hl_color : ColorOption
  caps_lock_key_hl_color : ColorOption
  inside_color : ColorOption
  inside_clear_color : ColorOption
  inside_caps_lock_color : ColorOption
  inside_ver_color : ColorOption
  inside_wrong_color : ColorOption
  key_hl_color : ColorOption
  layout_bg_color : ColorOption
  layout_border_color : ColorOption
  layout_txt_color : ColorOption
  line_color : ColorOption
  line_clear_color : ColorOption
  line_caps_lock_color : ColorOption
  line_ver_color : ColorOption
  line_wrong_color : ColorOption
  ring_color : ColorOption
  ring_clear_color : ColorOption
  ring_caps_lock_color : ColorOption
  ring_ver_color : ColorOption
  ring_wrong_color : ColorOption
  sep_color : ColorOption
  text_color : ColorOption
  text_clear_color : ColorOption
  text_caps_lock_color : ColorOption
  text_ver_color : ColorOption
  text_wrong_color : ColorOption

-- The options with an argument that is not a colour: the letters C, i and s, and the long ones.
pub data ValueOption : Type 0 where
  config image scaling font font_size ind_radius ind_thickness : ValueOption
  ind_x_position ind_y_position : ValueOption

-- The options without an argument: the letters d e F f h k K L l n r t u v and one long option. What
-- `getopt_long` does not know ends in the same branch as h.
pub data FlagOption : Type 0 where
  debug ignore_empty show_failed_attempts daemonize help : FlagOption
  show_keyboard_layout hide_keyboard_layout disable_caps_lock_text indicator_caps_lock : FlagOption
  line_uses_inside line_uses_ring tiling no_unlock_indicator version : FlagOption
  ind_idle_visible : FlagOption

pub data Code : Type 0 where
  color : ColorOption → Code
  value : ValueOption → Code
  flag : FlagOption → Code

-- A row of `long_options`: the name, and whether it has a `required_argument`.
pub record LongOption : Type 0 where
  pub name : String
  pub required : Bool
  pub code : Code

abbrev required_argument : String → Code → LongOption
required_argument n c = record { name = n; required = true; code = c }

abbrev no_argument : String → Code → LongOption
no_argument n c = record { name = n; required = false; code = c }

unfoldable pub long_options : List LongOption
long_options =
    required_argument "config" (value config)
    ∷ required_argument "color" (color background)
    ∷ no_argument "debug" (flag debug)
    ∷ no_argument "ignore-empty-password" (flag ignore_empty)
    ∷ no_argument "daemonize" (flag daemonize)
    ∷ no_argument "help" (flag help)
    ∷ required_argument "image" (value image)
    ∷ no_argument "disable-caps-lock-text" (flag disable_caps_lock_text)
    ∷ no_argument "indicator-caps-lock" (flag indicator_caps_lock)
    ∷ no_argument "line-uses-inside" (flag line_uses_inside)
    ∷ no_argument "line-uses-ring" (flag line_uses_ring)
    ∷ required_argument "scaling" (value scaling)
    ∷ no_argument "tiling" (flag tiling)
    ∷ no_argument "no-unlock-indicator" (flag no_unlock_indicator)
    ∷ no_argument "show-keyboard-layout" (flag show_keyboard_layout)
    ∷ no_argument "hide-keyboard-layout" (flag hide_keyboard_layout)
    ∷ no_argument "show-failed-attempts" (flag show_failed_attempts)
    ∷ no_argument "version" (flag version)
    ∷ required_argument "bs-hl-color" (color bs_hl_color)
    ∷ required_argument "caps-lock-bs-hl-color" (color caps_lock_bs_hl_color)
    ∷ required_argument "caps-lock-key-hl-color" (color caps_lock_key_hl_color)
    ∷ required_argument "font" (value font)
    ∷ required_argument "font-size" (value font_size)
    ∷ no_argument "indicator-idle-visible" (flag ind_idle_visible)
    ∷ required_argument "indicator-radius" (value ind_radius)
    ∷ required_argument "indicator-thickness" (value ind_thickness)
    ∷ required_argument "indicator-x-position" (value ind_x_position)
    ∷ required_argument "indicator-y-position" (value ind_y_position)
    ∷ required_argument "inside-color" (color inside_color)
    ∷ required_argument "inside-clear-color" (color inside_clear_color)
    ∷ required_argument "inside-caps-lock-color" (color inside_caps_lock_color)
    ∷ required_argument "inside-ver-color" (color inside_ver_color)
    ∷ required_argument "inside-wrong-color" (color inside_wrong_color)
    ∷ required_argument "key-hl-color" (color key_hl_color)
    ∷ required_argument "layout-bg-color" (color layout_bg_color)
    ∷ required_argument "layout-border-color" (color layout_border_color)
    ∷ required_argument "layout-text-color" (color layout_txt_color)
    ∷ required_argument "line-color" (color line_color)
    ∷ required_argument "line-clear-color" (color line_clear_color)
    ∷ required_argument "line-caps-lock-color" (color line_caps_lock_color)
    ∷ required_argument "line-ver-color" (color line_ver_color)
    ∷ required_argument "line-wrong-color" (color line_wrong_color)
    ∷ required_argument "ring-color" (color ring_color)
    ∷ required_argument "ring-clear-color" (color ring_clear_color)
    ∷ required_argument "ring-caps-lock-color" (color ring_caps_lock_color)
    ∷ required_argument "ring-ver-color" (color ring_ver_color)
    ∷ required_argument "ring-wrong-color" (color ring_wrong_color)
    ∷ required_argument "separator-color" (color sep_color)
    ∷ required_argument "text-color" (color text_color)
    ∷ required_argument "text-clear-color" (color text_clear_color)
    ∷ required_argument "text-caps-lock-color" (color text_caps_lock_color)
    ∷ required_argument "text-ver-color" (color text_ver_color)
    ∷ required_argument "text-wrong-color" (color text_wrong_color)
    ∷ []

-- The letters of "c:deFfhi:kKLlnrs:tuvC:", each with whether a colon follows it.
unfoldable pub short_options : List (ℕ × Bool × Code)
short_options =
    (b'c', true, color background)
    ∷ (b'd', false, flag debug)
    ∷ (b'e', false, flag ignore_empty)
    ∷ (b'F', false, flag show_failed_attempts)
    ∷ (b'f', false, flag daemonize)
    ∷ (b'h', false, flag help)
    ∷ (b'i', true, value image)
    ∷ (b'k', false, flag show_keyboard_layout)
    ∷ (b'K', false, flag hide_keyboard_layout)
    ∷ (b'L', false, flag disable_caps_lock_text)
    ∷ (b'l', false, flag indicator_caps_lock)
    ∷ (b'n', false, flag line_uses_inside)
    ∷ (b'r', false, flag line_uses_ring)
    ∷ (b's', true, value scaling)
    ∷ (b't', false, flag tiling)
    ∷ (b'u', false, flag no_unlock_indicator)
    ∷ (b'v', false, flag version)
    ∷ (b'C', true, value config)
    ∷ []
