-- ===== src/Options/Apply.antt =====
-- `parse_options` (main.c): what each option does. `state`, `line_mode` and `config_path` may be NULL
-- pointers, and then nothing is written through them.
use swaylock.Base.{ℕ, Bool, true, false, Option, none, some, List, [], ◌∷◌, if◌then◌else◌, codes}
use mathlib.Core.Option
use swaylock.Args.{Args, Colors, BackgroundMode}
use swaylock.Color.{parse_color, strtol_u32}
use swaylock.Image.{Image, Files, load_image, text_eq}
use swaylock.Options.{Code, ColorOption, ValueOption, FlagOption, color, value, flag}

pub data LineMode : Type 0 where
  line inside ring : LineMode

-- The options that set one colour.
unfoldable pub set_color : ColorOption → ℕ → Colors → Colors
set_color ColorOption.background v cs = record cs { background = v }
set_color ColorOption.bs_hl_color v cs = record cs { bs_highlight = v }
set_color ColorOption.caps_lock_bs_hl_color v cs = record cs { caps_lock_bs_highlight = v }
set_color ColorOption.caps_lock_key_hl_color v cs = record cs { caps_lock_key_highlight = v }
set_color ColorOption.inside_color v cs = record cs { inside = record cs.inside { input = v } }
set_color ColorOption.inside_clear_color v cs = record cs {
  inside = record cs.inside { cleared = v };
}
set_color ColorOption.inside_caps_lock_color v cs = record cs {
  inside = record cs.inside { caps_lock = v };
}
set_color ColorOption.inside_ver_color v cs = record cs {
  inside = record cs.inside { verifying = v };
}
set_color ColorOption.inside_wrong_color v cs = record cs {
  inside = record cs.inside { wrong = v };
}
set_color ColorOption.key_hl_color v cs = record cs { key_highlight = v }
set_color ColorOption.layout_bg_color v cs = record cs { layout_background = v }
set_color ColorOption.layout_border_color v cs = record cs { layout_border = v }
set_color ColorOption.layout_txt_color v cs = record cs { layout_text = v }
set_color ColorOption.line_color v cs = record cs { line = record cs.line { input = v } }
set_color ColorOption.line_clear_color v cs = record cs { line = record cs.line { cleared = v } }
set_color ColorOption.line_caps_lock_color v cs = record cs {
  line = record cs.line { caps_lock = v };
}
set_color ColorOption.line_ver_color v cs = record cs { line = record cs.line { verifying = v } }
set_color ColorOption.line_wrong_color v cs = record cs { line = record cs.line { wrong = v } }
set_color ColorOption.ring_color v cs = record cs { ring = record cs.ring { input = v } }
set_color ColorOption.ring_clear_color v cs = record cs { ring = record cs.ring { cleared = v } }
set_color ColorOption.ring_caps_lock_color v cs = record cs {
  ring = record cs.ring { caps_lock = v };
}
set_color ColorOption.ring_ver_color v cs = record cs { ring = record cs.ring { verifying = v } }
set_color ColorOption.ring_wrong_color v cs = record cs { ring = record cs.ring { wrong = v } }
set_color ColorOption.sep_color v cs = record cs { separator = v }
set_color ColorOption.text_color v cs = record cs { text = record cs.text { input = v } }
set_color ColorOption.text_clear_color v cs = record cs { text = record cs.text { cleared = v } }
set_color ColorOption.text_caps_lock_color v cs = record cs {
  text = record cs.text { caps_lock = v };
}
set_color ColorOption.text_ver_color v cs = record cs { text = record cs.text { verifying = v } }
set_color ColorOption.text_wrong_color v cs = record cs { text = record cs.text { wrong = v } }

-- background-image.c
unfoldable pub parse_background_mode : List ℕ → BackgroundMode
unfolding text_eq
parse_background_mode mode =
    if text_eq mode (codes "stretch")
    then BackgroundMode.stretch
    else if text_eq mode (codes "fill")
    then BackgroundMode.fill
    else if text_eq mode (codes "fit")
    then BackgroundMode.fit
    else if text_eq mode (codes "center")
    then BackgroundMode.center
    else if text_eq mode (codes "tile")
    then BackgroundMode.tile
    else if text_eq mode (codes "solid_color")
    then BackgroundMode.solid_color
    else BackgroundMode.invalid

-- What the options write to of `struct swaylock_state`.
pub record Target : Type 0 where
  pub args : Args
  pub images : List Image

-- The three pointers that `parse_options` gets, `none` for NULL, and the level of the log.
pub record Pointers : Type 0 where
  pub state : Option Target
  pub line_mode : Option LineMode
  pub config_path : Option (Option (List ℕ))
  pub debug_log : Bool

-- How a parse goes on: with the next option, by returning 1, or by leaving the program.
pub data Parse : Type 0 where
  goes_on returns_one : Pointers → Parse
  exits : Parse

-- `if (state) { … }`
unfoldable pub on_state : (Target → Target) → Pointers → Pointers
on_state f p = record p { state = Option.map f p.state }

abbrev on_args : (Args → Args) → Pointers → Pointers
unfolding on_state
on_args f = on_state (λ t. record t { args = f t.args })

abbrev is_invalid : BackgroundMode → Bool
is_invalid BackgroundMode.invalid = true
is_invalid _ = false

-- Option s: an unknown mode is stored, and ends the parse.
unfoldable pub set_scaling : BackgroundMode → Pointers → Parse
unfolding on_state
set_scaling mode p =
    let p' = on_args (λ a. record a { mode = mode }) p in
    elim p.state [
      | none ↦ goes_on p
      | some _ ↦ if is_invalid mode then returns_one p' else goes_on p'
    ]

unfoldable pub set_value : Files → ValueOption → List ℕ → Pointers → Parse
unfolding on_state set_scaling
set_value files ValueOption.config arg p =
    goes_on (record p { config_path = Option.map (λ _. some arg) p.config_path })
set_value files ValueOption.image arg p =
    goes_on (on_state (λ t. record t { images = load_image files arg t.images }) p)
set_value files ValueOption.scaling arg p = set_scaling (parse_background_mode arg) p
set_value files ValueOption.font arg p = goes_on (on_args (λ a. record a { font = arg }) p)
set_value files ValueOption.font_size arg p =
    goes_on (on_args (λ a. record a { font_size = strtol_u32 10 arg }) p)
set_value files ValueOption.ind_radius arg p =
    goes_on (on_args (λ a. record a { radius = strtol_u32 0 arg }) p)
set_value files ValueOption.ind_thickness arg p =
    goes_on (on_args (λ a. record a { thickness = strtol_u32 0 arg }) p)
set_value files ValueOption.ind_x_position arg p = goes_on (
    on_args
      (λ a. record a {
        override_indicator_x_position = true;
        indicator_x_position = strtol_u32 10 arg;
      })
      p)
set_value files ValueOption.ind_y_position arg p = goes_on (
    on_args
      (λ a. record a {
        override_indicator_y_position = true;
        indicator_y_position = strtol_u32 10 arg;
      })
      p)

unfoldable pub set_flag : FlagOption → Pointers → Parse
unfolding on_state
set_flag FlagOption.debug p = goes_on (record p { debug_log = true })
set_flag FlagOption.ignore_empty p = goes_on (on_args (λ a. record a { ignore_empty = true }) p)
set_flag FlagOption.show_failed_attempts p =
    goes_on (on_args (λ a. record a { show_failed_attempts = true }) p)
set_flag FlagOption.daemonize p = goes_on (on_args (λ a. record a { daemonize = true }) p)
set_flag FlagOption.help p = returns_one p
set_flag FlagOption.show_keyboard_layout p =
    goes_on (on_args (λ a. record a { show_keyboard_layout = true }) p)
set_flag FlagOption.hide_keyboard_layout p =
    goes_on (on_args (λ a. record a { hide_keyboard_layout = true }) p)
set_flag FlagOption.disable_caps_lock_text p =
    goes_on (on_args (λ a. record a { show_caps_lock_text = false }) p)
set_flag FlagOption.indicator_caps_lock p =
    goes_on (on_args (λ a. record a { show_caps_lock_indicator = true }) p)
set_flag FlagOption.line_uses_inside p =
    goes_on (record p { line_mode = Option.map (λ _. inside) p.line_mode })
set_flag FlagOption.line_uses_ring p =
    goes_on (record p { line_mode = Option.map (λ _. ring) p.line_mode })
set_flag FlagOption.tiling p = goes_on (on_args (λ a. record a { mode = BackgroundMode.tile }) p)
set_flag FlagOption.no_unlock_indicator p =
    goes_on (on_args (λ a. record a { show_indicator = false }) p)
set_flag FlagOption.version p = exits
set_flag FlagOption.ind_idle_visible p =
    goes_on (on_args (λ a. record a { indicator_idle_visible = true }) p)

-- The `switch` on what `getopt_long` returned.
unfoldable pub apply_option : Files → Code → List ℕ → Pointers → Parse
unfolding on_state set_color set_value set_flag
apply_option files (color c) arg p =
    goes_on (on_args (λ a. record a { colors = set_color c (parse_color arg) a.colors }) p)
apply_option files (value v) arg p = set_value files v arg p
apply_option files (flag f) arg p = set_flag f p

-- The loop over what `getopt_long` returns: each code with its `optarg`.
unfoldable pub parse_options : Files → List (Code × List ℕ) → Pointers → Parse
unfolding apply_option
parse_options files [] p = goes_on p
parse_options files ((c, arg) ∷ opts) p = elim (apply_option files c arg p) [
  | goes_on p' ↦ parse_options files opts p'
  | returns_one p' ↦ returns_one p'
  | exits ↦ exits
]
