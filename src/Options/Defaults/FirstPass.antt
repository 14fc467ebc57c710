-- ===== src/Options/Defaults/FirstPass.antt =====
-- The first pass over the command line, with NULL for the state and the line mode.
use swaylock.Base.{ℕ, ◌≡◌, refl, Bool, true, Option, some, List, [], ◌∷◌}
use swaylock.Image.{Files}
use swaylock.Options.{Code, color, value, flag, ValueOption, FlagOption}
use swaylock.Options.Apply.{Parse, goes_on, returns_one, exits, parse_options}
use swaylock.Options.Defaults.{first_pointers}

-- What the first pass looks at: the path of a configuration file, the level of the log, and the
-- options that end the program.
unfoldable pub first_pass : Option (List ℕ) → Bool → List (Code × List ℕ) → Parse
first_pass path debug_log [] = goes_on (first_pointers path debug_log)
first_pass path debug_log ((value ValueOption.config, arg) ∷ opts) =
    first_pass (some arg) debug_log opts
first_pass path debug_log ((flag FlagOption.debug, arg) ∷ opts) = first_pass path true opts
first_pass path debug_log ((flag FlagOption.help, arg) ∷ opts) =
    returns_one (first_pointers path debug_log)
first_pass path debug_log ((flag FlagOption.version, arg) ∷ opts) = exits
first_pass path debug_log ((c, arg) ∷ opts) = first_pass path debug_log opts

-- With NULL for the state and the line mode, `parse_options` keeps the last path of a configuration
-- file, raises the level of the log, and ends early only for help or version: no other option, not
-- even a scaling mode that does not exist, has any effect.
pub parse_options-first_pass :
    (files : Files) (opts : List (Code × List ℕ)) (path : Option (List ℕ)) (debug_log : Bool)
    → parse_options files opts (first_pointers path debug_log) ≡ first_pass path debug_log opts
unfolding parse_options first_pass
parse_options-first_pass files [] path d = refl
parse_options-first_pass files ((color c, arg) ∷ opts) path d =
    parse_options-first_pass files opts path d
parse_options-first_pass files ((value ValueOption.config, arg) ∷ opts) path d =
    parse_options-first_pass files opts (some arg) d
parse_options-first_pass files ((value ValueOption.image, arg) ∷ opts) path d =
    parse_options-first_pass files opts path d
parse_options-first_pass files ((value ValueOption.scaling, arg) ∷ opts) path d =
    parse_options-first_pass files opts path d
parse_options-first_pass files ((value ValueOption.font, arg) ∷ opts) path d =
    parse_options-first_pass files opts path d
parse_options-first_pass files ((value ValueOption.font_size, arg) ∷ opts) path d =
    parse_options-first_pass files opts path d
parse_options-first_pass files ((value ValueOption.ind_radius, arg) ∷ opts) path d =
    parse_options-first_pass files opts path d
parse_options-first_pass files ((value ValueOption.ind_thickness, arg) ∷ opts) path d =
    parse_options-first_pass files opts path d
parse_options-first_pass files ((value ValueOption.ind_x_position, arg) ∷ opts) path d =
    parse_options-first_pass files opts path d
parse_options-first_pass files ((value ValueOption.ind_y_position, arg) ∷ opts) path d =
    parse_options-first_pass files opts path d
parse_options-first_pass files ((flag FlagOption.debug, arg) ∷ opts) path d =
    parse_options-first_pass files opts path true
parse_options-first_pass files ((flag FlagOption.ignore_empty, arg) ∷ opts) path d =
    parse_options-first_pass files opts path d
parse_options-first_pass files ((flag FlagOption.show_failed_attempts, arg) ∷ opts) path d =
    parse_options-first_pass files opts path d
parse_options-first_pass files ((flag FlagOption.daemonize, arg) ∷ opts) path d =
    parse_options-first_pass files opts path d
parse_options-first_pass files ((flag FlagOption.help, arg) ∷ opts) path d = refl
parse_options-first_pass files ((flag FlagOption.show_keyboard_layout, arg) ∷ opts) path d =
    parse_options-first_pass files opts path d
parse_options-first_pass files ((flag FlagOption.hide_keyboard_layout, arg) ∷ opts) path d =
    parse_options-first_pass files opts path d
parse_options-first_pass files ((flag FlagOption.disable_caps_lock_text, arg) ∷ opts) path d =
    parse_options-first_pass files opts path d
parse_options-first_pass files ((flag FlagOption.indicator_caps_lock, arg) ∷ opts) path d =
    parse_options-first_pass files opts path d
parse_options-first_pass files ((flag FlagOption.line_uses_inside, arg) ∷ opts) path d =
    parse_options-first_pass files opts path d
parse_options-first_pass files ((flag FlagOption.line_uses_ring, arg) ∷ opts) path d =
    parse_options-first_pass files opts path d
parse_options-first_pass files ((flag FlagOption.tiling, arg) ∷ opts) path d =
    parse_options-first_pass files opts path d
parse_options-first_pass files ((flag FlagOption.no_unlock_indicator, arg) ∷ opts) path d =
    parse_options-first_pass files opts path d
parse_options-first_pass files ((flag FlagOption.version, arg) ∷ opts) path d = refl
parse_options-first_pass files ((flag FlagOption.ind_idle_visible, arg) ∷ opts) path d =
    parse_options-first_pass files opts path d
