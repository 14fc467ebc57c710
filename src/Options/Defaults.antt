-- ===== src/Options/Defaults.antt =====
-- The settings that `main` starts from, and its order: defaults, a first pass for the path of the
-- configuration file, the file, the command line, the mode of the lines. What lies outside is an
-- argument: `getopt_long`, the file system and the environment.
pub mod FirstPass
pub mod Order
use swaylock.Base.{
  ℕ, Bool, true, false, Option, none, some, List, [], ◌∷◌, ◌++◌, ◌==◌, if◌then◌else◌, codes,
}
use swaylock.Args.{Args, Colors, Colorset, BackgroundMode}
use swaylock.Image.{Files, text_eq}
use swaylock.Options.{Code}
use swaylock.Options.Apply.{
  LineMode, inside, ring, line, Target, Pointers, Parse, goes_on, returns_one, exits, parse_options,
}

unfoldable pub set_default_colors : Colors
set_default_colors = record {
  background = 0xFFFFFFFF;
  bs_highlight = 0xDB3300FF;
  key_highlight = 0x33DB00FF;
  caps_lock_bs_highlight = 0xDB3300FF;
  caps_lock_key_highlight = 0x33DB00FF;
  separator = 0x000000FF;
  layout_background = 0x000000C0;
  layout_border = 0x00000000;
  layout_text = 0xFFFFFFFF;
  inside = record {
    input = 0x000000C0;
    cleared = 0xE5A445C0;
    caps_lock = 0x000000C0;
    verifying = 0x0072FFC0;
    wrong = 0xFA0000C0;
  };
  line = record {
    input = 0x000000FF;
    cleared = 0x000000FF;
    caps_lock = 0x000000FF;
    verifying = 0x000000FF;
    wrong = 0x000000FF;
  };
  ring = record {
    input = 0x337D00FF;
    cleared = 0xE5A445FF;
    caps_lock = 0xE5A445FF;
    verifying = 0x3300FFFF;
    wrong = 0x7D3300FF;
  };
  text = record {
    input = 0xE5A445FF;
    cleared = 0x000000FF;
    caps_lock = 0xE5A445FF;
    verifying = 0x000000FF;
    wrong = 0x000000FF;
  };
}

unfoldable pub default_args : Args
unfolding set_default_colors
default_args = record {
  colors = set_default_colors;
  mode = BackgroundMode.fill;
  font = codes "sans-serif";
  font_size = 0;
  radius = 50;
  thickness = 10;
  indicator_x_position = 0;
  indicator_y_position = 0;
  override_indicator_x_position = false;
  override_indicator_y_position = false;
  ignore_empty = false;
  show_indicator = true;
  show_caps_lock_text = true;
  show_caps_lock_indicator = false;
  show_keyboard_layout = false;
  hide_keyboard_layout = false;
  show_failed_attempts = false;
  daemonize = false;
  indicator_idle_visible = false;
}

-- `getopt` gives the options of the words after the program's name; `wordexp` the first word of an
-- expansion; `read_lines` the lines of a file that can be opened.
pub record Outside : Type 0 where
  pub files : Files
  pub getopt : List (List ℕ) → List (Code × List ℕ)
  pub wordexp : List ℕ → Option (List ℕ)
  pub file_exists : List ℕ → Bool
  pub read_lines : List ℕ → Option (List (List ℕ))
  pub xdg_config_home : Option (List ℕ)
  pub sysconfdir : List ℕ

abbrev is_unset : Option (List ℕ) → Bool
is_unset none = true
is_unset (some []) = true
is_unset (some (b ∷ s)) = false

unfoldable pub config_paths : Outside → List (List ℕ)
config_paths out =
    codes "$HOME/.swaylock/config"
    ∷ (if is_unset out.xdg_config_home
        then codes "$HOME/.config/swaylock/config"
        else codes "$XDG_CONFIG_HOME/swaylock/config")
    ∷ (out.sysconfdir ++ codes "/swaylock/config")
    ∷ []

-- The loop of `get_config_path`.
unfoldable pub first_config : Outside → List (List ℕ) → Option (List ℕ)
first_config out [] = none
first_config out (path ∷ paths) =
    let rest = first_config out paths in
    elim (out.wordexp path) [
      | none ↦ rest
      | some word ↦ if out.file_exists word then some word else rest
    ]

unfoldable pub get_config_path : Outside → Option (List ℕ)
unfolding config_paths first_config
get_config_path out = first_config out (config_paths out)

-- A line without the newline at its end.
unfoldable pub strip_newline : List ℕ → List ℕ
strip_newline [] = []
strip_newline (b ∷ []) = if b == b'\n' then [] else b ∷ []
strip_newline (b ∷ c ∷ s) = b ∷ strip_newline (c ∷ s)

-- An empty line or a comment.
unfoldable pub is_skipped : List ℕ → Bool
is_skipped [] = true
is_skipped (b ∷ s) = b == b'#'

-- The options of a line: those of the word `--` and the line.
unfoldable pub line_options : Outside → List ℕ → List (Code × List ℕ)
line_options out text = out.getopt ((codes "--" ++ text) ∷ [])

-- The loop of `load_config` over the lines, where `malloc` succeeds. It stops at the first line that
-- is refused.
unfoldable pub load_lines : Outside → List (List ℕ) → Pointers → Parse
unfolding strip_newline is_skipped line_options
load_lines out [] p = goes_on p
load_lines out (l ∷ ls) p =
    let text = strip_newline l in
    if is_skipped text
    then load_lines out ls p
    else elim (parse_options out.files (line_options out text) p) [
      | goes_on p' ↦ load_lines out ls p'
      | returns_one p' ↦ returns_one p'
      | exits ↦ exits
    ]

-- `return 0` whatever came of the lines.
abbrev pub returns_zero : Parse → Parse
returns_zero (goes_on p) = goes_on p
returns_zero (returns_one p) = goes_on p
returns_zero exits = exits

unfoldable pub load_config : Outside → List ℕ → Pointers → Parse
unfolding load_lines
load_config out path p = elim (out.read_lines path) [
  | none ↦ goes_on p
  | some ls ↦ returns_zero (load_lines out ls p)
]

-- Options n and r: the lines take the colours of the inside or of the ring.
unfoldable pub apply_line_mode : LineMode → Colors → Colors
apply_line_mode line cs = cs
apply_line_mode inside cs = record cs { line = cs.inside }
apply_line_mode ring cs = record cs { line = cs.ring }

-- How this part of `main` ends: by leaving with a status, or with the settings.
pub data Outcome : Type 0 where
  leaves : ℕ → Outcome
  runs_with : Target → Outcome

-- The pointers of the first pass.
abbrev pub first_pointers : Option (List ℕ) → Bool → Pointers
first_pointers path debug_log = record {
  state = none;
  line_mode = none;
  config_path = some path;
  debug_log = debug_log;
}

-- The pointers of the later passes, on the defaults.
unfoldable pub main_pointers : Bool → Pointers
unfolding default_args
main_pointers debug_log = record {
  state = some (record { args = default_args; images = [] });
  line_mode = some line;
  config_path = none;
  debug_log = debug_log;
}

unfoldable pub with_line_mode : Option LineMode → Target → Target
unfolding apply_line_mode
with_line_mode none t = t
with_line_mode (some mode) t = record t {
  args = record t.args { colors = apply_line_mode mode t.args.colors };
}

-- The end of the last pass; the pointer to the state is set from `main_pointers` on.
unfoldable pub finish : Parse → Outcome
unfolding with_line_mode
finish (goes_on p) = elim p.state [
  | none ↦ leaves 1
  | some t ↦ runs_with (with_line_mode p.line_mode t)
]
finish (returns_one p) = leaves 1
finish exits = leaves 0

-- `if (argc > 1)`
unfoldable pub command_line : Outside → List (List ℕ) → Pointers → Parse
command_line out [] p = goes_on p
command_line out (w ∷ ws) p = parse_options out.files (out.getopt (w ∷ ws)) p

abbrev pub or_else : Option (List ℕ) → Option (List ℕ) → Option (List ℕ)
or_else none other = other
or_else (some path) other = some path

-- The file, if there is one, on the defaults.
unfoldable pub from_file : Outside → Option (List ℕ) → Pointers → Parse
unfolding load_config
from_file out none p = goes_on p
from_file out (some path) p = load_config out path p

-- After the first pass, with the path that it found.
unfoldable pub second_pass : Outside → List (List ℕ) → Option (List ℕ) → Bool → Outcome
unfolding from_file command_line finish main_pointers get_config_path
second_pass out words path debug_log =
    elim (from_file out (or_else path (get_config_path out)) (main_pointers debug_log)) [
      | goes_on p ↦ finish (command_line out words p)
      | returns_one p ↦ leaves 1
      | exits ↦ leaves 0
    ]

-- `main` from its first line to the resolution of the line mode; `words` are the arguments.
unfoldable pub configure : Outside → List (List ℕ) → Outcome
unfolding second_pass
configure out words =
    elim (parse_options out.files (out.getopt words) (first_pointers none false)) [
      | goes_on p ↦ elim p.config_path [
        | none ↦ leaves 1
        | some path ↦ second_pass out words path p.debug_log
      ]
      | returns_one p ↦ leaves 1
      | exits ↦ leaves 0
    ]
