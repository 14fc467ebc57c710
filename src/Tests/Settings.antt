-- ===== src/Tests/Settings.antt =====
-- Examples for colours, options and the configuration.
use swaylock.Base.{ℕ, ◌≡◌, refl, true, false, none, some, List, [], ◌∷◌, ◌++◌}
use swaylock.Image.{Files, Image, load_image, select_image, parse_image, expand_path, lenient_eq}
use swaylock.Image.Names.{select_image-load_image}
use swaylock.Options.{Code, value, flag, ValueOption, FlagOption}
use swaylock.Options.Apply.{Pointers, goes_on, parse_options}
use swaylock.Options.Defaults.{
  Outside, first_pointers, load_lines, default_args, main_pointers, second_pass, finish,
  get_config_path, or_else,
}
use swaylock.Options.Defaults.FirstPass.{first_pass, parse_options-first_pass}
use swaylock.Options.Defaults.Order.{chosen_lines, file_options, second_pass-parse_options}

abbrev no_files : Files
no_files = record { wordexp = λ path. none; load_background_image = λ path. none }

abbrev given : List (Code × List ℕ)
given = (value ValueOption.scaling, b'x' ∷ []) ∷ (value ValueOption.config, b'f' ∷ []) ∷ []

parse_options-first_pass_example :
    parse_options no_files given (first_pointers none false) ≡ first_pass none false given
parse_options-first_pass_example = parse_options-first_pass no_files given none false

-- Every word is the option to ignore an empty password.
abbrev options_of : List (List ℕ) → List (Code × List ℕ)
options_of [] = []
options_of (w ∷ ws) = (flag FlagOption.ignore_empty, []) ∷ options_of ws

abbrev outside : Outside
outside = record {
  files = no_files;
  getopt = options_of;
  wordexp = λ path. none;
  file_exists = λ path. false;
  read_lines = λ path. some ((b'#' ∷ []) ∷ (b'i' ∷ b'\n' ∷ []) ∷ []);
  xdg_config_home = none;
  sysconfdir = b'/' ∷ [];
}

abbrev loaded : Pointers
loaded = record (main_pointers false) {
  state = some (record { args = record default_args { ignore_empty = true }; images = [] });
}

loaded-accepted :
    load_lines outside
      (chosen_lines outside (or_else (some (b'f' ∷ [])) (get_config_path outside)))
      (main_pointers false)
    ≡ goes_on loaded
unfolding load_lines chosen_lines main_pointers default_args parse_options
loaded-accepted = refl

second_pass-parse_options_example :
    second_pass outside ((b'e' ∷ []) ∷ []) (some (b'f' ∷ [])) false
    ≡ finish (
        parse_options outside.files
          (file_options outside
              (chosen_lines outside (or_else (some (b'f' ∷ [])) (get_config_path outside)))
            ++ options_of ((b'e' ∷ []) ∷ []))
          (main_pointers false))
second_pass-parse_options_example =
    second_pass-parse_options outside ((b'e' ∷ []) ∷ []) (some (b'f' ∷ [])) false loaded refl
      loaded-accepted

abbrev picture_files : Files
picture_files = record { wordexp = λ path. none; load_background_image = λ path. some 9 }

abbrev pictures : List Image
pictures = record { path = b'q' ∷ []; output_name = none; cairo_surface = 5 } ∷ []

-- Image 5 for every output; then the option `a:p`.
select_image-load_image_example :
    let images' = load_image picture_files (b'a' ∷ b':' ∷ b'p' ∷ []) pictures in
    (select_image images' (some (b'a' ∷ [])) ≡ some 9)
    × (select_image images' (some (b'b' ∷ [])) ≡ select_image pictures (some (b'b' ∷ [])))
unfolding parse_image expand_path lenient_eq
select_image-load_image_example =
    select_image-load_image picture_files (b'a' ∷ b':' ∷ b'p' ∷ []) (b'a' ∷ []) (b'p' ∷ [])
      (b'p' ∷ []) 9 pictures (some (b'b' ∷ [])) refl refl refl refl
