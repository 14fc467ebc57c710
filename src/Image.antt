-- ===== src/Image.antt =====
-- The background images (main.c): `-i [[<output>]:]<path>`, and the choice of an image for an
-- output. A C string is the list of its bytes before the terminating zero. Shell expansion and the
-- loading of a file are arguments.
pub mod Escape
pub mod Names
use swaylock.Base.{
  ℕ, zero, suc, ◌+◌, Bool, true, false, ◌&&◌, Option, none, some, List, [], ◌∷◌, ◌++◌, ◌==◌,
  if◌then◌else◌, length, without_last,
}

pub record Image : Type 0 where
  pub path : List ℕ
  pub output_name : Option (List ℕ)
  pub cairo_surface : ℕ

-- `strcmp(a, b) == 0`
unfoldable pub text_eq : List ℕ → List ℕ → Bool
text_eq [] [] = true
text_eq [] (c ∷ t) = false
text_eq (b ∷ s) [] = false
text_eq (b ∷ s) (c ∷ t) = b == c && text_eq s t

-- `lenient_strcmp(a, b) == 0`; `none` is a NULL string.
unfoldable pub lenient_eq : Option (List ℕ) → Option (List ℕ) → Bool
unfolding text_eq
lenient_eq none none = true
lenient_eq none (some t) = false
lenient_eq (some s) none = false
lenient_eq (some s) (some t) = text_eq s t

-- `if (!image->output_name)`: the image is the default so far.
abbrev pub default_of : Option (List ℕ) → ℕ → Option ℕ → Option ℕ
default_of none surface default_image = some surface
default_of (some name) surface default_image = default_image

-- The loop of `select_image`, with the default image found so far.
unfoldable pub select_from : List Image → Option (List ℕ) → Option ℕ → Option ℕ
select_from [] name default_image = default_image
select_from (image ∷ images) name default_image =
    let rest =
      select_from images name (default_of image.output_name image.cairo_surface default_image) in
    if lenient_eq image.output_name name then some image.cairo_surface else rest

unfoldable pub select_image : List Image → Option (List ℕ) → Option ℕ
unfolding select_from
select_image images name = select_from images name none

abbrev push_before : ℕ → Option (List ℕ × List ℕ) → Option (List ℕ × List ℕ)
push_before b none = none
push_before b (some (before, after)) = some (b ∷ before, after)

abbrev push_byte : ℕ → Option (List ℕ) → Option (List ℕ)
push_byte b none = none
push_byte b (some s) = some (b ∷ s)

-- `strchr(arg, ':')`: what stands before the colon and after it.
unfoldable pub split_colon : List ℕ → Option (List ℕ × List ℕ)
split_colon [] = none
split_colon (b ∷ s) =
    let rest = push_before b (split_colon s) in if b == b':' then some ([], s) else rest

-- The output name and the path of an argument. An empty name is no name.
unfoldable pub parse_image : List ℕ → Option (List ℕ) × List ℕ
unfolding split_colon
parse_image arg = elim (split_colon arg) [
  | none ↦ (none, arg)
  | some ([], path) ↦ (none, path)
  | some (b ∷ name, path) ↦ (some (b ∷ name), path)
]

-- The loop of `load_image` that takes out the first image of the same name.
unfoldable pub replace_image : Option (List ℕ) → List Image → List Image
replace_image name [] = []
replace_image name (image ∷ images) =
    let rest = replace_image name images in
    if lenient_eq image.output_name name then images else image ∷ rest

-- One round of the loop over `strstr(path, "  ")`: a backslash between the first two spaces that
-- stand together; `none` if there are none.
unfoldable pub escape_once : List ℕ → Option (List ℕ)
escape_once [] = none
escape_once (b ∷ []) = none
escape_once (b ∷ c ∷ s) =
    let rest = push_byte b (escape_once (c ∷ s)) in
    if b == b' ' && c == b' ' then some (b ∷ b'\\' ∷ c ∷ s) else rest

-- The loop, with fuel: it goes on until no two spaces stand together.
unfoldable pub escape_spaces : ℕ → List ℕ → Option (List ℕ)
unfolding escape_once
escape_spaces zero path = none
escape_spaces (suc fuel) path = elim (escape_once path) [
  | none ↦ some path
  | some path' ↦ escape_spaces fuel path'
]

-- `join_args`: every word with a space after it, and the terminator over the last space.
unfoldable pub words_spaced : List (List ℕ) → List ℕ
words_spaced [] = []
words_spaced (w ∷ ws) = w ++ b' ' ∷ words_spaced ws

-- `none` is the failed assertion, `argc > 0`.
unfoldable pub join_args : List (List ℕ) → Option (List ℕ)
unfolding words_spaced
join_args [] = none
join_args (w ∷ ws) = some (without_last (words_spaced (w ∷ ws)))

-- What lies outside: the shell's expansion of a path into words, which may fail, and the loading of
-- an image file.
pub record Files : Type 0 where
  pub wordexp : List ℕ → Option (List (List ℕ))
  pub load_background_image : List ℕ → Option ℕ

-- The path after escaping and expansion; `none` where the program aborts in `join_args`.
unfoldable pub expand_path : Files → List ℕ → Option (List ℕ)
unfolding escape_spaces join_args
expand_path files path = elim (escape_spaces (length path + 1) path) [
  | none ↦ none
  | some escaped ↦ elim (files.wordexp escaped) [
    | none ↦ some escaped
    | some words ↦ join_args words
  ]
]

-- A new image goes to the head of the list, if its file can be loaded. After an abort there is none.
unfoldable pub add_image : Files → Option (List ℕ) → Option (List ℕ) → List Image → List Image
add_image files name none images = images
add_image files name (some path) images = elim (files.load_background_image path) [
  | none ↦ images
  | some surface ↦ record { path = path; output_name = name; cairo_surface = surface } ∷ images
]

-- The images after `load_image`.
unfoldable pub load_image : Files → List ℕ → List Image → List Image
unfolding parse_image replace_image expand_path add_image
load_image files arg images =
    let (name, path) = parse_image arg in
    add_image files name (expand_path files path) (replace_image name images)
