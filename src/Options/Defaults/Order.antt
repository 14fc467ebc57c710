-- ===== src/Options/Defaults/Order.antt =====
-- The configuration file and the command line (main.c, `load_config` and `main`).
use swaylock.Base.{
  ℕ, ◌≡◌, refl, sym, ap, ◌∙◌, inl, inr, Bool, Option, none, some, List, [], ◌∷◌, ◌++◌,
  if◌then◌else◌, Bool-cases,
}
use swaylock.Image.{Files}
use swaylock.Options.{Code}
use swaylock.Options.Apply.{
  Pointers, Parse, goes_on, returns_one, exits, apply_option, parse_options,
}
use swaylock.Options.Defaults.{
  Outside, returns_zero, strip_newline, is_skipped, line_options, load_lines, load_config,
  from_file, or_else, get_config_path, command_line, main_pointers, second_pass, finish, Outcome,
  leaves,
}

-- Going on with a parse by further options.
abbrev pub then_parse : Files → List (Code × List ℕ) → Parse → Parse
then_parse files opts (goes_on p) = parse_options files opts p
then_parse files opts (returns_one p) = returns_one p
then_parse files opts exits = exits

pub parse_options-append :
    (files : Files) (xs ys : List (Code × List ℕ)) (p : Pointers)
    → parse_options files (xs ++ ys) p ≡ then_parse files ys (parse_options files xs p)
unfolding parse_options
parse_options-append files [] ys p = refl
parse_options-append files ((c, arg) ∷ xs) ys p =
    go (λ p'. parse_options-append files xs ys p') (apply_option files c arg p)
  where
    both : List (Code × List ℕ) → Parse → Parse
    both opts (goes_on p') = parse_options files opts p'
    both opts (returns_one p') = returns_one p'
    both opts exits = exits

    go :
        ((p' : Pointers)
          → parse_options files (xs ++ ys) p' ≡ then_parse files ys (parse_options files xs p'))
        → (r : Parse) → both (xs ++ ys) r ≡ then_parse files ys (both xs r)
    go ih (goes_on p') = ih p'
    go ih (returns_one p') = refl
    go ih exits = refl

-- The options of a file, in order: those of every line that is neither empty nor a comment.
unfoldable pub file_options : Outside → List (List ℕ) → List (Code × List ℕ)
file_options out [] = []
file_options out (l ∷ ls) =
    let rest = file_options out ls in
    if is_skipped (strip_newline l) then rest else line_options out (strip_newline l) ++ rest

-- Loading the lines of a file one by one is one parse of all their options.
pub load_lines-parse_options :
    (out : Outside) (ls : List (List ℕ)) (p : Pointers)
    → load_lines out ls p ≡ parse_options out.files (file_options out ls) p
unfolding load_lines file_options parse_options
load_lines-parse_options out [] p = refl
load_lines-parse_options out (l ∷ ls) p = elim (Bool-cases (is_skipped (strip_newline l))) [
  | inl e ↦ rw e (load_lines-parse_options out ls p)
  | inr e ↦ rw e (
      go (λ p'. load_lines-parse_options out ls p')
        (parse_options out.files (line_options out (strip_newline l)) p)
      ∙ sym (
          parse_options-append out.files (line_options out (strip_newline l)) (file_options out ls)
            p))
]
  where
    on : Parse → Parse
    on (goes_on p') = load_lines out ls p'
    on (returns_one p') = returns_one p'
    on exits = exits

    go :
        ((p' : Pointers) → load_lines out ls p' ≡ parse_options out.files (file_options out ls) p')
        → (r : Parse) → on r ≡ then_parse out.files (file_options out ls) r
    go ih (goes_on p') = ih p'
    go ih (returns_one p') = refl
    go ih exits = refl

-- The lines of the configuration file that is chosen; none if there is no file or it does not open.
unfoldable pub chosen_lines : Outside → Option (List ℕ) → List (List ℕ)
chosen_lines out none = []
chosen_lines out (some path) = elim (out.read_lines path) [ none ↦ [] | some ls ↦ ls ]

from_file-load_lines :
    (out : Outside) (path : Option (List ℕ)) (p q : Pointers)
    → load_lines out (chosen_lines out path) p ≡ goes_on q
    → from_file out path p ≡ goes_on q
unfolding from_file load_config chosen_lines load_lines
from_file-load_lines out none p q h = h
from_file-load_lines out (some path) p q h = go (out.read_lines path) h
  where
    lines : Option (List (List ℕ)) → List (List ℕ)
    lines none = []
    lines (some ls) = ls

    result : Option (List (List ℕ)) → Parse
    result none = goes_on p
    result (some ls) = returns_zero (load_lines out ls p)

    go :
        (r : Option (List (List ℕ))) → load_lines out (lines r) p ≡ goes_on q → result r ≡ goes_on q
    go none h = h
    go (some ls) h = ap returns_zero h

command_line-parse_options :
    (out : Outside) (words : List (List ℕ)) (p : Pointers)
    → out.getopt [] ≡ []
    → command_line out words p ≡ parse_options out.files (out.getopt words) p
unfolding command_line parse_options
command_line-parse_options out [] p h = sym (ap (λ opts. parse_options out.files opts p) h)
command_line-parse_options out (w ∷ ws) p h = refl

-- If `getopt_long` finds no option in no words, and every line of the chosen file is accepted, then
-- the settings are those of a single parse, on the defaults, of the file's options followed by those
-- of the command line, which therefore override the file; without a file they are those of the
-- command line alone.
pub second_pass-parse_options :
    (out : Outside) (words : List (List ℕ)) (path : Option (List ℕ)) (debug_log : Bool)
    (q : Pointers)
    → out.getopt [] ≡ []
    → let ls = chosen_lines out (or_else path (get_config_path out)) in
      load_lines out ls (main_pointers debug_log) ≡ goes_on q
      → second_pass out words path debug_log
        ≡ finish (
            parse_options out.files
              (file_options out ls ++ out.getopt words)
              (main_pointers debug_log))
unfolding second_pass
second_pass-parse_options out words path d q h accepted =
    let ls = chosen_lines out (or_else path (get_config_path out)) in
    let file =
      from_file-load_lines out (or_else path (get_config_path out)) (main_pointers d) q accepted in
    let whole : parse_options out.files (file_options out ls) (main_pointers d) ≡ goes_on q =
      sym (load_lines-parse_options out ls (main_pointers d)) ∙ accepted in
    let one : parse_options out.files (file_options out ls ++ out.getopt words) (main_pointers d)
        ≡ parse_options out.files (out.getopt words) q =
      parse_options-append out.files (file_options out ls) (out.getopt words) (main_pointers d)
      ∙ ap (λ r. then_parse out.files (out.getopt words) r) whole in
    ap (λ r. result r) file
    ∙ ap (λ r. finish r) (command_line-parse_options out words q h ∙ sym one)
  where
    result : Parse → Outcome
    result (goes_on p) = finish (command_line out words p)
    result (returns_one p) = leaves 1
    result exits = leaves 0
