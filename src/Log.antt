-- ===== src/Log.antt =====
-- The log (log.c). The text that `vfprintf` and `strftime` make is an argument, and so is whether the
-- error stream is a terminal.
use swaylock.Base.{
  ℕ, ◌-◌, ◌<◌, ◌≡◌, refl, ap, inl, inr, Bool, ◌||◌, List, [], ◌∷◌, ◌++◌, arith, ltb, ◌==◌,
  if◌then◌else◌, Bool-cases,
}

-- LOG_SILENT, LOG_ERROR, LOG_INFO, LOG_DEBUG; their number is LOG_IMPORTANCE_LAST.
abbrev pub importance_last : ℕ
importance_last = 4

-- The importance after the call.
unfoldable pub swaylock_log_init : ℕ → ℕ → ℕ
swaylock_log_init log_importance verbosity =
    if ltb verbosity importance_last then verbosity else log_importance

-- "\x1B[1;31m" and the like.
abbrev bold : ℕ → List ℕ
bold digit = 0x1B ∷ b'[' ∷ b'1' ∷ b';' ∷ b'3' ∷ digit ∷ b'm' ∷ []

unfoldable pub verbosity_colors : ℕ → List ℕ
verbosity_colors c =
    if c == 0 then [] else if c == 1 then bold b'1' else if c == 2 then bold b'4' else bold b'0'

abbrev pub reset_color : List ℕ
reset_color = 0x1B ∷ b'[' ∷ b'0' ∷ b'm' ∷ []

-- What goes to the error stream.
unfoldable pub swaylock_log : ℕ → Bool → List ℕ → ℕ → List ℕ → List ℕ
unfolding verbosity_colors
swaylock_log log_importance isatty time verbosity text =
    if ltb log_importance verbosity
    then []
    else (let c = if ltb verbosity importance_last then verbosity else importance_last - 1 in
        let color = if isatty then verbosity_colors c else [] in
        let reset = if isatty then reset_color else [] in
        time ++ (color ++ (text ++ (reset ++ 0x0A ∷ []))))

-- The loop of `_swaylock_strip_path`.
unfoldable pub skip_dots : List ℕ → List ℕ
skip_dots [] = []
skip_dots (b ∷ s) = let rest = skip_dots s in if b == b'.' || b == b'/' then rest else b ∷ s

unfoldable pub swaylock_strip_path : List ℕ → List ℕ
unfolding skip_dots
swaylock_strip_path [] = []
swaylock_strip_path (b ∷ s) = let rest = skip_dots (b ∷ s) in if b == b'.' then rest else b ∷ s

-- The importance after several calls of `swaylock_log_init`.
abbrev after_inits : ℕ → List ℕ → ℕ
after_inits log_importance [] = log_importance
after_inits log_importance (v ∷ vs) = after_inits (swaylock_log_init log_importance v) vs

-- It stays in range, whatever is asked for.
swaylock_log_init-bounded :
    (log_importance : ℕ) (vs : List ℕ)
    → log_importance < importance_last
    → after_inits log_importance vs < importance_last
unfolding swaylock_log_init
swaylock_log_init-bounded log_importance [] h = h
swaylock_log_init-bounded log_importance (v ∷ vs) h =
    swaylock_log_init-bounded (swaylock_log_init log_importance v) vs (ground arith)

-- What is skipped stands at the start of the path.
skip_dots-end : (s : List ℕ) → (before : List ℕ) × (before ++ skip_dots s ≡ s)
unfolding skip_dots
skip_dots-end [] = ([], refl)
skip_dots-end (b ∷ s) = elim (Bool-cases (b == b'.' || b == b'/')) [
  | inl e ↦ let (before, same) = skip_dots-end s in (b ∷ before, rw e (ap (λ t. b ∷ t) same))
  | inr e ↦ ([], rw e refl)
]
