-- ===== src/Options/Tables.antt =====
-- The option tables against what the options do with their argument (main.c, `parse_options`).
use swaylock.Base.{
  ℕ, ◌≡◌, refl, inl, inr, Bool, true, false, List, [], ◌∷◌, if◌then◌else◌, Bool-cases, All,
}
use swaylock.Image.{Files}
use swaylock.Options.{Code, color, value, flag, long_options, short_options}
use swaylock.Options.Apply.{Pointers, apply_option}

-- An option of the code may go without an argument only if it makes nothing of one.
abbrev pub IsFed : Bool → Code → Type 0
IsFed required c =
    required ≡ false
    → (files : Files) (arg arg' : List ℕ) (p : Pointers)
    → apply_option files c arg p ≡ apply_option files c arg' p

-- The codes whose branches read `optarg` are those that require an argument.
feeds : Bool → Code → Bool
feeds required (color c) = required
feeds required (value v) = required
feeds required (flag f) = true

feeds-IsFed : (required : Bool) (c : Code) → feeds required c ≡ true → IsFed required c
unfolding feeds apply_option
feeds-IsFed required (color c) e h = cc
feeds-IsFed required (value v) e h = cc
feeds-IsFed required (flag f) e h = λ files arg arg' p. refl

every : {A : Type 0} → (A → Bool) → List A → Bool
every test [] = true
every test (x ∷ xs) = let rest = every test xs in if test x then rest else false

-- A test that a whole table passes, and what it shows of a row.
every-All :
    {A : Type 0} (test : A → Bool) (P : A → Type 0)
    → ((x : A) → test x ≡ true → P x)
    → (xs : List A) → every test xs ≡ true
    → All P xs
unfolding every
every-All test P f [] h = tt
every-All test P f (x ∷ xs) h = elim (Bool-cases (test x)) [
  | inl e ↦ (f x e, every-All test P f xs (rw e at h))
  | inr e ↦ absurd (differ (rw e at h))
]
  where
    differ : false ≡ true → ⊥
    differ q = cc

long_feeds : every (λ o. feeds o.required o.code) long_options ≡ true
unfolding every feeds long_options
long_feeds = refl

short_feeds : every (λ (row : ℕ × Bool × Code). feeds row.1 row.2) short_options ≡ true
unfolding every feeds short_options
short_feeds = refl

-- In both tables, every option that takes no argument does the same whatever `optarg` holds: no
-- branch of the `switch` reads a NULL `optarg`.
pub long_options-short_options :
    All (λ o. IsFed o.required o.code) long_options
    × All (λ (row : ℕ × Bool × Code). IsFed row.1 row.2) short_options
long_options-short_options = (
  every-All (λ o. feeds o.required o.code) (λ o. IsFed o.required o.code)
      (λ o e. feeds-IsFed o.required o.code e) long_options long_feeds,
  every-All (λ row. feeds row.1 row.2) (λ row. IsFed row.1 row.2)
      (λ row e. feeds-IsFed row.1 row.2 e) short_options short_feeds,
)
