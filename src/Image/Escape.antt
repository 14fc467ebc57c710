-- ===== src/Image/Escape.antt =====
-- The loop of `load_image` (main.c) that escapes spaces for the shell.
use swaylock.Base.{
  ℕ, zero, suc, ◌+◌, ◌≤◌, ◌<◌, ◌≡◌, refl, sym, ap, ◌∙◌, inl, inr, false, ◌&&◌, Option, none, some,
  List, [], ◌∷◌, arith, ◌==◌, if◌then◌else◌, Bool-cases, length,
}
use swaylock.Image.{escape_once, escape_spaces, push_byte}

-- The escaped path, byte by byte.
pub escaped : List ℕ → List ℕ
escaped [] = []
escaped (b ∷ []) = b ∷ []
escaped (b ∷ c ∷ s) =
    let rest = escaped (c ∷ s) in if b == b' ' && c == b' ' then b ∷ b'\\' ∷ rest else b ∷ rest

-- How many spaces another space follows: the rounds that the loop still has to make.
pub doubles : List ℕ → ℕ
doubles [] = 0
doubles (b ∷ []) = 0
doubles (b ∷ c ∷ s) =
    let rest = doubles (c ∷ s) in if b == b' ' && c == b' ' then suc rest else rest

doubles-lt : (b : ℕ) (s : List ℕ) → doubles (b ∷ s) ≤ length s
unfolding doubles
doubles-lt b [] = omega arith
doubles-lt b (c ∷ s) = ground (arith, doubles-lt c s)

-- What a round makes of a path: the same first byte, one double less, and the same escaped path.
abbrev Rounds : ℕ → List ℕ → Option (List ℕ) → Type 0
Rounds b s none = (doubles (b ∷ s) ≡ 0) × (escaped (b ∷ s) ≡ b ∷ s)
Rounds b s (some path) =
    (s' : List ℕ) × (path ≡ b ∷ s')
    × (suc (doubles (b ∷ s')) ≡ doubles (b ∷ s))
    × (escaped (b ∷ s') ≡ escaped (b ∷ s))

Rounds-cons :
    (b c : ℕ) (s : List ℕ) (r : Option (List ℕ))
    → (b == b' ' && c == b' ') ≡ false
    → Rounds c s r
    → Rounds b (c ∷ s) (push_byte b r)
unfolding doubles escaped
Rounds-cons b c s none e (d, q) = (rw e d, rw e (ap (λ t. b ∷ t) q))
Rounds-cons b c s (some path) e (s', p, d, q) =
    (c ∷ s', ap (λ t. b ∷ t) p, rw e d, rw e (ap (λ t. b ∷ t) q))

escape_once-Rounds : (b : ℕ) (s : List ℕ) → Rounds b s (escape_once (b ∷ s))
unfolding escape_once doubles escaped
escape_once-Rounds b [] = (refl, refl)
escape_once-Rounds b (c ∷ s) = elim (Bool-cases (b == b' ' && c == b' ')) [
  | inl e ↦ rw e (b'\\' ∷ c ∷ s, refl, ground arith, ground arith)
  | inr e ↦ rw e (Rounds-cons b c s (escape_once (c ∷ s)) e (escape_once-Rounds c s))
]

escape_spaces-enough :
    (fuel : ℕ) (path : List ℕ) → doubles path < fuel → escape_spaces fuel path ≡ some (escaped path)
unfolding escape_spaces
escape_spaces-enough zero path h = absurd (omega arith)
escape_spaces-enough (suc fuel) [] h = unfold escape_once escaped in refl
escape_spaces-enough (suc fuel) (b ∷ s) h =
    go (λ path. escape_spaces-enough fuel path) (escape_once (b ∷ s)) (escape_once-Rounds b s)
  where
    result : Option (List ℕ) → Option (List ℕ)
    result none = some (b ∷ s)
    result (some path) = escape_spaces fuel path

    go :
        ((path : List ℕ) → doubles path < fuel → escape_spaces fuel path ≡ some (escaped path))
        → (r : Option (List ℕ)) → Rounds b s r
        → result r ≡ some (escaped (b ∷ s))
    go ih none (_, q) = ap some (sym q)
    go ih (some path) (s', p, d, q) =
        ap (λ t. escape_spaces fuel t) p ∙ (ih (b ∷ s') (omega arith) ∙ ap some q)

escaped-head : (c : ℕ) (s : List ℕ) → (t : List ℕ) × (escaped (c ∷ s) ≡ c ∷ t)
unfolding escaped
escaped-head c [] = ([], refl)
escaped-head c (d ∷ s) = elim (Bool-cases (c == b' ' && d == b' ')) [
  | inl e ↦ (b'\\' ∷ escaped (d ∷ s), rw e refl)
  | inr e ↦ (escaped (d ∷ s), rw e refl)
]

doubles-escaped : (path : List ℕ) → doubles (escaped path) ≡ 0
unfolding doubles escaped
doubles-escaped [] = refl
doubles-escaped (b ∷ []) = refl
doubles-escaped (b ∷ c ∷ s) =
    let ih = doubles-escaped (c ∷ s) in
    let (t, q) = escaped-head c s in
    let ih' : doubles (c ∷ t) ≡ 0 = ap (λ k. doubles k) (sym q) ∙ ih in
    elim (Bool-cases (b == b' ' && c == b' ')) [
      | inl e ↦ rw e (ap (λ k. doubles (b ∷ b'\\' ∷ k)) q ∙ ground arith)
      | inr e ↦ rw e (ap (λ k. doubles (b ∷ k)) q ∙ rw e ih')
    ]

escape_spaces-escaped : (path : List ℕ) → escape_spaces (length path + 1) path ≡ some (escaped path)
unfolding doubles
escape_spaces-escaped [] = escape_spaces-enough 1 [] (omega arith)
escape_spaces-escaped (b ∷ s) =
    escape_spaces-enough (length (b ∷ s) + 1) (b ∷ s) (omega (arith, doubles-lt b s))

-- With as much fuel as the path has bytes and one more, the loop ends, whatever the path. Its
-- result has a backslash after every space that another space follows, and nothing else changed, so
-- that no two spaces stand together in it.
pub escape_spaces_lem :
    (path : List ℕ)
    → (escape_spaces (length path + 1) path ≡ some (escaped path)) × (doubles (escaped path) ≡ 0)
escape_spaces_lem path = (escape_spaces-escaped path, doubles-escaped path)
