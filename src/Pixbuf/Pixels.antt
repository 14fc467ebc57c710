-- ===== src/Pixbuf/Pixels.antt =====
-- What one pixel of three or four channels puts into memory, byte by byte.
use swaylock.Base.{
  ℕ, ◌+◌, ◌-◌, ◌≤◌, ◌<◌, ◌≡◌, refl, ap, ◌∙◌, ◌≢◌, ◌⊎◌, inl, inr, Bool, true, false, List, [], ◌∷◌,
  arith, ◌==◌, if◌then◌else◌, length, get_or, All, length-set, get_or-set_ne, get_or-set,
}
use swaylock.Pixbuf.{load, store, rgb_pixel, rgba_pixel, premul_alpha}
use swaylock.Pixbuf.Rows.{WritesPixel}

-- The bytes of a native word from the lowest to the highest.
abbrev pub place : Bool → ℕ → ℕ
place true k = k
place false k = 3 - k

-- By significance: blue, green, red, and the byte that RGB24 leaves.
abbrev pub rgb_value : List ℕ → ℕ → ℕ → ℕ → ℕ
rgb_value src g k old =
    if k == 0
    then load src g 2
    else if k == 1
    then load src g 1
    else if k == 2
    then load src g 0
    else old

abbrev pub rgba_value : List ℕ → ℕ → ℕ → ℕ → ℕ
rgba_value src g k old =
    let alpha = load src g 3 in
    if k == 0
    then premul_alpha (load src g 2) alpha
    else if k == 1
    then premul_alpha (load src g 1) alpha
    else if k == 2
    then premul_alpha (load src g 0) alpha
    else alpha

-- The stores of one pixel, each a place in the pixel and a function of the source.
abbrev Stores : Type 0
Stores = List (ℕ × (List ℕ → ℕ → ℕ))

abbrev stores : Stores → List ℕ → ℕ → List ℕ → ℕ → List ℕ
stores [] src gp m cp = m
stores ((k, v) ∷ ss) src gp m cp = stores ss src gp (store m cp k (v src gp)) cp

-- The byte at a place after the stores: the last store there, or what was there.
abbrev stored : Stores → List ℕ → ℕ → ℕ → ℕ → ℕ
stored [] src gp i old = old
stored ((k, v) ∷ ss) src gp i old = stored ss src gp i (if k == i then v src gp else old)

abbrev IsInside : ℕ × (List ℕ → ℕ → ℕ) → Type 0
IsInside (k, v) = k < 4

length-stores :
    (ss : Stores) (src : List ℕ) (gp : ℕ) (m : List ℕ) (cp : ℕ)
    → length (stores ss src gp m cp) ≡ length m
length-stores [] src gp m cp = refl
length-stores ((k, v) ∷ ss) src gp m cp =
    length-stores ss src gp (store m cp k (v src gp)) cp ∙ length-set m (cp + k) (v src gp)

stores-here :
    (ss : Stores) (src : List ℕ) (gp : ℕ) (m : List ℕ) (cp i j : ℕ)
    → All IsInside ss
    → j ≡ cp + i
    → cp + 4 ≤ length m
    → get_or (stores ss src gp m cp) j 0 ≡ stored ss src gp i (get_or m j 0)
stores-here [] src gp m cp i j h e fits = refl
stores-here ((k, v) ∷ ss) src gp m cp i j (small, h) e fits =
    let same : get_or (store m cp k (v src gp)) j 0 ≡ (if k == i then v src gp else get_or m j 0) =
      get_or-set m (cp + k) j (v src gp) 0 (omega arith) ∙ ground arith in
    stores-here ss src gp (store m cp k (v src gp)) cp i j h e
      (omega (arith, length-set m (cp + k) (v src gp)))
    ∙ ap (λ t. stored ss src gp i t) same

apart : (cp k j : ℕ) → k < 4 → (j < cp) ⊎ (cp + 4 ≤ j) → cp + k ≢ j
apart cp k j small (inl h) e = omega arith
apart cp k j small (inr h) e = omega arith

stores-elsewhere :
    (ss : Stores) (src : List ℕ) (gp : ℕ) (m : List ℕ) (cp j : ℕ)
    → All IsInside ss
    → (j < cp) ⊎ (cp + 4 ≤ j)
    → get_or (stores ss src gp m cp) j 0 ≡ get_or m j 0
stores-elsewhere [] src gp m cp j h out = refl
stores-elsewhere ((k, v) ∷ ss) src gp m cp j (small, h) out =
    stores-elsewhere ss src gp (store m cp k (v src gp)) cp j h out
    ∙ get_or-set_ne m (cp + k) j (v src gp) 0 (apart cp k j small out)

stores-WritesPixel :
    (ss : Stores) (value : List ℕ → ℕ → ℕ → ℕ → ℕ)
    → All IsInside ss
    → ((src : List ℕ) (gp k old : ℕ) → k < 4 → stored ss src gp k old ≡ value src gp k old)
    → WritesPixel (stores ss) value
stores-WritesPixel ss value inside same = record {
  size = length-stores ss;
  here = λ src gp m cp k j e small fits.
      stores-here ss src gp m cp k j inside e fits ∙ same src gp k (get_or m j 0) small;
  elsewhere = λ src gp m cp j. stores-elsewhere ss src gp m cp j inside;
}

abbrev rgb_stores : Bool → Stores
rgb_stores true =
    (0, λ src gp. load src gp 2) ∷ (1, λ src gp. load src gp 1) ∷ (2, λ src gp. load src gp 0) ∷ []
rgb_stores false =
    (1, λ src gp. load src gp 0) ∷ (2, λ src gp. load src gp 1) ∷ (3, λ src gp. load src gp 2) ∷ []

abbrev times_alpha : ℕ → List ℕ → ℕ → ℕ
times_alpha channel src gp = premul_alpha (load src gp channel) (load src gp 3)

abbrev rgba_stores : Bool → Stores
rgba_stores true =
    (0, times_alpha 2) ∷ (1, times_alpha 1) ∷ (2, times_alpha 0) ∷ (3, λ src gp. load src gp 3) ∷ []
rgba_stores false =
    (1, times_alpha 0) ∷ (2, times_alpha 1) ∷ (3, times_alpha 2) ∷ (0, λ src gp. load src gp 3) ∷ []

pub rgb_pixel-WritesPixel :
    (little : Bool)
    → WritesPixel (rgb_pixel little) (λ src gp k old. rgb_value src gp (place little k) old)
unfolding rgb_pixel
rgb_pixel-WritesPixel true =
    stores-WritesPixel (rgb_stores true) rgb_value (omega arith, (omega arith, (omega arith, tt)))
      (λ src gp k old small. ground arith)
rgb_pixel-WritesPixel false =
    stores-WritesPixel (rgb_stores false) (λ src gp k old. rgb_value src gp (3 - k) old)
      (omega arith, (omega arith, (omega arith, tt))) (λ src gp k old small. ground arith)

pub rgba_pixel-WritesPixel :
    (little : Bool)
    → WritesPixel (rgba_pixel little) (λ src gp k old. rgba_value src gp (place little k) old)
unfolding rgba_pixel
rgba_pixel-WritesPixel true =
    stores-WritesPixel (rgba_stores true) rgba_value
      (omega arith, (omega arith, (omega arith, (omega arith, tt))))
      (λ src gp k old small. ground arith)
rgba_pixel-WritesPixel false =
    stores-WritesPixel (rgba_stores false) (λ src gp k old. rgba_value src gp (3 - k) old)
      (omega arith, (omega arith, (omega arith, (omega arith, tt))))
      (λ src gp k old small. ground arith)
