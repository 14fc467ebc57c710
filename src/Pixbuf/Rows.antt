-- ===== src/Pixbuf/Rows.antt =====
-- The two loops of the conversion, for any way to write one pixel.
use swaylock.Base.{
  ℕ, zero, suc, ◌+◌, ◌*◌, ◌≤◌, ◌<◌, ◌≡◌, refl, ap, ◌∙◌, ◌⊎◌, inl, inr, List, arith, length, get_or,
}
use swaylock.Pixbuf.{convert_row, convert_rows}

-- A writer of pixels puts four bytes, each a function of the source and of the byte it replaces,
-- and leaves all others.
pub record WritesPixel (pixel : List ℕ → ℕ → List ℕ → ℕ → List ℕ) (value : List ℕ → ℕ → ℕ → ℕ → ℕ)
    : Type 0 where
  pub size :
      (src : List ℕ) (gp : ℕ) (dst : List ℕ) (cp : ℕ) → length (pixel src gp dst cp) ≡ length dst
  pub here :
      (src : List ℕ) (gp : ℕ) (dst : List ℕ) (cp k j : ℕ)
      → j ≡ cp + k
      → k < 4
      → cp + 4 ≤ length dst
      → get_or (pixel src gp dst cp) j 0 ≡ value src gp k (get_or dst j 0)
  pub elsewhere :
      (src : List ℕ) (gp : ℕ) (dst : List ℕ) (cp j : ℕ)
      → (j < cp) ⊎ (cp + 4 ≤ j)
      → get_or (pixel src gp dst cp) j 0 ≡ get_or dst j 0

module _ (step : ℕ) (pixel : List ℕ → ℕ → List ℕ → ℕ → List ℕ) (value : List ℕ → ℕ → ℕ → ℕ → ℕ)
    (laws : WritesPixel pixel value) where
  length-convert_row :
      (w : ℕ) (src : List ℕ) (gp : ℕ) (dst : List ℕ) (cp : ℕ)
      → length (convert_row step pixel w src gp dst cp) ≡ length dst
  unfolding convert_row
  length-convert_row zero src gp dst cp = refl
  length-convert_row (suc w) src gp dst cp =
      length-convert_row w src (gp + step) (pixel src gp dst cp) (cp + 4) ∙ laws.size src gp dst cp

  row-elsewhere :
      (w : ℕ) (src : List ℕ) (gp : ℕ) (dst : List ℕ) (cp j : ℕ)
      → (j < cp) ⊎ (cp + 4 * w ≤ j)
      → get_or (convert_row step pixel w src gp dst cp) j 0 ≡ get_or dst j 0
  unfolding convert_row
  row-elsewhere zero src gp dst cp j h = refl
  row-elsewhere (suc w) src gp dst cp j h =
      row-elsewhere w src (gp + step) (pixel src gp dst cp) (cp + 4) j (past h)
      ∙ laws.elsewhere src gp dst cp j (beside h)
    where
      past : (j < cp) ⊎ (cp + 4 * suc w ≤ j) → (j < cp + 4) ⊎ (cp + 4 + 4 * w ≤ j)
      past (inl l) = inl (omega arith)
      past (inr l) = inr (omega arith)

      beside : (j < cp) ⊎ (cp + 4 * suc w ≤ j) → (j < cp) ⊎ (cp + 4 ≤ j)
      beside (inl l) = inl l
      beside (inr l) = inr (omega arith)

  row-here :
      (w : ℕ) (src : List ℕ) (gp : ℕ) (dst : List ℕ) (cp x k j g : ℕ)
      → j ≡ cp + 4 * x + k
      → g ≡ gp + x * step
      → x < w
      → k < 4
      → cp + 4 * w ≤ length dst
      → get_or (convert_row step pixel w src gp dst cp) j 0 ≡ value src g k (get_or dst j 0)
  unfolding convert_row
  row-here zero src gp dst cp x k j g ej eg below small fits = absurd (omega arith)
  row-here (suc w) src gp dst cp zero k j g ej eg below small fits =
      let start : gp ≡ g = omega arith in
      row-elsewhere w src (gp + step) (pixel src gp dst cp) (cp + 4) j (inl (omega arith))
      ∙ (laws.here src gp dst cp k j (omega arith) small (omega arith)
          ∙ ap (λ t. value src t k (get_or dst j 0)) start)
  row-here (suc w) src gp dst cp (suc x) k j g ej eg below small fits =
      row-here w src (gp + step) (pixel src gp dst cp) (cp + 4) x k j g (omega arith) (omega arith)
        (omega arith) small (omega (arith, laws.size src gp dst cp))
      ∙ ap (λ t. value src g k t) (laws.elsewhere src gp dst cp j (inr (omega arith)))

  module _ (w stride cstride : ℕ) (wide : 4 * w ≤ cstride) where
    abbrev rows : ℕ → List ℕ → ℕ → List ℕ → ℕ → List ℕ
    rows h src gp dst cp = convert_rows step pixel w stride cstride h src gp dst cp

    pub length-convert_rows :
        (h : ℕ) (src : List ℕ) (gp : ℕ) (dst : List ℕ) (cp : ℕ)
        → length (rows h src gp dst cp) ≡ length dst
    unfolding convert_rows
    length-convert_rows zero src gp dst cp = refl
    length-convert_rows (suc h) src gp dst cp =
        length-convert_rows h src (gp + stride) (convert_row step pixel w src gp dst cp)
          (cp + cstride)
        ∙ length-convert_row w src gp dst cp

    -- Rows further down leave the memory before them.
    rows-before :
        (h : ℕ) (src : List ℕ) (gp : ℕ) (dst : List ℕ) (cp j : ℕ)
        → j < cp
        → get_or (rows h src gp dst cp) j 0 ≡ get_or dst j 0
    unfolding convert_rows
    rows-before zero src gp dst cp j h = refl
    rows-before (suc n) src gp dst cp j h =
        rows-before n src (gp + stride) (convert_row step pixel w src gp dst cp) (cp + cstride) j
          (omega arith)
        ∙ row-elsewhere w src gp dst cp j (inl h)

    -- What stands behind the pixels of a row stays.
    pub rows-padding :
        (h : ℕ) (src : List ℕ) (gp : ℕ) (dst : List ℕ) (cp y q j : ℕ)
        → j ≡ cp + y * cstride + q
        → 4 * w ≤ q
        → q < cstride
        → get_or (rows h src gp dst cp) j 0 ≡ get_or dst j 0
    unfolding convert_rows
    rows-padding zero src gp dst cp y q j e low high = refl
    rows-padding (suc h) src gp dst cp zero q j e low high =
        rows-before h src (gp + stride) (convert_row step pixel w src gp dst cp) (cp + cstride) j
          (omega arith)
        ∙ row-elsewhere w src gp dst cp j (inr (omega arith))
    rows-padding (suc h) src gp dst cp (suc y) q j e low high =
        rows-padding h src (gp + stride) (convert_row step pixel w src gp dst cp) (cp + cstride) y q
          j (omega arith) low high
        ∙ row-elsewhere w src gp dst cp j (inr (omega arith))

    pub rows-here :
        (h : ℕ) (src : List ℕ) (gp : ℕ) (dst : List ℕ) (cp x y k j g : ℕ)
        → j ≡ cp + y * cstride + 4 * x + k
        → g ≡ gp + y * stride + x * step
        → x < w
        → y < h
        → k < 4
        → cp + h * cstride ≤ length dst
        → get_or (rows h src gp dst cp) j 0 ≡ value src g k (get_or dst j 0)
    unfolding convert_rows
    rows-here zero src gp dst cp x y k j g ej eg bx by small fits = absurd (omega arith)
    rows-here (suc h) src gp dst cp x zero k j g ej eg bx by small fits =
        rows-before h src (gp + stride) (convert_row step pixel w src gp dst cp) (cp + cstride) j
          (omega arith)
        ∙ row-here w src gp dst cp x k j g (omega arith) (omega arith) bx small (omega arith)
    rows-here (suc h) src gp dst cp x (suc y) k j g ej eg bx by small fits =
        rows-here h src (gp + stride) (convert_row step pixel w src gp dst cp) (cp + cstride) x y k
          j g (omega arith) (omega arith) bx (omega arith) small
          (omega (arith, length-convert_row w src gp dst cp))
        ∙ ap (λ t. value src g k t) (row-elsewhere w src gp dst cp j (inr (omega arith)))
