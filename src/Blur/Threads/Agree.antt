-- ===== src/Blur/Threads/Agree.antt =====
-- The passes of the threads in one direction keep every thread's lines as they are without threads.
use swaylock.Base.{
  ℕ, suc, ◌-◌, ◌%◌, ◌≤◌, ◌<◌, ◌≡◌, refl, sym, ap, ◌∙◌, subst, ◌≢◌, ◌⊎◌, inl, inr, arith, dec_lt,
  ℕ_discrete, ◌==◌, if◌then◌else◌, Bool-cases, length,
}
use swaylock.Blur.{Pass, blur_lines}
use swaylock.Blur.Lines.{IsLaidOut, length-blur_lines}
use swaylock.Blur.Threads.{Images, update, piece_start, piece_end}
use swaylock.Blur.Threads.Pieces.{pieces_apart, start-le_end, piece_end-le}
use swaylock.Blur.Threads.Passes.{IsSliding, SameLine, blur_lines-same, blur_lines-other}

-- Both images agree on the line `i`.
abbrev pub SameLines : Pass → Images → Images → ℕ → Type 0
SameLines p m m' i = SameLine p m.pixels m'.pixels i × SameLine p m.interim m'.interim i

-- Both images have room for all pixels.
abbrev pub HasRoom : ℕ → Images → Type 0
HasRoom total m = (total ≤ length m.pixels) × (total ≤ length m.interim)

-- The pass `k` in a known direction.
unfoldable pub along : Pass → ℕ → ℕ → ℕ → Images → Images
along p k start end m =
    if k % 2 == 0
    then record m { interim = blur_lines p m.pixels (end - start) start m.interim }
    else record m { pixels = blur_lines p m.interim (end - start) start m.pixels }

-- Each thread's lines are those of the image after as many passes as the thread has done.
abbrev pub Agrees : Pass → ℕ → ℕ → (ℕ → Images) → (ℕ → ℕ) → Images → Type 0
Agrees p lines n seq passed m =
    (t i : ℕ)
    → t < n
    → piece_start lines n t ≤ i
    → i < piece_end lines n t
    → SameLines p m (seq (passed t)) i

pub updated : (f : ℕ → ℕ) (t v u : ℕ) → u ≡ t → update f t v u ≡ v
updated f t v u e = ground arith

pub not_updated : (f : ℕ → ℕ) (t v u : ℕ) → u ≢ t → update f t v u ≡ f u
not_updated f t v u ne = ground arith

module _ (p : Pass) (lines total : ℕ) (v : IsLaidOut p lines total) (w : IsSliding p) where
  pub along-HasRoom :
      (k start end : ℕ) (m : Images) → HasRoom total m → HasRoom total (along p k start end m)
  unfolding along
  along-HasRoom k start end m r = elim (Bool-cases (k % 2 == 0)) [
    | inl e ↦ rw e (
      r.0,
      omega (arith, r.1, length-blur_lines p lines total v m.pixels (end - start) start m.interim),
    )
    | inr e ↦ rw e (
      omega (arith, r.0, length-blur_lines p lines total v m.interim (end - start) start m.pixels),
      r.1,
    )
  ]

  along-same :
      (k start end i : ℕ) (m m' : Images)
      → SameLines p m m' i
      → start ≤ i
      → i < end
      → end ≤ lines
      → HasRoom total m
      → HasRoom total m'
      → SameLines p (along p k start end m) (along p k 0 lines m') i
  unfolding along
  along-same k start end i m m' h low high within r r' = elim (Bool-cases (k % 2 == 0)) [
    | inl e ↦ rw e (
      h.0,
      blur_lines-same p lines total v w m.pixels m.interim m'.pixels m'.interim start (end - start)
          i h.0 low (omega arith) (omega arith) r.1 r'.1,
    )
    | inr e ↦ rw e (
      blur_lines-same p lines total v w m.interim m.pixels m'.interim m'.pixels start (end - start)
          i h.1 low (omega arith) (omega arith) r.0 r'.0,
      h.1,
    )
  ]

  along-other :
      (k start end i : ℕ) (m : Images)
      → i < start ⊎ end ≤ i
      → i < lines
      → end ≤ lines
      → start ≤ end
      → SameLines p (along p k start end m) m i
  unfolding along
  along-other k start end i m out within fits order = elim (Bool-cases (k % 2 == 0)) [
    | inl e ↦ rw e (
      (λ l h. refl),
      blur_lines-other p lines total v w m.pixels m.interim start (end - start) i (ground arith)
          within (omega arith),
    )
    | inr e ↦ rw e (
      blur_lines-other p lines total v w m.interim m.pixels start (end - start) i (ground arith)
          within (omega arith),
      (λ l h. refl),
    )
  ]

  pub along-Agrees :
      (n t : ℕ) (seq : ℕ → Images) (passed : ℕ → ℕ) (m : Images)
      → t < n
      → seq (suc (passed t)) ≡ along p (passed t) 0 lines (seq (passed t))
      → HasRoom total m
      → HasRoom total (seq (passed t))
      → Agrees p lines n seq passed m
      → Agrees p lines n seq
          (update passed t (suc (passed t)))
          (along p (passed t) (piece_start lines n t) (piece_end lines n t) m)
  along-Agrees n t seq passed m ht e r r' h u i hu low high =
      let k = passed t in
      let start = piece_start lines n t in
      let end = piece_end lines n t in
      let next = along p k start end m in
      let fits = piece_end-le lines n (omega arith) t ht in
      elim (ℕ_discrete u t) [
        | yes q ↦
            let low' : start ≤ i = omega (arith, low, ap (piece_start lines n) q) in
            let high' : i < end = omega (arith, high, ap (piece_end lines n) q) in
            subst (λ z. SameLines p next (seq z) i) (sym (updated passed t (suc k) u q))
              (subst (λ z. SameLines p next z i) (sym e)
                (along-same k start end i m (seq k) (h t i ht low' high') low' high' fits r r'))
        | no ne ↦
            let within = piece_end-le lines n (omega arith) u hu in
            let kept =
              along-other k start end i m (outside t u i (omega arith) ne low high) (omega arith)
                fits (start-le_end lines n (omega arith) t) in
            let before = h u i hu low high in
            subst (λ z. SameLines p next (seq z) i) (sym (not_updated passed t (suc k) u ne))
              ((λ l hl. kept.0 l hl ∙ before.0 l hl), (λ l hl. kept.1 l hl ∙ before.1 l hl))
      ]
    where
      outside :
          (t u i : ℕ)
          → 0 < n
          → u ≢ t
          → piece_start lines n u ≤ i
          → i < piece_end lines n u
          → i < piece_start lines n t ⊎ piece_end lines n t ≤ i
      outside t u i pos ne low high = elim (dec_lt u t) [
        | yes l ↦ inl (omega (arith, pieces_apart lines n pos u t l, high))
        | no g ↦ inr (omega (arith, pieces_apart lines n pos t u (omega (arith, g, ne)), low))
      ]
