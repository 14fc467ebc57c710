-- ===== src/Blur/Threads/Passes.antt =====
-- One pass of one thread, over images that agree with those of the passes without threads.
use swaylock.Base.{
  ℕ, zero, suc, ◌+◌, ◌-◌, ◌≤◌, ◌<◌, ◌≡◌, refl, sym, ap, ◌∙◌, ◌⊎◌, inl, inr, List, arith, leb,
  if◌then◌else◌, Bool-cases, length, get_or,
}
use swaylock.Blur.{Channel, Sums, Pass, next_sums, average, first_sums, blur_lines}
use swaylock.Blur.Window.{sums_at}
use swaylock.Blur.Lines.{line, blurred, IsLaidOut, blur_lines-hit, blur_lines-miss}

-- The pixel that leaves the window is one of the line.
pub record IsSliding (p : Pass) : Type 0 where
  pub leaves : (j : ℕ) → p.oldest j ≤ j - p.radius
  pub filled : 0 < p.size

-- Two images agree on the line `i`.
abbrev pub SameLine : Pass → List ℕ → List ℕ → ℕ → Type 0
SameLine p a b i = (k : ℕ) → k < p.size → get_or a (p.at i k) 0 ≡ get_or b (p.at i k) 0

module _ (p : Pass) (v : IsSliding p) (px py : ℕ → ℕ)
    (same : (k : ℕ) → k < p.size → px k ≡ py k) where
  next_sums-same :
      (j : ℕ) (s : Sums) (c : Channel)
      → j < p.size + p.radius
      → next_sums p px j s c ≡ next_sums p py j s c
  unfolding next_sums
  next_sums-same j s c h =
      let filled = v.filled in
      let entered = same (if leb p.size j then p.size - 1 else j) (ground arith) in
      elim (Bool-cases (leb p.radius j)) [
        | inl e ↦
            let low : p.radius ≤ j = ground arith in
            let left = same (p.oldest j) (omega (arith, v.leaves j)) in rw (e, entered, left) refl
        | inr e ↦ rw (e, entered) refl
      ]

  pub sums_at-same : (j : ℕ) → j ≤ p.size + p.radius → sums_at p px j ≡ sums_at p py j
  unfolding sums_at
  sums_at-same zero h = ap (first_sums p.radius_log2) (same 0 v.filled)
  sums_at-same (suc j) h =
      ap (next_sums p px j) (sums_at-same j (omega arith))
      ∙ (λ i c. next_sums-same j (sums_at p py j) c (omega arith) i)

-- What a pass puts on a line depends on that line alone.
blurred-same :
    (p : Pass) (a b : List ℕ) (i k : ℕ)
    → IsSliding p
    → SameLine p a b i
    → k < p.size
    → blurred p a i k ≡ blurred p b i k
blurred-same p a b i k v same h =
    ap (average p.radius_log2)
      (sums_at-same p v (line p a i) (line p b i) same (suc (k + p.radius)) (omega arith))

module _ (p : Pass) (lines total : ℕ) (v : IsLaidOut p lines total) (w : IsSliding p) where
  -- A pass over a part of the lines does on these what the pass over all lines does.
  pub blur_lines-same :
      (src target src' target' : List ℕ) (start n i : ℕ)
      → SameLine p src src' i
      → start ≤ i
      → i < start + n
      → start + n ≤ lines
      → total ≤ length target
      → total ≤ length target'
      → SameLine p (blur_lines p src n start target) (blur_lines p src' (lines - 0) 0 target') i
  blur_lines-same src target src' target' start n i same low high within room room' k lk =
      blur_lines-hit p lines total v src n start target i k within low high lk room
      ∙ (blurred-same p src src' i k w same lk
          ∙ sym (
              blur_lines-hit p lines total v src' (lines - 0) 0 target' i k (omega arith)
                (omega arith) (omega arith) lk room'))

  -- It leaves the other lines.
  pub blur_lines-other :
      (src target : List ℕ) (start n i : ℕ)
      → i < start ⊎ start + n ≤ i
      → i < lines
      → start + n ≤ lines
      → SameLine p (blur_lines p src n start target) target i
  blur_lines-other src target start n i out within fits k lk =
      blur_lines-miss p lines total v src n start target (p.at i k) fits (λ j l low high ll e.
        absurd (omega (arith, out, v.same_line j l i k (omega arith) within ll lk e)))
