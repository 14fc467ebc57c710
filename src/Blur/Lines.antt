-- ===== src/Blur/Lines.antt =====
-- What a pass leaves in the target image.
use swaylock.Base.{
  ℕ, zero, suc, ◌+◌, ◌-◌, ◌≤◌, ◌<◌, ◌≡◌, refl, sym, ap, ◌∙◌, ◌≢◌, inl, inr, true, List, arith,
  ℕ_discrete, leb, Bool-cases, length, get_or, length-set, get_or-set_self, get_or-set_ne,
}
use swaylock.Blur.{Sums, Pass, first_sums, write_pixel, next_sums, average, blur_line, blur_lines}
use swaylock.Blur.Window.{sums_at}

-- The pixels of the line `i` of an image.
abbrev pub line : Pass → List ℕ → ℕ → ℕ → ℕ
line p src i k = get_or src (p.at i k) 0

-- What a pass puts at the pixel `k` of the line `i`.
abbrev pub blurred : Pass → List ℕ → ℕ → ℕ → ℕ
blurred p src i k = average p.radius_log2 (sums_at p (line p src i) (suc (k + p.radius)))

-- Lines and pixels stand at places of their own.
pub record IsLaidOut (p : Pass) (lines total : ℕ) : Type 0 where
  pub same_line :
      (i k j l : ℕ) → i < lines → j < lines → k < p.size → l < p.size → p.at i k ≡ p.at j l → i ≡ j
  pub same_place :
      (i k j l : ℕ) → i < lines → j < lines → k < p.size → l < p.size → p.at i k ≡ p.at j l → k ≡ l
  pub inside : (i k : ℕ) → i < lines → k < p.size → p.at i k < total

module _ (p : Pass) (lines total : ℕ) (v : IsLaidOut p lines total) (src : List ℕ) where
  length-write_pixel :
      (i j : ℕ) (s : Sums) (target : List ℕ) → length (write_pixel p i j s target) ≡ length target
  unfolding write_pixel
  length-write_pixel i j s target = elim (Bool-cases (leb p.radius j)) [
    | inl e ↦ rw e (length-set target (p.at i (j - p.radius)) (average p.radius_log2 s))
    | inr e ↦ rw e refl
  ]

  write_pixel-miss :
      (i j : ℕ) (s : Sums) (target : List ℕ) (x : ℕ)
      → (p.radius ≤ j → p.at i (j - p.radius) ≢ x)
      → get_or (write_pixel p i j s target) x 0 ≡ get_or target x 0
  unfolding write_pixel
  write_pixel-miss i j s target x h = elim (Bool-cases (leb p.radius j)) [
    | inl e ↦ rw e (
        get_or-set_ne target (p.at i (j - p.radius)) x (average p.radius_log2 s) 0
          (h (ground arith)))
    | inr e ↦ rw e refl
  ]

  write_pixel-hit :
      (i k : ℕ) (s : Sums) (target : List ℕ)
      → p.at i k < length target
      → get_or (write_pixel p i (k + p.radius) s target) (p.at i k) 0 ≡ average p.radius_log2 s
  unfolding write_pixel
  write_pixel-hit i k s target h =
      let e : leb p.radius (k + p.radius) ≡ true = ground arith in
      let q : k + p.radius - p.radius ≡ k = omega arith in
      rw (e, q) (get_or-set_self target (p.at i k) (average p.radius_log2 s) 0 h)

  pub length-blur_line :
      (i n j : ℕ) (s : Sums) (target : List ℕ)
      → length (blur_line p i src n j s target) ≡ length target
  unfolding blur_line
  length-blur_line i zero j s target = refl
  length-blur_line i (suc n) j s target =
      let s' = next_sums p (line p src i) j s in
      length-blur_line i n (suc j) s' (write_pixel p i j s' target)
      ∙ length-write_pixel i j s' target

  -- A place that is none of the pixels still to be written.
  blur_line-miss :
      (i n j : ℕ) (s : Sums) (target : List ℕ) (x : ℕ)
      → ((k : ℕ) → j ≤ k + p.radius → k + p.radius < j + n → p.at i k ≢ x)
      → get_or (blur_line p i src n j s target) x 0 ≡ get_or target x 0
  unfolding blur_line
  blur_line-miss i zero j s target x h = refl
  blur_line-miss i (suc n) j s target x h =
      let s' = next_sums p (line p src i) j s in
      blur_line-miss i n (suc j) s' (write_pixel p i j s' target) x
        (λ k a b. h k (omega arith) (omega arith))
      ∙ write_pixel-miss i j s' target x (λ low. h (j - p.radius) (omega arith) (omega arith))

  blur_line-hit :
      (i n j : ℕ) (target : List ℕ) (k : ℕ)
      → i < lines
      → k < p.size
      → j ≤ k + p.radius
      → k + p.radius < j + n
      → j + n ≤ p.size + p.radius
      → total ≤ length target
      → get_or (blur_line p i src n j (sums_at p (line p src i) j) target) (p.at i k) 0
        ≡ blurred p src i k
  unfolding blur_line sums_at
  blur_line-hit i zero j target k li lk a b c d = absurd (omega arith)
  blur_line-hit i (suc n) j target k li lk a b c d =
      let s' = sums_at p (line p src i) (suc j) in
      let within = v.inside i k li lk in
      let next = write_pixel p i j s' target in
      elim (ℕ_discrete j (k + p.radius)) [
        | yes e ↦
            blur_line-miss i n (suc j) s' next (p.at i k) (λ l low high q.
              absurd (omega (arith, v.same_place i l i k li li (omega arith) lk q)))
            ∙ (ap
                  (λ t.
                    get_or (write_pixel p i t (sums_at p (line p src i) (suc t)) target) (p.at i k)
                      0)
                  e
                ∙ write_pixel-hit i k (sums_at p (line p src i) (suc (k + p.radius))) target
                    (omega arith))
        | no ne ↦
            blur_line-hit i n (suc j) next k li lk (omega (arith, ne)) (omega arith) (omega arith)
              (omega (arith, length-write_pixel i j s' target))
      ]

  first_line :
      (i : ℕ) (target : List ℕ) (k : ℕ)
      → i < lines
      → k < p.size
      → total ≤ length target
      → get_or
          (blur_line p i src
            (p.size + p.radius)
            0
            (first_sums p.radius_log2 (line p src i 0))
            target)
          (p.at i k)
          0
        ≡ blurred p src i k
  unfolding sums_at
  first_line i target k li lk d =
      blur_line-hit i (p.size + p.radius) 0 target k li lk (omega arith) (omega arith) (omega arith)
        d

  pub length-blur_lines :
      (n i : ℕ) (target : List ℕ) → length (blur_lines p src n i target) ≡ length target
  unfolding blur_lines
  length-blur_lines zero i target = refl
  length-blur_lines (suc n) i target =
      let s = first_sums p.radius_log2 (line p src i 0) in
      length-blur_lines n (suc i) (blur_line p i src (p.size + p.radius) 0 s target)
      ∙ length-blur_line i (p.size + p.radius) 0 s target

  -- A place that is on none of the lines.
  pub blur_lines-miss :
      (n i : ℕ) (target : List ℕ) (x : ℕ)
      → i + n ≤ lines
      → ((j k : ℕ) → i ≤ j → j < i + n → k < p.size → p.at j k ≢ x)
      → get_or (blur_lines p src n i target) x 0 ≡ get_or target x 0
  unfolding blur_lines
  blur_lines-miss zero i target x r h = refl
  blur_lines-miss (suc n) i target x r h =
      let s = first_sums p.radius_log2 (line p src i 0) in
      blur_lines-miss n (suc i) (blur_line p i src (p.size + p.radius) 0 s target) x (omega arith)
        (λ j k low high lk. h j k (omega arith) (omega arith) lk)
      ∙ blur_line-miss i (p.size + p.radius) 0 s target x
          (λ k low high. h i k (omega arith) (omega arith) (omega arith))

  pub blur_lines-hit :
      (n i : ℕ) (target : List ℕ) (j k : ℕ)
      → i + n ≤ lines
      → i ≤ j
      → j < i + n
      → k < p.size
      → total ≤ length target
      → get_or (blur_lines p src n i target) (p.at j k) 0 ≡ blurred p src j k
  unfolding blur_lines
  blur_lines-hit zero i target j k r low high lk d = absurd (omega arith)
  blur_lines-hit (suc n) i target j k r low high lk d =
      let s = first_sums p.radius_log2 (line p src i 0) in
      let next = blur_line p i src (p.size + p.radius) 0 s target in
      elim (ℕ_discrete i j) [
        | yes e ↦
            blur_lines-miss n (suc i) next (p.at j k) (omega arith) (λ j' k' low' high' lk' q.
              absurd (omega (arith, v.same_line j' k' j k (omega arith) (omega arith) lk' lk q)))
            ∙ (ap (λ t. get_or next (p.at t k) 0) (sym e)
                ∙ (first_line i target k (omega arith) lk d ∙ ap (λ t. blurred p src t k) e))
        | no ne ↦
            blur_lines-hit n (suc i) next j k (omega arith) (omega (arith, ne)) (omega arith) lk
              (omega (arith, length-blur_line i (p.size + p.radius) 0 s target))
      ]
