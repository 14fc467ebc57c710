-- ===== src/Blur/Flip.antt =====
-- The copy of a captured image into the image to blur, upside down.
use swaylock.Base.{
  ℕ, zero, suc, ◌+◌, ◌-◌, ◌*◌, ◌≤◌, ◌<◌, ◌≡◌, refl, ap, ◌∙◌, ◌≢◌, ◌⊎◌, inl, inr, List, arith,
  dec_lt, ℕ_discrete, length, get_or, set, length-set, get_or-set_self, get_or-set_ne,
}
use native.Mathlib.Nat.{mul-le-mul_right}

-- memcpy of `n` pixels.
unfoldable pub copy_pixels : List ℕ → List ℕ → ℕ → ℕ → ℕ → List ℕ
copy_pixels target src to from zero = target
copy_pixels target src to from (suc n) =
    copy_pixels (set target to (get_or src from 0)) src (suc to) (suc from) n

-- The loop of `fast_copy_flip`, which takes rows to be `width` pixels, whatever the stride of the images, over `n` rows from `i` on.
unfoldable pub flip_rows : List ℕ → List ℕ → ℕ → ℕ → ℕ → ℕ → List ℕ
unfolding copy_pixels
flip_rows target src width height i zero = target
flip_rows target src width height i (suc n) =
    flip_rows (copy_pixels target src ((height - i - 1) * width) (i * width) width) src width height
      (suc i) n

unfoldable pub fast_copy_flip : List ℕ → List ℕ → ℕ → ℕ → List ℕ
unfolding flip_rows
fast_copy_flip target src width height = flip_rows target src width height 0 height

length-copy_pixels :
    (n : ℕ) (target src : List ℕ) (to from : ℕ)
    → length (copy_pixels target src to from n) ≡ length target
unfolding copy_pixels
length-copy_pixels zero target src to from = refl
length-copy_pixels (suc n) target src to from =
    length-copy_pixels n (set target to (get_or src from 0)) src (suc to) (suc from)
    ∙ length-set target to (get_or src from 0)

copy_pixels-miss :
    (n : ℕ) (target src : List ℕ) (to from k : ℕ)
    → k < to ⊎ to + n ≤ k
    → get_or (copy_pixels target src to from n) k 0 ≡ get_or target k 0
unfolding copy_pixels
copy_pixels-miss zero target src to from k h = refl
copy_pixels-miss (suc n) target src to from k h =
    copy_pixels-miss n (set target to (get_or src from 0)) src (suc to) (suc from) k (ground arith)
    ∙ get_or-set_ne target to k (get_or src from 0) 0 (λ e. omega (arith, e, h))

copy_pixels-hit :
    (n : ℕ) (target src : List ℕ) (to from l : ℕ)
    → l < n
    → to + n ≤ length target
    → get_or (copy_pixels target src to from n) (to + l) 0 ≡ get_or src (from + l) 0
unfolding copy_pixels
copy_pixels-hit zero target src to from l h r = absurd (omega arith)
copy_pixels-hit (suc n) target src to from zero h r =
    copy_pixels-miss n (set target to (get_or src from 0)) src (suc to) (suc from) (to + 0)
      (inl (omega arith))
    ∙ (ap (λ k. get_or (set target to (get_or src from 0)) k 0) (omega arith)
        ∙ (get_or-set_self target to (get_or src from 0) 0 (omega arith)
            ∙ ap (λ k. get_or src k 0) (omega arith)))
copy_pixels-hit (suc n) target src to from (suc l) h r =
    ap (λ k. get_or (copy_pixels (set target to (get_or src from 0)) src (suc to) (suc from) n) k 0)
      (omega arith)
    ∙ (copy_pixels-hit n (set target to (get_or src from 0)) src (suc to) (suc from) l (omega arith)
          (omega (arith, length-set target to (get_or src from 0)))
        ∙ ap (λ k. get_or src k 0) (omega arith))

-- The pixels of another row stand before or after those of the row `r`.
other_row :
    (x y r width : ℕ)
    → x < width
    → y ≢ r
    → x + y * width < r * width ⊎ r * width + width ≤ x + y * width
other_row x y r width h ne = elim (dec_lt y r) [
  | yes l ↦ inl (let e : suc y * width ≤ r * width = mul-le-mul_right width l in grind arith)
  | no g ↦ inr (
      let e : suc r * width ≤ y * width = mul-le-mul_right width (omega (arith, g, ne)) in
      grind arith)
]

module _ (src : List ℕ) (width height : ℕ) where
  pub length-flip_rows :
      (n i : ℕ) (target : List ℕ) → length (flip_rows target src width height i n) ≡ length target
  unfolding flip_rows
  length-flip_rows zero i target = refl
  length-flip_rows (suc n) i target =
      length-flip_rows n (suc i)
        (copy_pixels target src ((height - i - 1) * width) (i * width) width)
      ∙ length-copy_pixels width target src ((height - i - 1) * width) (i * width)

  flip_rows-miss :
      (n i : ℕ) (target : List ℕ) (x y : ℕ)
      → x < width
      → i + n ≤ height
      → ((j : ℕ) → i ≤ j → j < i + n → y ≢ height - j - 1)
      → get_or (flip_rows target src width height i n) (x + y * width) 0
        ≡ get_or target (x + y * width) 0
  unfolding flip_rows
  flip_rows-miss zero i target x y hx r h = refl
  flip_rows-miss (suc n) i target x y hx r h =
      flip_rows-miss n (suc i) (copy_pixels target src ((height - i - 1) * width) (i * width) width)
        x y hx (omega arith) (λ j low high. h j (omega arith) (omega arith))
      ∙ copy_pixels-miss width target src ((height - i - 1) * width) (i * width) (x + y * width)
          (other_row x y (height - i - 1) width hx (h i (omega arith) (omega arith)))

  flip_rows-hit :
      (n i : ℕ) (target : List ℕ) (x j : ℕ)
      → x < width
      → i + n ≤ height
      → i ≤ j
      → j < i + n
      → width * height ≤ length target
      → get_or (flip_rows target src width height i n) (x + (height - j - 1) * width) 0
        ≡ get_or src (x + j * width) 0
  unfolding flip_rows
  flip_rows-hit zero i target x j hx r low high room = absurd (omega arith)
  flip_rows-hit (suc n) i target x j hx r low high room =
      let to = (height - i - 1) * width in
      let next = copy_pixels target src to (i * width) width in
      elim (ℕ_discrete j i) [
        | yes q ↦
            flip_rows-miss n (suc i) next x (height - j - 1) hx (omega arith)
              (λ j' low' high' e. omega (arith, e, q))
            ∙ (ap (λ k. get_or next (x + (height - k - 1) * width) 0) q
                ∙ (ap (λ k. get_or next k 0) (omega arith)
                    ∙ (copy_pixels-hit width target src to (i * width) x hx
                          (row_fits i (omega arith) room)
                        ∙ ap (λ k. get_or src k 0) (omega (arith, ap (λ (k : ℕ). k * width) q)))))
        | no ne ↦
            flip_rows-hit n (suc i) next x j hx (omega arith) (omega (arith, ne)) (omega arith)
              (omega (arith, length-copy_pixels width target src to (i * width)))
      ]
    where
      row_fits :
          (i : ℕ)
          → i < height
          → width * height ≤ length target
          → (height - i - 1) * width + width ≤ length target
      row_fits i h room =
          let e : suc (height - i - 1) * width ≤ height * width =
            mul-le-mul_right width (omega arith) in
          grind arith

-- The copy has the rows of the source in the opposite order, and flipping the copy back into an image
-- with enough room gives the source's pixels again.
pub fast_copy_flip_lem :
    (target target' src : List ℕ) (width height x y : ℕ)
    → width * height ≤ length target
    → width * height ≤ length target'
    → x < width
    → y < height
    → (get_or (fast_copy_flip target src width height) (x + y * width) 0
        ≡ get_or src (x + (height - y - 1) * width) 0)
      × (get_or
            (fast_copy_flip target' (fast_copy_flip target src width height) width height)
            (x + y * width)
            0
          ≡ get_or src (x + y * width) 0)
unfolding fast_copy_flip
fast_copy_flip_lem target target' src width height x y room room' hx hy = (
  once target src room y hy,
  once target' (flip_rows target src width height 0 height) room' y hy
      ∙ (once target src room (height - y - 1) (omega arith)
          ∙ ap (λ k. get_or src (x + k * width) 0) (omega arith)),
)
  where
    once :
        (target src : List ℕ)
        → width * height ≤ length target
        → (y : ℕ) → y < height
        → get_or (flip_rows target src width height 0 height) (x + y * width) 0
          ≡ get_or src (x + (height - y - 1) * width) 0
    once target src room y hy =
        ap (λ k. get_or (flip_rows target src width height 0 height) (x + k * width) 0)
          (omega arith)
        ∙ flip_rows-hit src width height height 0 target x (height - y - 1) hx (omega arith)
            (omega arith) (omega arith) room

pub length-fast_copy_flip :
    (target src : List ℕ) (width height : ℕ)
    → length (fast_copy_flip target src width height) ≡ length target
unfolding fast_copy_flip
length-fast_copy_flip target src width height = length-flip_rows src width height height 0 target
