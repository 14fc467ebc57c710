-- ===== src/Blur/Window.antt =====
-- The sums of a line against sums over a sliding window.
use swaylock.Base.{
  ℕ, zero, suc, ◌+◌, ◌-◌, ◌*◌, ◌/◌, ◌^◌, ◌≤◌, ◌<◌, min, ◌≡◌, sym, ap, ap₂, ◌∙◌, inl, inr, arith,
  leb, if◌then◌else◌, Bool-cases,
}
use swaylock.Base.Words.{u32}
use native.Mathlib.Nat.{mul_comm, one-le-pow, div-div-eq-div-mul, div-le_of_le-mul}
use swaylock.Blur.{
  Channel, channel, Sums, first_sums, add_pixel, sub_pixel, Pass, next_sums, scaled,
}

-- The sum of `n` terms from `start` on.
unfoldable pub sum_from : (ℕ → ℕ) → ℕ → ℕ → ℕ
sum_from f start zero = 0
sum_from f start (suc n) = f start + sum_from f (suc start) n

sum_from-snoc :
    (f : ℕ → ℕ) (start n : ℕ) → sum_from f start (suc n) ≡ sum_from f start n + f (start + n)
unfolding sum_from
sum_from-snoc f start zero = omega (arith, ap f (let e : start + 0 ≡ start = omega arith in e))
sum_from-snoc f start (suc n) = omega (
  arith,
  sum_from-snoc f (suc start) n,
  ap f (let e : suc start + n ≡ start + suc n = omega arith in e),
)

sum_from-le : (f : ℕ → ℕ) → ((k : ℕ) → f k ≤ 255) → (start n : ℕ) → sum_from f start n ≤ 255 * n
unfolding sum_from
sum_from-le f h start zero = omega arith
sum_from-le f h start (suc n) = omega (arith, h start, sum_from-le f h (suc start) n)

-- The pixel at place `k` of a line that goes on at both ends with its outermost pixels, counted from
-- `radius` places before the line.
abbrev pub clamped : ℕ → ℕ → ℕ → ℕ
clamped size radius k = min (k - radius) (size - 1)

-- A channel of that line.
abbrev pub line_bytes : Channel → ℕ → ℕ → (ℕ → ℕ) → ℕ → ℕ
line_bytes c size radius px k = channel c (px (clamped size radius k))

-- The mean of the channel over the `2 * radius` pixels from `k + 1 - radius` to `k + radius`.
abbrev pub mean : Channel → ℕ → ℕ → (ℕ → ℕ) → ℕ → ℕ
mean c size radius px k = sum_from (line_bytes c size radius px) (suc k) (radius * 2) / (radius * 2)

-- The sums before the round `j`.
unfoldable pub sums_at : Pass → (ℕ → ℕ) → ℕ → Sums
sums_at p px zero = first_sums p.radius_log2 (px 0)
sums_at p px (suc j) = next_sums p px j (sums_at p px j)

-- What the two passes share: the radius is a power of two, not too large, and the pixel that leaves
-- the window is the one of 2 * radius rounds ago, or the first.
pub record IsPass (p : Pass) : Type 0 where
  pub exact : p.radius ≡ 2 ^ p.radius_log2
  pub small : p.radius ≤ 2 ^ 20
  pub leaves : (j : ℕ) → p.oldest j ≡ j - p.radius * 2
  pub filled : 0 < p.size

channel-le : (c : Channel) (w : ℕ) → channel c w ≤ 255
channel-le Channel.red w = omega arith
channel-le Channel.green w = omega arith
channel-le Channel.blue w = omega arith

sum_from-const :
    (f : ℕ → ℕ) (v start n : ℕ)
    → ((k : ℕ) → start ≤ k → k < start + n → f k ≡ v)
    → sum_from f start n ≡ n * v
unfolding sum_from
sum_from-const f v start zero h = omega arith
sum_from-const f v start (suc n) h = omega (
  arith,
  h start (omega arith) (omega arith),
  sum_from-const f v (suc start) n (λ k low high. h k (omega arith) (omega arith)),
  (let e : suc n * v ≡ v + n * v = grind arith in e),
)

module _ (p : Pass) (v : IsPass p) (px : ℕ → ℕ) (c : Channel) where
  -- The bytes of the line, clamped.
  abbrev pub bytes : ℕ → ℕ
  bytes k = line_bytes c p.size p.radius px k

  bytes-le : (k : ℕ) → bytes k ≤ 255
  bytes-le k = channel-le c (px (clamped p.size p.radius k))

  -- Room for one more byte, and for one less.
  grown :
      (start n : ℕ)
      → n < 2 ^ 22
      → u32 (sum_from bytes start n + bytes (start + n)) ≡ sum_from bytes start (suc n)
  grown start n h =
      omega (arith, sum_from-snoc bytes start n, sum_from-le bytes bytes-le start (suc n))

  moved :
      (start n : ℕ)
      → n < 2 ^ 22
      → u32 (sum_from bytes start (suc n) + 2 ^ 32 - bytes start) ≡ sum_from bytes (suc start) n
  unfolding sum_from
  moved start n h = omega (arith, bytes-le start, sum_from-le bytes bytes-le (suc start) n)

  entering :
      (j : ℕ) → channel c (px (if leb p.size j then p.size - 1 else j)) ≡ bytes (j + p.radius)
  entering j =
      let filled = v.filled in
      ap (λ t. channel c (px t))
        (let e : (if leb p.size j then p.size - 1 else j) ≡ clamped p.size p.radius (j + p.radius) =
            ground arith in
          e)

  leaving :
      (j : ℕ)
      → p.radius ≤ j
      → j < p.size + p.radius
      → channel c (px (p.oldest j)) ≡ bytes (j - p.radius)
  leaving j low high = ap (λ t. channel c (px t)) (v.leaves j ∙ omega arith)

  -- Before the round `j` the sums are over the pixels from `j - radius` up to `j + radius`.
  abbrev pub first : ℕ → ℕ
  first j = j - p.radius

  abbrev pub count : ℕ → ℕ
  count j = j + p.radius - first j

  sums_at-zero : sums_at p px 0 c ≡ sum_from bytes 0 p.radius
  unfolding sums_at first_sums
  sums_at-zero =
      let b = channel-le c (px 0) in
      let e = v.exact in
      let s = v.small in
      let same : sum_from bytes 0 p.radius ≡ p.radius * channel c (px 0) =
        sum_from-const bytes (channel c (px 0)) 0 p.radius
          (λ k low high. ap (λ t. channel c (px t)) (omega arith)) in
      let bound = sum_from-le bytes bytes-le 0 p.radius in
      let product : channel c (px 0) * 2 ^ p.radius_log2 ≡ p.radius * channel c (px 0) =
        ap (λ t. channel c (px 0) * t) (sym e) ∙ mul_comm (channel c (px 0)) p.radius in
      omega arith

  pub sums_at-sum :
      (j : ℕ) → j ≤ p.size + p.radius → sums_at p px j c ≡ sum_from bytes (first j) (count j)
  unfolding sums_at next_sums add_pixel sub_pixel
  sums_at-sum zero h = sums_at-zero ∙ ap₂ (sum_from bytes) (omega arith) (omega arith)
  sums_at-sum (suc j) h =
      let small = v.small in
      let ih = sums_at-sum j (omega arith) in
      elim (Bool-cases (leb p.radius j)) [
        | inl e ↦
            let low : p.radius ≤ j = ground arith in
            rw e (
              ap₂ (λ a b. u32 (a + 2 ^ 32 - b))
                (ap₂ (λ a b. u32 (a + b)) ih
                    (entering j
                      ∙ ap bytes (let q : j + p.radius ≡ first j + count j = omega arith in q))
                  ∙ grown (first j) (count j) (omega arith))
                (leaving j low (omega arith))
              ∙ moved (first j) (count j) (omega arith)
              ∙ ap₂ (sum_from bytes) (omega arith) (omega arith))
        | inr e ↦
            let high : j < p.radius = ground arith in
            rw e (
              ap₂ (λ a b. u32 (a + b)) ih
                (entering j
                  ∙ ap bytes (let q : j + p.radius ≡ first j + count j = omega arith in q))
              ∙ grown (first j) (count j) (omega arith)
              ∙ ap₂ (sum_from bytes) (omega arith) (omega arith))
      ]

  pos : 0 < p.radius
  pos = omega (arith, v.exact, one-le-pow p.radius_log2 2)

  pub scaled-mean :
      (k : ℕ)
      → k < p.size
      → scaled p.radius_log2 (sums_at p px (suc (k + p.radius))) c ≡ mean c p.size p.radius px k
  scaled-mean k h =
      let e = v.exact in
      div-div-eq-div-mul (sums_at p px (suc (k + p.radius)) c) (2 ^ p.radius_log2) 2
      ∙ ap₂ ◌/◌
          (sums_at-sum (suc (k + p.radius)) (omega arith)
            ∙ ap₂ (sum_from bytes) (omega arith) (omega arith))
          (ap (λ (t : ℕ). t * 2) (sym e))

  pub mean-le : (k : ℕ) → mean c p.size p.radius px k ≤ 255
  mean-le k =
      let bound = sum_from-le bytes bytes-le (suc k) (p.radius * 2) in
      div-le_of_le-mul (p.radius * 2) (omega arith)
