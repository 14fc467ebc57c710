-- ===== src/Blur/Mean.antt =====
-- The two passes, `fast_blur_V` and `fast_blur_H`, against the mean over a window.
use swaylock.Base.{
  ℕ, zero, suc, ◌+◌, ◌-◌, ◌*◌, ◌/◌, ◌^◌, ◌≤◌, ◌<◌, ◌≡◌, refl, sym, ap, ap₂, ◌∙◌, List, arith,
  length, get_or,
}
use swaylock.Base.Words.{u32}
use swaylock.Base.Bits.{bit_or-fields}
use Prim.Native.Nat.{bit_or}
use native.Mathlib.Nat.{div-eq_of_lt-le}
use swaylock.Blur.{
  Channel, channel, Pass, average, packed, scaled, vertical, horizontal, fast_blur_V, fast_blur_H,
}
use swaylock.Blur.Window.{
  sums_at, IsPass, mean, scaled-mean, mean-le, sum_from, clamped, line_bytes,
}
use swaylock.Blur.Lines.{line, blurred, IsLaidOut, blur_lines-hit}

packed_lem :
    (r g b : ℕ)
    → r ≤ 255
    → g ≤ 255
    → b ≤ 255
    → packed r g b ≡ 0xFF000000 + r * 2 ^ 16 + g * 2 ^ 8 + b
unfolding packed
packed_lem r g b hr hg hb =
    let er : u32 (r * 2 ^ 16) ≡ r * 2 ^ 16 = omega arith in
    let eg : u32 (g * 2 ^ 8) ≡ g * 2 ^ 8 = omega arith in
    let first : bit_or 0xFF000000 (u32 (r * 2 ^ 16)) ≡ 0xFF000000 + r * 2 ^ 16 =
      ap (λ t. bit_or 0xFF000000 t) er
      ∙ bit_or-fields 24 0xFF000000 255 (r * 2 ^ 16) (omega arith) (omega arith) in
    let second : bit_or (0xFF000000 + r * 2 ^ 16) (u32 (g * 2 ^ 8))
        ≡ 0xFF000000 + r * 2 ^ 16 + g * 2 ^ 8 =
      ap (λ t. bit_or (0xFF000000 + r * 2 ^ 16) t) eg
      ∙ bit_or-fields 16 (0xFF000000 + r * 2 ^ 16) (0xFF00 + r) (g * 2 ^ 8) (omega arith)
          (omega arith) in
    ap (λ t. bit_or (bit_or t (u32 (g * 2 ^ 8))) b) first
    ∙ (ap (λ t. bit_or t b) second
        ∙ bit_or-fields 8 (0xFF000000 + r * 2 ^ 16 + g * 2 ^ 8) (0xFF0000 + r * 2 ^ 8 + g) b
            (omega arith) (omega arith))

-- An opaque pixel of the means of its three channels, over the pixels `px` of a line.
abbrev pub mean_pixel : ℕ → ℕ → (ℕ → ℕ) → ℕ → ℕ
mean_pixel size radius px k =
    0xFF000000
    + mean Channel.red size radius px k * 2 ^ 16
    + mean Channel.green size radius px k * 2 ^ 8
    + mean Channel.blue size radius px k

pub blurred-mean :
    (p : Pass) (src : List ℕ) (i k : ℕ)
    → IsPass p
    → k < p.size
    → blurred p src i k ≡ mean_pixel p.size p.radius (line p src i) k
unfolding average
blurred-mean p src i k v h =
    let px = line p src i in
    let r = scaled-mean p v px Channel.red k h in
    let g = scaled-mean p v px Channel.green k h in
    let b = scaled-mean p v px Channel.blue k h in
    ap₂ (λ s t. packed s t (scaled p.radius_log2 (sums_at p px (suc (k + p.radius))) Channel.blue))
      r g
    ∙ (ap
          (λ t.
            packed (mean Channel.red p.size p.radius px k) (mean Channel.green p.size p.radius px k)
              t)
          b
        ∙ packed_lem (mean Channel.red p.size p.radius px k)
            (mean Channel.green p.size p.radius px k) (mean Channel.blue p.size p.radius px k)
            (mean-le p v px Channel.red k) (mean-le p v px Channel.green k)
            (mean-le p v px Channel.blue k))

-- A place in an image determines its column and its row.
row_of : (x y width : ℕ) → x < width → (x + y * width) / width ≡ y
row_of x y width h = div-eq_of_lt-le width (omega arith) (grind arith)

same_row : (x y x' y' width : ℕ) → x < width → x' < width → x + y * width ≡ x' + y' * width → y ≡ y'
same_row x y x' y' width h h' e =
    sym (row_of x y width h) ∙ (ap (λ t. t / width) e ∙ row_of x' y' width h')

same_column :
    (x y x' y' width : ℕ) → x < width → x' < width → x + y * width ≡ x' + y' * width → x ≡ x'
same_column x y x' y' width h h' e =
    omega (arith, e, ap (λ (t : ℕ). t * width) (same_row x y x' y' width h h' e))

in_image : (x y width height : ℕ) → x < width → y < height → x + y * width < width * height
in_image x y width height h k = grind arith

module _ (width height radius radius_log2 : ℕ) where
  pub vertical-IsLaidOut :
      IsLaidOut (vertical width height radius radius_log2) width (width * height)
  vertical-IsLaidOut = record {
    same_line = λ i k j l hi hj hk hl e. same_column i k j l width hi hj e;
    same_place = λ i k j l hi hj hk hl e. same_row i k j l width hi hj e;
    inside = λ i k hi hk. in_image i k width height hi hk;
  }

  pub horizontal-IsLaidOut :
      IsLaidOut (horizontal width height radius radius_log2) height (width * height)
  horizontal-IsLaidOut = record {
    same_line = λ i k j l hi hj hk hl e. same_row k i l j width hk hl e;
    same_place = λ i k j l hi hj hk hl e. same_column k i l j width hk hl e;
    inside = λ i k hi hk. in_image k i width height hk hi;
  }

  module _ (exact : radius ≡ 2 ^ radius_log2) (small : radius ≤ 2 ^ 20) where
    pub vertical-IsPass : 0 < height → IsPass (vertical width height radius radius_log2)
    vertical-IsPass h = record {
      exact = exact;
      small = small;
      leaves = λ j. ground arith;
      filled = h;
    }

    pub horizontal-IsPass : 0 < width → IsPass (horizontal width height radius radius_log2)
    horizontal-IsPass h = record {
      exact = exact;
      small = small;
      leaves = λ j. ground arith;
      filled = h;
    }

-- Only the pixels of the line count.
sum_from-same :
    (f g : ℕ → ℕ) → ((k : ℕ) → f k ≡ g k) → (start n : ℕ) → sum_from f start n ≡ sum_from g start n
unfolding sum_from
sum_from-same f g h start zero = refl
sum_from-same f g h start (suc n) = ap₂ ◌+◌ (h start) (sum_from-same f g h (suc start) n)

mean-same :
    (c : Channel) (size radius : ℕ) (px py : ℕ → ℕ) (k : ℕ)
    → 0 < size
    → ((l : ℕ) → l < size → px l ≡ py l)
    → mean c size radius px k ≡ mean c size radius py k
mean-same c size radius px py k filled h =
    ap (λ t. t / (radius * 2))
      (sum_from-same (line_bytes c size radius px) (line_bytes c size radius py)
        (λ l. ap (channel c) (h (clamped size radius l) (omega arith))) (suc k) (radius * 2))

pub mean_pixel-same :
    (size radius : ℕ) (px py : ℕ → ℕ) (k : ℕ)
    → 0 < size
    → ((l : ℕ) → l < size → px l ≡ py l)
    → mean_pixel size radius px k ≡ mean_pixel size radius py k
mean_pixel-same size radius px py k filled h =
    let r = mean-same Channel.red size radius px py k filled h in
    let g = mean-same Channel.green size radius px py k filled h in
    let b = mean-same Channel.blue size radius px py k filled h in rw (r, g, b) refl

-- Blurred along its columns and then along its rows, an image has at every pixel, channel by channel,
-- the mean over 2 * radius pixels of its row of the means over 2 * radius pixels of their columns,
-- where the outermost pixels go on past the edges. The radius is the power of two that `radius_log2`
-- says and at most 2 ^ 20, and the two targets have room for the image.
pub fast_blur_lem :
    (target interim src : List ℕ) (width height start end radius radius_log2 x y : ℕ)
    → radius ≡ 2 ^ radius_log2
    → radius ≤ 2 ^ 20
    → width * height ≤ length target
    → width * height ≤ length interim
    → x < width
    → start ≤ y
    → y < end
    → end ≤ height
    → get_or
        (fast_blur_H target
          (fast_blur_V interim src width height 0 width radius radius_log2)
          width
          height
          start
          end
          radius
          radius_log2)
        (x + y * width)
        0
      ≡ mean_pixel width radius
          (λ k. mean_pixel height radius (λ j. get_or src (k + j * width) 0) y)
          x
unfolding fast_blur_V fast_blur_H
fast_blur_lem target interim src width height start end radius radius_log2 x y exact small room
      room' hx a b c =
    let v = vertical width height radius radius_log2 in
    let h = horizontal width height radius radius_log2 in
    let total = width * height in
    let columns = fast_blur_V interim src width height 0 width radius radius_log2 in
    blur_lines-hit h height total (horizontal-IsLaidOut width height radius radius_log2) columns
      (end - start) start target y x (omega arith) a (omega arith) hx room
    ∙ blurred-mean h columns y x
        (horizontal-IsPass width height radius radius_log2 exact small (omega arith)) hx
    ∙ mean_pixel-same width radius (λ k. get_or columns (k + y * width) 0)
        (λ k. mean_pixel height radius (λ j. get_or src (k + j * width) 0) y) x (omega arith)
        (λ k low.
          blur_lines-hit v width total (vertical-IsLaidOut width height radius radius_log2) src
            (width - 0) 0 interim k y (omega arith) (omega arith) (omega arith) (omega arith) room'
          ∙ blurred-mean v src k y
              (vertical-IsPass width height radius radius_log2 exact small (omega arith))
              (omega arith))
