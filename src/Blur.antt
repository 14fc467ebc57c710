-- ===== src/Blur.antt =====
-- The box blur of background-screenshot.c. An image is the list of its pixels, 32-bit words
-- 0xAARRGGBB, row by row; a byte of the image is a byte of a word, the lowest first.
pub mod Window
pub mod Lines
pub mod Mean
pub mod Soften
pub mod Threads
pub mod Flip
use swaylock.Base.{
  ℕ, zero, suc, ◌+◌, ◌-◌, ◌*◌, ◌/◌, ◌%◌, ◌^◌, List, ltb, leb, if◌then◌else◌, get_or, set,
}
use swaylock.Base.Words.{u32}
use Prim.Native.Nat.{bit_or}

-- The three sums that a line carries along: `r`, `g` and `b`.
pub data Channel : Type 0 where
  red green blue : Channel

-- src[idx + 2], src[idx + 1] and src[idx]
abbrev pub channel : Channel → ℕ → ℕ
channel red w = w / 2 ^ 16 % 256
channel green w = w / 2 ^ 8 % 256
channel blue w = w % 256

abbrev pub Sums : Type 0
Sums = Channel → ℕ

unfoldable pub first_sums : ℕ → ℕ → Sums
first_sums radius_log2 w c = u32 (channel c w * 2 ^ radius_log2)

unfoldable pub add_pixel : Sums → ℕ → Sums
add_pixel s w c = u32 (s c + channel c w)

unfoldable pub sub_pixel : Sums → ℕ → Sums
sub_pixel s w c = u32 (s c + 2 ^ 32 - channel c w)

-- r >> radius_log2 >> 1
abbrev pub scaled : ℕ → Sums → Channel → ℕ
scaled radius_log2 s c = s c / 2 ^ radius_log2 / 2

-- 0xFF000000 | (_r << 16) | (_g << 8) | _b
unfoldable pub packed : ℕ → ℕ → ℕ → ℕ
packed r g b = bit_or (bit_or (bit_or 0xFF000000 (u32 (r * 2 ^ 16))) (u32 (g * 2 ^ 8))) b

unfoldable pub average : ℕ → Sums → ℕ
unfolding packed
average radius_log2 s =
    packed (scaled radius_log2 s red) (scaled radius_log2 s green) (scaled radius_log2 s blue)

-- What tells the two blurs apart: which pixel leaves the window, and where the pixel `k` of the line
-- `i` stands. A line has `size` pixels.
pub record Pass : Type 0 where
  pub oldest : ℕ → ℕ
  pub at : ℕ → ℕ → ℕ
  pub size : ℕ
  pub radius : ℕ
  pub radius_log2 : ℕ

-- The sums after the round `j` of a line whose pixels are `px`.
unfoldable pub next_sums : Pass → (ℕ → ℕ) → ℕ → Sums → Sums
unfolding add_pixel sub_pixel
next_sums p px j s c =
    let entered = add_pixel s (px (if leb p.size j then p.size - 1 else j)) in
    if leb p.radius j then sub_pixel entered (px (p.oldest j)) c else entered c

-- From the round `radius` on, a round writes a pixel of the line `i`.
unfoldable pub write_pixel : Pass → ℕ → ℕ → Sums → List ℕ → List ℕ
unfolding average
write_pixel p i j s target =
    if leb p.radius j then set target (p.at i (j - p.radius)) (average p.radius_log2 s) else target

-- The inner loop: the rounds that are left, and the next one.
unfoldable pub blur_line : Pass → ℕ → List ℕ → ℕ → ℕ → Sums → List ℕ → List ℕ
unfolding next_sums write_pixel
blur_line p i src zero j s target = target
blur_line p i src (suc n) j s target =
    let s' = next_sums p (λ k. get_or src (p.at i k) 0) j s in
    blur_line p i src n (suc j) s' (write_pixel p i j s' target)

-- The outer loop, over `n` lines from `i` on.
unfoldable pub blur_lines : Pass → List ℕ → ℕ → ℕ → List ℕ → List ℕ
unfolding blur_line first_sums
blur_lines p src zero i target = target
blur_lines p src (suc n) i target = blur_lines p src n (suc i) (
    blur_line p i src (p.size + p.radius) 0 (first_sums p.radius_log2 (get_or src (p.at i 0) 0))
      target)

-- IMAGE_XY
abbrev pub image_xy : ℕ → ℕ → ℕ → ℕ
image_xy x y width = x + y * width

abbrev pub vertical : ℕ → ℕ → ℕ → ℕ → Pass
vertical width height radius radius_log2 = record {
  oldest = λ j. if leb (radius * 2) j then j - radius * 2 else 0;
  at = λ i j. image_xy i j width;
  size = height;
  radius = radius;
  radius_log2 = radius_log2;
}

abbrev pub horizontal : ℕ → ℕ → ℕ → ℕ → Pass
horizontal width height radius radius_log2 = record {
  oldest = λ i. if ltb (radius * 2) i then i - radius * 2 else 0;
  at = λ j i. image_xy i j width;
  size = width;
  radius = radius;
  radius_log2 = radius_log2;
}

unfoldable pub fast_blur_V : List ℕ → List ℕ → ℕ → ℕ → ℕ → ℕ → ℕ → ℕ → List ℕ
unfolding blur_lines
fast_blur_V target src width height start end radius radius_log2 =
    blur_lines (vertical width height radius radius_log2) src (end - start) start target

unfoldable pub fast_blur_H : List ℕ → List ℕ → ℕ → ℕ → ℕ → ℕ → ℕ → ℕ → List ℕ
unfolding blur_lines
fast_blur_H target src width height start end radius radius_log2 =
    blur_lines (horizontal width height radius radius_log2) src (end - start) start target
