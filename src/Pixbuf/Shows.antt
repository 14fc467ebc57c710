-- ===== src/Pixbuf/Shows.antt =====
-- What the surface made from an image shows.
use swaylock.Base.{
  ℕ, zero, suc, ◌+◌, ◌*◌, ◌%◌, ◌^◌, ◌≤◌, ◌<◌, ◌≡◌, refl, ap, ◌∙◌, Bool, true, false, List, [], ◌∷◌,
  arith, ◌==◌, if◌then◌else◌, ==_iff, length, get_or, All,
}
use swaylock.Pixbuf.{
  GdkPixbuf, CairoSurface, load, premul_alpha, convert_rows, rgb_pixel, rgba_pixel, filled,
}
use swaylock.Pixbuf.Premul.{over_255, premul_alpha_lem}
use swaylock.Pixbuf.Pixels.{
  place, rgb_value, rgba_value, rgb_pixel-WritesPixel, rgba_pixel-WritesPixel,
}
use swaylock.Pixbuf.Rows.{WritesPixel, rows-here, rows-padding}

-- Four bytes as a number, in the byte order of the machine.
unfoldable pub word : Bool → List ℕ → ℕ → ℕ
word little memory p =
    load memory p (place little 0)
    + load memory p (place little 1) * 2 ^ 8
    + load memory p (place little 2) * 2 ^ 16
    + load memory p (place little 3) * 2 ^ 24

abbrev pub IsByte : ℕ → Type 0
IsByte b = b < 256

-- The colour that cairo documents for a pixel: 0xrrggbb without alpha; with it, the alpha and the colours
-- times alpha over 255, to the nearest number.
unfoldable pub pixel_of : GdkPixbuf → List ℕ → ℕ → ℕ → ℕ
pixel_of gdkbuf gdkpix x y =
    let at = y * gdkbuf.rowstride + x * gdkbuf.n_channels in
    let r = load gdkpix at 0 in
    let g = load gdkpix at 1 in
    let b = load gdkpix at 2 in
    let a = load gdkpix at 3 in
    if gdkbuf.n_channels == 3
    then r * 2 ^ 16 + g * 2 ^ 8 + b
    else a * 2 ^ 24 + over_255 (r * a) * 2 ^ 16 + over_255 (g * a) * 2 ^ 8 + over_255 (b * a)

-- The bits of a native word that cairo reads: the upper eight of RGB24 are unused.
abbrev pub used_bits : GdkPixbuf → ℕ → ℕ
used_bits gdkbuf w = if gdkbuf.n_channels == 3 then w % 2 ^ 24 else w

-- cairo: the rows of a new image surface hold their pixels. What they hold is not known.
abbrev pub IsNew : ℕ → ℕ → CairoSurface → Type 0
IsNew w h cs = (4 * w ≤ cs.stride) × (length cs.bytes ≡ h * cs.stride)

-- Every pixel of the image is in its place, and the rest of every row is as in the memory before.
abbrev pub Shows : Bool → GdkPixbuf → List ℕ → List ℕ → CairoSurface → Type 0
Shows little gdkbuf gdkpix before cs =
    ((x y : ℕ)
      → x < gdkbuf.width
      → y < gdkbuf.height
      → used_bits gdkbuf (word little cs.bytes (y * cs.stride + 4 * x))
        ≡ pixel_of gdkbuf gdkpix x y)
    × ((y q : ℕ)
        → 4 * gdkbuf.width ≤ q
        → q < cs.stride
        → load cs.bytes (y * cs.stride) q ≡ load before (y * cs.stride) q)

place-place : (little : Bool) (k : ℕ) → k < 4 → place little (place little k) ≡ k
place-place true k h = refl
place-place false k h = omega arith

place-small : (little : Bool) (k : ℕ) → k < 4 → place little k < 4
place-small true k h = h
place-small false k h = omega arith

byte-below : (gdkpix : List ℕ) (i : ℕ) → All IsByte gdkpix → get_or gdkpix i 0 < 256
byte-below [] i h = omega arith
byte-below (b ∷ bs) zero (h, hs) = h
byte-below (b ∷ bs) (suc i) (h, hs) = byte-below bs i hs

module _ (little : Bool) (buf : GdkPixbuf) (gdkpix : List ℕ) (cs : CairoSurface)
    (new : IsNew buf.width buf.height cs) where
  module _ (step : ℕ) (pixel : List ℕ → ℕ → List ℕ → ℕ → List ℕ) (value : List ℕ → ℕ → ℕ → ℕ → ℕ)
      (laws : WritesPixel pixel (λ src gp k old. value src gp (place little k) old)) where
    abbrev after : List ℕ
    after = convert_rows step pixel buf.width buf.rowstride cs.stride buf.height gdkpix 0 cs.bytes 0

    abbrev old_byte : ℕ → ℕ → ℕ → ℕ
    old_byte x y k = get_or cs.bytes (y * cs.stride + 4 * x + place little k) 0

    byte-here :
        (x y k : ℕ)
        → x < buf.width
        → y < buf.height
        → k < 4
        → load after (y * cs.stride + 4 * x) (place little k)
          ≡ value gdkpix (y * buf.rowstride + x * step) k (old_byte x y k)
    byte-here x y k bx by small =
        rows-here step pixel _ laws buf.width buf.rowstride cs.stride (new.0) buf.height gdkpix 0
          cs.bytes 0 x y (place little k) (y * cs.stride + 4 * x + place little k)
          (y * buf.rowstride + x * step) (omega arith) (omega arith) bx by
          (place-small little k small) (omega (arith, new.1))
        ∙ ap (λ i. value gdkpix (y * buf.rowstride + x * step) i (old_byte x y k))
            (place-place little k small)

    word-here :
        (x y : ℕ)
        → x < buf.width
        → y < buf.height
        → word little after (y * cs.stride + 4 * x) ≡ (
            let g = y * buf.rowstride + x * step in
            value gdkpix g 0 (old_byte x y 0)
            + value gdkpix g 1 (old_byte x y 1) * 2 ^ 8
            + value gdkpix g 2 (old_byte x y 2) * 2 ^ 16
            + value gdkpix g 3 (old_byte x y 3) * 2 ^ 24)
    unfolding word
    word-here x y bx by = rw (
      byte-here x y 0 bx by (omega arith),
      byte-here x y 1 bx by (omega arith),
      byte-here x y 2 bx by (omega arith),
      byte-here x y 3 bx by (omega arith),
    )

    padding-kept :
        (y q : ℕ)
        → 4 * buf.width ≤ q
        → q < cs.stride
        → load after (y * cs.stride) q ≡ load cs.bytes (y * cs.stride) q
    padding-kept y q low high =
        rows-padding step pixel _ laws buf.width buf.rowstride cs.stride (new.0) buf.height gdkpix 0
          cs.bytes 0 y q (y * cs.stride + q) (omega arith) low high

  pub filled-rgb :
      buf.n_channels ≡ 3
      → All IsByte gdkpix
      → Shows little buf gdkpix cs.bytes (filled little buf gdkpix cs)
  unfolding filled pixel_of
  filled-rgb e bytes =
      let is_rgb : (buf.n_channels == 3) ≡ true = (==_iff buf.n_channels 3).1 e in
      (
        λ x y bx by.
            rw (is_rgb, e)
              (let at = y * buf.rowstride + x * 3 in
                ap (λ n. n % 2 ^ 24)
                  (word-here 3 (rgb_pixel little) rgb_value (rgb_pixel-WritesPixel little) x y bx
                    by)
                ∙ omega (
                  arith,
                  byte-below gdkpix (at + 0) bytes,
                  byte-below gdkpix (at + 1) bytes,
                  byte-below gdkpix (at + 2) bytes,
                )),
        λ y q low high. rw is_rgb (
            padding-kept 3 (rgb_pixel little) rgb_value (rgb_pixel-WritesPixel little) y q low
              high),
      )

  blended :
      (g k : ℕ)
      → All IsByte gdkpix
      → premul_alpha (load gdkpix g k) (load gdkpix g 3)
        ≡ over_255 (load gdkpix g k * load gdkpix g 3)
  blended g k bytes =
      premul_alpha_lem (load gdkpix g k) (load gdkpix g 3) (byte-below gdkpix (g + k) bytes)
        (byte-below gdkpix (g + 3) bytes)

  pub filled-rgba :
      buf.n_channels ≡ 4
      → All IsByte gdkpix
      → Shows little buf gdkpix cs.bytes (filled little buf gdkpix cs)
  unfolding filled pixel_of
  filled-rgba e bytes =
      let not_rgb : (buf.n_channels == 3) ≡ false = ground arith in
      (
        λ x y bx by.
            rw (not_rgb, e)
              (word-here 4 (rgba_pixel little) rgba_value (rgba_pixel-WritesPixel little) x y bx by
                ∙ (let at = y * buf.rowstride + x * 4 in
                    omega (arith, blended at 0 bytes, blended at 1 bytes, blended at 2 bytes))),
        λ y q low high. rw not_rgb (
            padding-kept 4 (rgba_pixel little) rgba_value (rgba_pixel-WritesPixel little) y q low
              high),
      )
