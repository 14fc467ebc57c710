-- ===== src/Tests/Pixels.antt =====
-- Examples for the conversion of an image and for colours.
use swaylock.Base.{
  ℕ, ◌+◌, ◌*◌, ◌≤◌, ◌≡◌, sym, subst, ◌⊎◌, inl, inr, true, Option, none, some, List, [], ◌∷◌, arith,
  replicate, All, length-replicate,
}
use mathlib.Core.Option.{some-injective}
use swaylock.Color.{parse_color}
use swaylock.Color.Parse.{IsDigit, hashed}
use swaylock.Color.Channels.{cairo_set_source_u32, cairo_set_source_u32-parse_color}
use swaylock.Pixbuf.{GdkPixbuf, Format, CairoSurface, load_background_image}
use swaylock.Pixbuf.Shows.{IsByte, IsNew}
use swaylock.Pixbuf.Create.{Conversion, load_background_image-Conversion}

-- One half-transparent pixel in each of two rows, with two bytes of padding behind a row.
abbrev two_rows : List ℕ
two_rows = 200 ∷ 100 ∷ 50 ∷ 128 ∷ 9 ∷ 9 ∷ 255 ∷ 1 ∷ 2 ∷ 3 ∷ []

abbrev small_image : GdkPixbuf
small_image = record {
  n_channels = 4;
  pixels = some two_rows;
  width = 1;
  height = 2;
  rowstride = 6;
}

-- A surface whose rows are four bytes longer than their pixels.
abbrev new_surface : Format → ℕ → ℕ → Option CairoSurface
new_surface format w h =
    some (record { format = format; stride = 4 * w + 4; bytes = replicate (h * (4 * w + 4)) 7 })

new_surface-IsNew :
    (format : Format) (w h : ℕ) (cs : CairoSurface)
    → new_surface format w h ≡ some cs
    → IsNew w h cs
new_surface-IsNew format w h cs e =
    subst (IsNew w h) (some-injective _ cs e) (omega arith, length-replicate (h * (4 * w + 4)) 7)

-- The files that can be decoded: all, as the small image.
abbrev all_files : List ℕ → Option GdkPixbuf
all_files path = some small_image

channels_in_range : (buf : GdkPixbuf) → all_files [] ≡ some buf → buf.n_channels ≤ 4
channels_in_range buf e =
    subst (λ (b : GdkPixbuf). b.n_channels ≤ 4) (some-injective small_image buf e) (omega arith)

bytes_in_range :
    (buf : GdkPixbuf) (gdkpix : List ℕ)
    → all_files [] ≡ some buf
    → buf.pixels ≡ some gdkpix
    → All IsByte gdkpix
bytes_in_range buf gdkpix e p =
    subst (All IsByte)
      (some-injective two_rows gdkpix (
        subst (λ (b : GdkPixbuf). b.pixels ≡ some gdkpix) (sym (some-injective small_image buf e))
          p))
      bytes
  where
    bytes : All IsByte two_rows
    bytes = (
      omega arith,
      (
        omega arith,
        (
          omega arith,
          (
            omega arith,
            (
              omega arith,
              (omega arith, (omega arith, (omega arith, (omega arith, (omega arith, tt))))),
            ),
          ),
        ),
      ),
    )

load_background_image-Conversion_example :
    (all_files [] ≡ none) × (load_background_image all_files true new_surface [] ≡ none)
    ⊎ ((buf : GdkPixbuf) × (all_files [] ≡ some buf)
        × Conversion true new_surface buf (load_background_image all_files true new_surface []))
load_background_image-Conversion_example =
    load_background_image-Conversion all_files true new_surface [] new_surface-IsNew
      channels_in_range bytes_in_range

-- #fF8000, with the alpha 0x7F.
cairo_set_source_u32-parse_color_example :
    cairo_set_source_u32
      (parse_color (hashed true (b'f' ∷ b'F' ∷ b'8' ∷ b'0' ∷ b'0' ∷ b'0' ∷ b'7' ∷ b'F' ∷ [])))
    ≡ record { red = 255; green = 128; blue = 0; alpha = 127 }
cairo_set_source_u32-parse_color_example =
    cairo_set_source_u32-parse_color true b'f' b'F' b'8' b'0' b'0' b'0' (some (b'7', b'F')) (
      lower,
      (
        upper,
        (
          inl (omega arith, omega arith),
          (
            inl (omega arith, omega arith),
            (
              inl (omega arith, omega arith),
              (inl (omega arith, omega arith), (inl (omega arith, omega arith), (upper, tt))),
            ),
          ),
        ),
      ),
    )
  where
    lower : IsDigit b'f'
    lower = inr (inl (omega arith, omega arith))

    upper : IsDigit b'F'
    upper = inr (inr (omega arith, omega arith))
