-- ===== src/Pixbuf.antt =====
-- The conversion of a decoded image into a cairo surface (cairo.c), on memory as a list of bytes;
-- pointers are offsets. The image, cairo's surfaces and the byte order of the machine are
-- arguments.
pub mod Premul
pub mod Rows
pub mod Pixels
pub mod Shows
pub mod Create
use swaylock.Base.{
  ℕ, zero, suc, ◌+◌, ◌*◌, ◌/◌, ◌^◌, Bool, true, false, Option, none, some, List, ltb, ◌==◌,
  if◌then◌else◌, get_or, set,
}

-- What the getters of a `GdkPixbuf` return; `none` for the pixels is NULL.
pub record GdkPixbuf : Type 0 where
  pub n_channels : ℕ
  pub pixels : Option (List ℕ)
  pub width : ℕ
  pub height : ℕ
  pub rowstride : ℕ

pub data Format : Type 0 where
  rgb24 : Format
  argb32 : Format

-- A cairo image surface: its row length in bytes, and its memory.
pub record CairoSurface : Type 0 where
  pub format : Format
  pub stride : ℕ
  pub bytes : List ℕ

-- `cp[k] = value`
abbrev pub store : List ℕ → ℕ → ℕ → ℕ → List ℕ
store memory cp k value = set memory (cp + k) value

abbrev pub load : List ℕ → ℕ → ℕ → ℕ
load memory gp k = get_or memory (gp + k) 0

-- PREMUL_ALPHA
unfoldable pub premul_alpha : ℕ → ℕ → ℕ
premul_alpha a b = let z = a * b + 0x80 in (z + z / 2 ^ 8) / 2 ^ 8

-- One pixel of three bytes, on a little-endian machine and on a big-endian one.
unfoldable pub rgb_pixel : Bool → List ℕ → ℕ → List ℕ → ℕ → List ℕ
rgb_pixel true gdkpix gp cpix cp =
    let c0 = store cpix cp 0 (load gdkpix gp 2) in
    let c1 = store c0 cp 1 (load gdkpix gp 1) in store c1 cp 2 (load gdkpix gp 0)
rgb_pixel false gdkpix gp cpix cp =
    let c1 = store cpix cp 1 (load gdkpix gp 0) in
    let c2 = store c1 cp 2 (load gdkpix gp 1) in store c2 cp 3 (load gdkpix gp 2)

-- One pixel with its alpha.
unfoldable pub rgba_pixel : Bool → List ℕ → ℕ → List ℕ → ℕ → List ℕ
unfolding premul_alpha
rgba_pixel true gdkpix gp cpix cp =
    let alpha = load gdkpix gp 3 in
    let c0 = store cpix cp 0 (premul_alpha (load gdkpix gp 2) alpha) in
    let c1 = store c0 cp 1 (premul_alpha (load gdkpix gp 1) alpha) in
    let c2 = store c1 cp 2 (premul_alpha (load gdkpix gp 0) alpha) in store c2 cp 3 alpha
rgba_pixel false gdkpix gp cpix cp =
    let alpha = load gdkpix gp 3 in
    let c1 = store cpix cp 1 (premul_alpha (load gdkpix gp 0) alpha) in
    let c2 = store c1 cp 2 (premul_alpha (load gdkpix gp 1) alpha) in
    let c3 = store c2 cp 3 (premul_alpha (load gdkpix gp 2) alpha) in store c3 cp 0 alpha

-- The loop over a row, `while (gp < end)`, for both branches: `step` bytes are read for a pixel,
-- four are written. `end` lies `step` bytes on for every pixel left.
unfoldable pub convert_row :
    ℕ → (List ℕ → ℕ → List ℕ → ℕ → List ℕ) → ℕ → List ℕ → ℕ → List ℕ → ℕ → List ℕ
convert_row step pixel zero gdkpix gp cpix cp = cpix
convert_row step pixel (suc left) gdkpix gp cpix cp =
    convert_row step pixel left gdkpix (gp + step) (pixel gdkpix gp cpix cp) (cp + 4)

-- The loop over the rows, `for (i = h; i; --i)`.
unfoldable pub convert_rows :
    ℕ → (List ℕ → ℕ → List ℕ → ℕ → List ℕ) → ℕ → ℕ → ℕ → ℕ → List ℕ → ℕ → List ℕ → ℕ → List ℕ
unfolding convert_row
convert_rows step pixel w stride cstride zero gdkpix gp cpix cp = cpix
convert_rows step pixel w stride cstride (suc i) gdkpix gp cpix cp =
    convert_rows step pixel w stride cstride i gdkpix (gp + stride)
      (convert_row step pixel w gdkpix gp cpix cp) (cp + cstride)

-- The new surface, with the pixels in it.
unfoldable pub filled : Bool → GdkPixbuf → List ℕ → CairoSurface → CairoSurface
unfolding convert_rows rgb_pixel rgba_pixel
filled little gdkbuf gdkpix cs =
    let cpix =
      if gdkbuf.n_channels == 3
      then convert_rows 3 (rgb_pixel little) gdkbuf.width gdkbuf.rowstride cs.stride gdkbuf.height
          gdkpix 0 cs.bytes 0
      else convert_rows 4 (rgba_pixel little) gdkbuf.width gdkbuf.rowstride cs.stride gdkbuf.height
          gdkpix 0 cs.bytes 0 in
    record cs { bytes = cpix }

-- `image_surface_create` is cairo's, with `none` where the surface is not in the state of success.
unfoldable pub gdk_cairo_image_surface_create_from_pixbuf :
    Bool → (Format → ℕ → ℕ → Option CairoSurface) → GdkPixbuf → Option CairoSurface
unfolding filled
gdk_cairo_image_surface_create_from_pixbuf little image_surface_create gdkbuf =
    if ltb gdkbuf.n_channels 3 then none else elim gdkbuf.pixels [
      | none ↦ none
      | some gdkpix ↦
          elim (image_surface_create
            (if gdkbuf.n_channels == 3 then Format.rgb24 else Format.argb32) gdkbuf.width
            gdkbuf.height) [ none ↦ none | some cs ↦ some (filled little gdkbuf gdkpix cs) ]
    ]

-- background-image.c, with gdk-pixbuf; `new_from_file` is `gdk_pixbuf_new_from_file`. The status of
-- the surface, which is tested again, is as the conversion found it.
unfoldable pub load_background_image :
    (List ℕ → Option GdkPixbuf)
    → Bool
    → (Format → ℕ → ℕ → Option CairoSurface)
    → List ℕ
    → Option CairoSurface
unfolding gdk_cairo_image_surface_create_from_pixbuf
load_background_image new_from_file little image_surface_create path = elim (new_from_file path) [
  | none ↦ none
  | some pixbuf ↦ gdk_cairo_image_surface_create_from_pixbuf little image_surface_create pixbuf
]
