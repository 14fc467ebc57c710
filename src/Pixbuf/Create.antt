-- ===== src/Pixbuf/Create.antt =====
-- The whole loading of an image as a cairo surface, its failures included.
use swaylock.Base.{
  ℕ, ◌≤◌, ◌<◌, ◌≡◌, refl, sym, subst, ◌⊎◌, inl, inr, Bool, Option, none, some, List, arith, ltb,
  ◌==◌, if◌then◌else◌, ltb→lt, ==_iff, Bool-cases, Option-cases, All,
}
use swaylock.Pixbuf.{
  GdkPixbuf, Format, CairoSurface, filled, load_background_image,
  gdk_cairo_image_surface_create_from_pixbuf,
}
use swaylock.Pixbuf.Shows.{IsByte, IsNew, Shows, filled-rgb, filled-rgba}

abbrev format_of : GdkPixbuf → Format
format_of buf = if buf.n_channels == 3 then Format.rgb24 else Format.argb32

-- The outcome of the conversion: nothing, for one of three reasons, or a surface that shows the image.
pub data Conversion (little : Bool) (create : Format → ℕ → ℕ → Option CairoSurface)
    (buf : GdkPixbuf) : Option CairoSurface → Type 0 where
  few_channels : buf.n_channels < 3 → Conversion little create buf none
  no_pixels : buf.pixels ≡ none → Conversion little create buf none
  no_surface :
      create (format_of buf) buf.width buf.height ≡ none → Conversion little create buf none
  shown :
      {gdkpix : List ℕ} {old cs : CairoSurface}
      → 3 ≤ buf.n_channels
      → buf.pixels ≡ some gdkpix
      → create (format_of buf) buf.width buf.height ≡ some old
      → cs.stride ≡ old.stride
      → cs.format ≡ old.format
      → Shows little buf gdkpix old.bytes cs
      → Conversion little create buf (some cs)

filled-Shows :
    (little : Bool) (buf : GdkPixbuf) (gdkpix : List ℕ) (cs : CairoSurface)
    → IsNew buf.width buf.height cs
    → 3 ≤ buf.n_channels
    → buf.n_channels ≤ 4
    → All IsByte gdkpix
    → Shows little buf gdkpix cs.bytes (filled little buf gdkpix cs)
filled-Shows little buf gdkpix cs new low high bytes = elim (Bool-cases (buf.n_channels == 3)) [
  | inl e ↦ filled-rgb little buf gdkpix cs new ((==_iff buf.n_channels 3).0 e) bytes
  | inr e ↦ filled-rgba little buf gdkpix cs new (ground arith) bytes
]

create_from_pixbuf-Conversion :
    (little : Bool) (create : Format → ℕ → ℕ → Option CairoSurface) (buf : GdkPixbuf)
    → ((format : Format) (w h : ℕ) (cs : CairoSurface) → create format w h ≡ some cs → IsNew w h cs)
    → buf.n_channels ≤ 4
    → ((gdkpix : List ℕ) → buf.pixels ≡ some gdkpix → All IsByte gdkpix)
    → Conversion little create buf (gdk_cairo_image_surface_create_from_pixbuf little create buf)
unfolding gdk_cairo_image_surface_create_from_pixbuf filled
create_from_pixbuf-Conversion little create buf new few bytes =
    elim (Bool-cases (ltb buf.n_channels 3)) [
      | inl e ↦ by (rw e) (few_channels (ltb→lt buf.n_channels 3 e))
      | inr e ↦ elim (Option-cases buf.pixels) [
        | inl p ↦ by (rw (e, p)) (no_pixels p)
        | inr (gdkpix, p) ↦ elim (Option-cases (create (format_of buf) buf.width buf.height)) [
          | inl c ↦ by (rw (e, p, c)) (no_surface c)
          | inr (cs, c) ↦ by (rw (e, p, c)) (
              shown (ground arith) p c refl refl (
                filled-Shows little buf gdkpix cs (new (format_of buf) buf.width buf.height cs c)
                  (ground arith) few (bytes gdkpix p)))
        ]
      ]
    ]
  where
    by :
        {result : Option CairoSurface}
        → gdk_cairo_image_surface_create_from_pixbuf little create buf ≡ result
        → Conversion little create buf result
        → Conversion little create buf
            (gdk_cairo_image_surface_create_from_pixbuf little create buf)
    by e = subst (Conversion little create buf) (sym e)

-- The loading of a background image on a machine of either byte order, where the rows of cairo's new
-- surfaces hold their pixels and a decoded image has at most four channels and holds bytes: a file that cannot be
-- decoded gives no surface, and an image none exactly for a lack of channels, of pixels or of a
-- surface of cairo's; otherwise every pixel of the surface, as a native word, is 0xrrggbb in its lower 24
-- bits, or with alpha the alpha and the colours times alpha over 255 to the nearest number, and the rest
-- of every row is left as it was.
pub load_background_image-Conversion :
    (new_from_file : List ℕ → Option GdkPixbuf) (little : Bool)
    (create : Format → ℕ → ℕ → Option CairoSurface) (path : List ℕ)
    → ((format : Format) (w h : ℕ) (cs : CairoSurface) → create format w h ≡ some cs → IsNew w h cs)
    → ((buf : GdkPixbuf) → new_from_file path ≡ some buf → buf.n_channels ≤ 4)
    → ((buf : GdkPixbuf) (gdkpix : List ℕ)
        → new_from_file path ≡ some buf
        → buf.pixels ≡ some gdkpix
        → All IsByte gdkpix)
    → (new_from_file path ≡ none) × (load_background_image new_from_file little create path ≡ none)
      ⊎ ((buf : GdkPixbuf) × (new_from_file path ≡ some buf)
          × Conversion little create buf (load_background_image new_from_file little create path))
unfolding load_background_image
load_background_image-Conversion new_from_file little create path new few bytes =
    go (new_from_file path) refl
  where
    result : Option GdkPixbuf → Option CairoSurface
    result none = none
    result (some buf) = gdk_cairo_image_surface_create_from_pixbuf little create buf

    go :
        (found : Option GdkPixbuf)
        → new_from_file path ≡ found
        → (found ≡ none) × (result found ≡ none)
          ⊎ ((buf : GdkPixbuf) × (found ≡ some buf) × Conversion little create buf (result found))
    go none e = inl (refl, refl)
    go (some buf) e = inr (
      buf,
      refl,
      create_from_pixbuf-Conversion little create buf new (few buf e)
          (λ gdkpix. bytes buf gdkpix e),
    )
