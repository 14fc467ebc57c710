-- ===== src/Image/Names.antt =====
-- Which image an output gets after an image option (main.c, `load_image` and `select_image`).
use swaylock.Base.{
  ℕ, ◌≡◌, refl, sym, ap, ap₂, ◌∙◌, inl, inr, true, false, Option, none, some, List, [], ◌∷◌, ◌==◌,
  if◌then◌else◌, ==_iff, Bool-cases,
}
use swaylock.Image.{
  Image, Files, text_eq, lenient_eq, default_of, select_from, select_image, replace_image,
  add_image, expand_path, load_image, parse_image,
}

text_eq→eq : (s t : List ℕ) → text_eq s t ≡ true → s ≡ t
unfolding text_eq
text_eq→eq [] [] h = refl
text_eq→eq [] (c ∷ t) h = cc
text_eq→eq (b ∷ s) [] h = cc
text_eq→eq (b ∷ s) (c ∷ t) h = elim (Bool-cases (b == c)) [
  | inl e ↦ ap₂ ◌∷◌ ((==_iff b c).0 e) (text_eq→eq s t (rw e at h))
  | inr e ↦ absurd (false-ne-true (rw e at h))
]
  where
    false-ne-true : false ≡ true → ⊥
    false-ne-true q = cc

text_eq-same : (s : List ℕ) → text_eq s s ≡ true
unfolding text_eq
text_eq-same [] = refl
text_eq-same (b ∷ s) = rw ((==_iff b b).1 refl) (text_eq-same s)

lenient_eq→eq : (a : Option (List ℕ)) (t : List ℕ) → lenient_eq a (some t) ≡ true → a ≡ some t
unfolding lenient_eq
lenient_eq→eq none t h = cc
lenient_eq→eq (some s) t h = ap some (text_eq→eq s t h)

-- Taking the image of one output out changes nothing for another output.
select_from-replace_image :
    (images : List Image) (name : List ℕ) (out : Option (List ℕ)) (d : Option ℕ)
    → lenient_eq (some name) out ≡ false
    → select_from (replace_image (some name) images) out d ≡ select_from images out d
unfolding select_from replace_image
select_from-replace_image [] name out d h = refl
select_from-replace_image (image ∷ images) name out d h =
    elim (Bool-cases (lenient_eq image.output_name (some name))) [
      | inl e ↦
          let q = lenient_eq→eq image.output_name name e in
          let other : lenient_eq image.output_name out ≡ false = ap (λ n. lenient_eq n out) q ∙ h in
          rw (e, other)
            (ap (λ n. select_from images out (default_of n image.cairo_surface d)) (sym q))
      | inr e ↦ rw e (
          ap (λ r. if lenient_eq image.output_name out then some image.cairo_surface else r)
            (select_from-replace_image images name out
              (default_of image.output_name image.cairo_surface d) h))
    ]

lenient_eq-same : (name : List ℕ) → lenient_eq (some name) (some name) ≡ true
unfolding lenient_eq
lenient_eq-same name = text_eq-same name

select_from-here :
    (image : Image) (images : List Image) (out : Option (List ℕ)) (d : Option ℕ)
    → lenient_eq image.output_name out ≡ true
    → select_from (image ∷ images) out d ≡ some image.cairo_surface
unfolding select_from
select_from-here image images out d h = rw h refl

select_from-past :
    (image : Image) (images : List Image) (out : Option (List ℕ)) (d : Option ℕ) (name : List ℕ)
    → image.output_name ≡ some name
    → lenient_eq (some name) out ≡ false
    → select_from (image ∷ images) out d ≡ select_from images out d
unfolding select_from
select_from-past image images out d name q h =
    let other : lenient_eq image.output_name out ≡ false = ap (λ n. lenient_eq n out) q ∙ h in
    rw other (ap (λ n. select_from images out (default_of n image.cairo_surface d)) q)

load_image-parsed :
    (files : Files) (arg : List ℕ) (images : List Image) (name : Option (List ℕ)) (p : List ℕ)
    → parse_image arg ≡ (name, p)
    → load_image files arg images
      ≡ add_image files name (expand_path files p) (replace_image name images)
unfolding load_image
load_image-parsed files arg images name p h =
    ap (λ q. add_image files q.0 (expand_path files q.1) (replace_image q.0 images)) h

add_image-loaded :
    (files : Files) (name : Option (List ℕ)) (path : List ℕ) (surface : ℕ) (images : List Image)
    → files.load_background_image path ≡ some surface
    → add_image files name (some path) images
      ≡ record { path = path; output_name = name; cairo_surface = surface } ∷ images
unfolding add_image
add_image-loaded files name path surface images h = ap result h
  where
    result : Option ℕ → List Image
    result none = images
    result (some surface) =
        record { path = path; output_name = name; cairo_surface = surface } ∷ images

-- Let an option name an output, and let its file load. Then `select_image` gives the output that
-- image, whatever images there were, and every other output what it had before.
pub select_image-load_image :
    (files : Files) (arg name p path : List ℕ) (surface : ℕ) (images : List Image)
    (out : Option (List ℕ))
    → parse_image arg ≡ (some name, p)
    → expand_path files p ≡ some path
    → files.load_background_image path ≡ some surface
    → lenient_eq (some name) out ≡ false
    → let images' = load_image files arg images in
      (select_image images' (some name) ≡ some surface)
      × (select_image images' out ≡ select_image images out)
unfolding select_image
select_image-load_image files arg name p path surface images out parsed expanded loaded other =
    let image : Image = record { path = path; output_name = some name; cairo_surface = surface } in
    let rest = replace_image (some name) images in
    let whole : load_image files arg images ≡ image ∷ rest =
      load_image-parsed files arg images (some name) p parsed
      ∙ (ap (λ e. add_image files (some name) e rest) expanded
          ∙ add_image-loaded files (some name) path surface rest loaded) in
    (
      ap (λ l. select_from l (some name) none) whole
          ∙ select_from-here image rest (some name) none (lenient_eq-same name),
      ap (λ l. select_from l out none) whole
          ∙ (select_from-past image rest out none name refl other
              ∙ select_from-replace_image images name out none other),
    )
