-- ===== src/Screenshot/Load.antt =====
-- The rest of `load_background_screenshot` (background-screenshot.c): the captured image is copied
-- upside down, blurred by the threads and given to cairo. What the allocator leaves in the two images
-- is an argument; `(int)log2(radius)` is exact for numbers of this size.
use swaylock.Base.{
  ℕ, zero, suc, ◌+◌, ◌-◌, ◌*◌, ◌/◌, ◌^◌, ◌≤◌, ◌<◌, ◌≡◌, refl, sym, ap, ◌∙◌, false, List, arith, ltb,
  if◌then◌else◌, length, get_or,
}
use native.Mathlib.Nat.{pow-succ', one-le-pow, pow-le-pow_right}
use swaylock.Descriptors.Shm.{ShmBuffer}
use swaylock.Blur.Flip.{fast_copy_flip, fast_copy_flip_lem, length-fast_copy_flip}
use swaylock.Blur.Soften.{Picture, soften, blur-Depicts}
use swaylock.Blur.Threads.{Images, Job, Threads, Run}
use swaylock.Blur.Threads.Same.{Run-blur}

-- How often a number can be halved before it is below 2, with fuel.
unfoldable pub floor_log2 : ℕ → ℕ → ℕ
floor_log2 zero n = 0
floor_log2 (suc fuel) n = let rest = floor_log2 fuel (n / 2) in if ltb n 2 then 0 else suc rest

unfoldable pub blur_job : ShmBuffer → ℕ → Job
unfolding floor_log2
blur_job buffer scale =
    let radius = 32 * scale in
    record {
      width = buffer.width;
      height = buffer.height;
      radius = radius;
      radius_log2 = floor_log2 radius radius;
    }

-- The images before the blur; the first two lists are what `malloc` returned.
unfoldable pub blur_start : ShmBuffer → List ℕ → List ℕ → List ℕ → Images
unfolding fast_copy_flip
blur_start buffer pixels interim captured = record {
  pixels = fast_copy_flip pixels captured buffer.width buffer.height;
  interim = interim;
}

-- The arguments of `cairo_image_surface_create_for_data`.
pub record Background : Type 0 where
  pub pixels : List ℕ
  pub width : ℕ
  pub height : ℕ
  pub stride : ℕ

unfoldable pub background_of : ShmBuffer → Threads → Background
background_of buffer s = record {
  pixels = s.images.pixels;
  width = buffer.width;
  height = buffer.height;
  stride = buffer.stride;
}

-- A way that the function can end: some run of the threads, after which all are joined.
pub data Loaded (buffer : ShmBuffer) (scale num_procs : ℕ) (start : Images)
    : Background → Type 0 where
  loaded :
      {k : ℕ} {s : Threads}
      → Run (blur_job buffer scale) num_procs start k s
      → ((t : ℕ) → t < num_procs → s.passed t ≡ 6)
      → Loaded buffer scale num_procs start (background_of buffer s)

halves : (k : ℕ) → 2 ^ suc k / 2 ≡ 2 ^ k
halves k = omega (arith, pow-succ' 2 k)

floor_log2-pow : (k fuel : ℕ) → k < fuel → floor_log2 fuel (2 ^ k) ≡ k
unfolding floor_log2
floor_log2-pow k zero h = absurd (omega arith)
floor_log2-pow zero (suc fuel) h = refl
floor_log2-pow (suc k) (suc fuel) h =
    let big : ltb (2 ^ suc k) 2 ≡ false = ground (arith, pow-succ' 2 k, one-le-pow k 2) in
    rw (big, halves k) (ap suc (floor_log2-pow k fuel (omega arith)))

below_pow : (k : ℕ) → k < 2 ^ k
below_pow zero = omega arith
below_pow (suc k) = omega (arith, below_pow k, pow-succ' 2 k)

-- The captured image of rows of `stride` bytes, four to a pixel, upside down.
abbrev pub flipped : ShmBuffer → List ℕ → Picture
flipped buffer captured x y = get_or captured (x + (buffer.height - y - 1) * (buffer.stride / 4)) 0

-- The radius is a power of two, of which `radius_log2` is the exponent.
radius_pow : (e : ℕ) → 32 * 2 ^ e ≡ 2 ^ suc (suc (suc (suc (suc e))))
radius_pow e = omega (
  arith,
  pow-succ' 2 e,
  pow-succ' 2 (suc e),
  pow-succ' 2 (suc (suc e)),
  pow-succ' 2 (suc (suc (suc e))),
  pow-succ' 2 (suc (suc (suc (suc e)))),
)

radius_exact : (e : ℕ) → 32 * 2 ^ e ≡ 2 ^ floor_log2 (32 * 2 ^ e) (32 * 2 ^ e)
radius_exact e =
    let n = suc (suc (suc (suc (suc e)))) in
    rw (radius_pow e) (ap (λ k. 2 ^ k) (sym (floor_log2-pow n (2 ^ n) (below_pow n))))

radius_small : (e : ℕ) → e ≤ 15 → 32 * 2 ^ e ≤ 2 ^ 20
radius_small e h =
    let below : 2 ^ e ≤ 2 ^ 15 = pow-le-pow_right (omega arith) h in omega (arith, below)

-- However the threads take turns and whatever the allocator left in memory, where the rows of the captured
-- buffer are not padded (`stride` is four bytes to a pixel), the scale of the output is a power of two
-- and not above 2 ^ 15, the images have room for the pixels and there is a processor, every pixel of
-- the background, read with the stride that cairo gets, is that of three means along columns and three
-- along rows of the captured image, upside down.
pub Loaded-Depicts :
    (buffer : ShmBuffer) (e scale num_procs : ℕ) (pixels interim captured : List ℕ)
    (bg : Background)
    → buffer.stride ≡ 4 * buffer.width
    → scale ≡ 2 ^ e
    → e ≤ 15
    → 0 < num_procs
    → buffer.width * buffer.height ≤ length pixels
    → buffer.width * buffer.height ≤ length interim
    → Loaded buffer scale num_procs (blur_start buffer pixels interim captured) bg
    → (x y : ℕ) → x < buffer.width
    → y < buffer.height
    → get_or bg.pixels (x + y * (bg.stride / 4)) 0
      ≡ soften (blur_job buffer scale) (flipped buffer captured) 6 x y
unfolding blur_job blur_start background_of
Loaded-Depicts buffer e scale num_procs pixels interim captured bg unpadded power small procs room
      room' (loaded {k} {s} run done) x y hx hy =
    let job = blur_job buffer scale in
    let start = blur_start buffer pixels interim captured in
    let exact : job.radius ≡ 2 ^ job.radius_log2 = rw power (radius_exact e) in
    let bounded : job.radius ≤ 2 ^ 20 = rw power (radius_small e small) in
    let sized : buffer.width * buffer.height ≤ length start.pixels =
      omega (arith, length-fast_copy_flip pixels captured buffer.width buffer.height) in
    let row : buffer.stride / 4 ≡ buffer.width = omega (arith, unpadded) in
    ap (λ w. get_or s.images.pixels (x + y * w) 0) row
    ∙ Run-blur job num_procs start k s x y procs sized room' run done hx hy
    ∙ blur-Depicts job exact bounded start (flipped buffer captured) (omega arith) (omega arith)
        (sized, room')
        (λ i j hi hj.
          (fast_copy_flip_lem pixels pixels captured buffer.width buffer.height i j room room hi
            hj).0
          ∙ ap (λ w. get_or captured (i + (buffer.height - j - 1) * w) 0) (sym row))
        x y hx hy
