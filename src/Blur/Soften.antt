-- ===== src/Blur/Soften.antt =====
-- What the six passes of the blur make of a picture: three means along columns and three along rows.
use swaylock.Base.{
  ℕ, zero, suc, ◌+◌, ◌-◌, ◌*◌, ◌%◌, ◌^◌, ◌≤◌, ◌<◌, ◌≡◌, ◌∙◌, inl, inr, true, false, List, arith,
  ltb, ◌==◌, if◌then◌else◌, Bool-cases, length, get_or,
}
use swaylock.Blur.{fast_blur_V, fast_blur_H, vertical, horizontal}
use swaylock.Blur.Lines.{blur_lines-hit}
use swaylock.Blur.Mean.{
  mean_pixel, mean_pixel-same, blurred-mean, vertical-IsPass, horizontal-IsPass, vertical-IsLaidOut,
  horizontal-IsLaidOut,
}
use swaylock.Blur.Threads.{Images, Job, blur, blur_passes, blur_pass, extent, fast_blur}
use swaylock.Blur.Threads.Agree.{HasRoom}
use swaylock.Blur.Threads.Phase.{stage-HasRoom}

-- A picture as a function of the column and the row.
abbrev pub Picture : Type 0
Picture = ℕ → ℕ → ℕ

abbrev pub mean_columns : Job → Picture → Picture
mean_columns a f x y = mean_pixel a.height a.radius (λ j. f x j) y

abbrev pub mean_rows : Job → Picture → Picture
mean_rows a f x y = mean_pixel a.width a.radius (λ k. f k y) x

-- The picture after the first `k` passes.
unfoldable pub soften : Job → Picture → ℕ → Picture
soften a f zero = f
soften a f (suc k) = if ltb k 3 then mean_columns a (soften a f k) else mean_rows a (soften a f k)

-- The pixels of an image are those of a picture.
abbrev pub Depicts : Job → List ℕ → Picture → Type 0
Depicts a image f =
    (x y : ℕ) → x < a.width → y < a.height → get_or image (x + y * a.width) 0 ≡ f x y

module _ (a : Job) (exact : a.radius ≡ 2 ^ a.radius_log2) (small : a.radius ≤ 2 ^ 20) where
  columns-Depicts :
      (src target : List ℕ) (f : Picture)
      → a.width * a.height ≤ length target
      → Depicts a src f
      → Depicts a
          (fast_blur_V target src a.width a.height 0 a.width a.radius a.radius_log2)
          (mean_columns a f)
  unfolding fast_blur_V
  columns-Depicts src target f room d x y hx hy =
      let v = vertical a.width a.height a.radius a.radius_log2 in
      blur_lines-hit v a.width (a.width * a.height)
        (vertical-IsLaidOut a.width a.height a.radius a.radius_log2) src (a.width - 0) 0 target x y
        (omega arith) (omega arith) (omega arith) hy room
      ∙ (blurred-mean v src x y
            (vertical-IsPass a.width a.height a.radius a.radius_log2 exact small (omega arith)) hy
          ∙ mean_pixel-same a.height a.radius (λ j. get_or src (x + j * a.width) 0) (λ j. f x j) y
              (omega arith) (λ j hj. d x j hx hj))

  rows-Depicts :
      (src target : List ℕ) (f : Picture)
      → a.width * a.height ≤ length target
      → Depicts a src f
      → Depicts a
          (fast_blur_H target src a.width a.height 0 a.height a.radius a.radius_log2)
          (mean_rows a f)
  unfolding fast_blur_H
  rows-Depicts src target f room d x y hx hy =
      let h = horizontal a.width a.height a.radius a.radius_log2 in
      blur_lines-hit h a.height (a.width * a.height)
        (horizontal-IsLaidOut a.width a.height a.radius a.radius_log2) src (a.height - 0) 0 target y
        x (omega arith) (omega arith) (omega arith) hx room
      ∙ (blurred-mean h src y x
            (horizontal-IsPass a.width a.height a.radius a.radius_log2 exact small (omega arith)) hx
          ∙ mean_pixel-same a.width a.radius (λ k. get_or src (k + y * a.width) 0) (λ k. f k y) x
              (omega arith) (λ k hk. d k y hk hy))

  -- A whole pass, in either direction.
  fast_blur-Depicts :
      (k : ℕ) (src target : List ℕ) (f : Picture)
      → a.width * a.height ≤ length target
      → Depicts a src f
      → Depicts a
          (fast_blur a k target src 0 (extent a k))
          (if ltb k 3 then mean_columns a f else mean_rows a f)
  unfolding fast_blur extent
  fast_blur-Depicts k src target f room d = elim (Bool-cases (ltb k 3)) [
    | inl e ↦ rw e (columns-Depicts src target f room d)
    | inr e ↦ rw e (rows-Depicts src target f room d)
  ]

  -- The image that the pass `k` reads.
  abbrev read_by : ℕ → Images → List ℕ
  read_by k m = if k % 2 == 0 then m.pixels else m.interim

  -- A pass puts the next picture where the pass after it reads.
  blur_pass-Depicts :
      (k : ℕ) (m : Images) (f : Picture)
      → HasRoom (a.width * a.height) m
      → Depicts a (read_by k m) f
      → Depicts a
          (read_by (suc k) (blur_pass a k 0 (extent a k) m))
          (if ltb k 3 then mean_columns a f else mean_rows a f)
  unfolding blur_pass
  blur_pass-Depicts k m f room d = elim (Bool-cases (k % 2 == 0)) [
    | inl e ↦
        let odd : (suc k % 2 == 0) ≡ false = ground arith in
        rw (e, odd) (fast_blur-Depicts k m.pixels m.interim f (room.1) (rw e at d))
    | inr e ↦
        let even : (suc k % 2 == 0) ≡ true = ground arith in
        rw (e, even) (fast_blur-Depicts k m.interim m.pixels f (room.0) (rw e at d))
  ]

  module _ (m : Images) (f : Picture) (wide : 0 < a.width) (high : 0 < a.height)
      (room : HasRoom (a.width * a.height) m) (d : Depicts a m.pixels f) where
    blur_passes-Depicts : (k : ℕ) → Depicts a (read_by k (blur_passes a k m)) (soften a f k)
    unfolding blur_passes soften
    blur_passes-Depicts zero = d
    blur_passes-Depicts (suc k) =
        blur_pass-Depicts k (blur_passes a k m) (soften a f k)
          (stage-HasRoom a 1 m (omega arith) wide high room k) (blur_passes-Depicts k)

    pub blur-Depicts : Depicts a (blur a m).pixels (soften a f 6)
    unfolding blur
    blur-Depicts = blur_passes-Depicts 6
