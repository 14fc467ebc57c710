-- ===== src/Blur/Threads/Phase.antt =====
-- The images of the threads while all are among the columns, and while all are among the rows.
use swaylock.Base.{
  ℕ, zero, suc, ◌+◌, ◌*◌, ◌≤◌, ◌<◌, ◌≡◌, refl, sym, ap, subst, ◌⊎◌, inl, inr, arith, dec_lt, lt→ltb,
  le→ltb, get_or,
}
use swaylock.Blur.{Pass, vertical, horizontal, fast_blur_V, fast_blur_H}
use swaylock.Blur.Lines.{IsLaidOut}
use swaylock.Blur.Mean.{vertical-IsLaidOut, horizontal-IsLaidOut}
use swaylock.Blur.Threads.{
  Images, Job, update, blur_pass, blur_passes, fast_blur, extent, piece_start, piece_end,
}
use swaylock.Blur.Threads.Pieces.{piece_of, piece_end-le}
use swaylock.Blur.Threads.Passes.{IsSliding}
use swaylock.Blur.Threads.Agree.{Agrees, HasRoom, along, along-HasRoom, along-Agrees}

abbrev pub columns_of : Job → Pass
columns_of a = vertical a.width a.height a.radius a.radius_log2

abbrev pub rows_of : Job → Pass
rows_of a = horizontal a.width a.height a.radius a.radius_log2

columns_of-IsSliding : (a : Job) → 0 < a.height → IsSliding (columns_of a)
columns_of-IsSliding a h = record { leaves = λ j. ground arith; filled = h }

rows_of-IsSliding : (a : Job) → 0 < a.width → IsSliding (rows_of a)
rows_of-IsSliding a h = record { leaves = λ j. ground arith; filled = h }

-- Where a pass goes along columns and where along rows.
blur_pass-columns :
    (a : Job) (k start end : ℕ) (m : Images)
    → k < 3
    → blur_pass a k start end m ≡ along (columns_of a) k start end m
unfolding blur_pass fast_blur along fast_blur_V
blur_pass-columns a k start end m h = rw (lt→ltb k 3 h) refl

blur_pass-rows :
    (a : Job) (k start end : ℕ) (m : Images)
    → 3 ≤ k
    → blur_pass a k start end m ≡ along (rows_of a) k start end m
unfolding blur_pass fast_blur along fast_blur_H
blur_pass-rows a k start end m h = rw (le→ltb k 3 h) refl

extent-columns : (a : Job) (k : ℕ) → k < 3 → extent a k ≡ a.width
unfolding extent
extent-columns a k h = ground arith

extent-rows : (a : Job) (k : ℕ) → 3 ≤ k → extent a k ≡ a.height
unfolding extent
extent-rows a k h = ground arith

module _ (a : Job) (n : ℕ) (m : Images) (some_thread : 0 < n) (wide : 0 < a.width)
    (high : 0 < a.height) where
  -- The images after `k` passes without threads.
  abbrev pub stage : ℕ → Images
  stage k = blur_passes a k m

  abbrev pub image_size : ℕ
  image_size = a.width * a.height

  laid_columns : IsLaidOut (columns_of a) a.width image_size
  laid_columns = vertical-IsLaidOut a.width a.height a.radius a.radius_log2

  laid_rows : IsLaidOut (rows_of a) a.height image_size
  laid_rows = horizontal-IsLaidOut a.width a.height a.radius a.radius_log2

  stage-columns : (k : ℕ) → k < 3 → stage (suc k) ≡ along (columns_of a) k 0 a.width (stage k)
  unfolding blur_passes
  stage-columns k h = rw (extent-columns a k h) (blur_pass-columns a k 0 a.width (stage k) h)

  stage-rows : (k : ℕ) → 3 ≤ k → stage (suc k) ≡ along (rows_of a) k 0 a.height (stage k)
  unfolding blur_passes
  stage-rows k h = rw (extent-rows a k h) (blur_pass-rows a k 0 a.height (stage k) h)

  pub pass-HasRoom :
      (k start end : ℕ) (o : Images)
      → HasRoom image_size o
      → HasRoom image_size (blur_pass a k start end o)
  pass-HasRoom k start end o r = elim (dec_lt k 3) [
    | yes l ↦ subst (HasRoom image_size) (sym (blur_pass-columns a k start end o l)) (
        along-HasRoom (columns_of a) a.width image_size laid_columns (columns_of-IsSliding a high) k
          start end o r)
    | no g ↦ subst (HasRoom image_size) (sym (blur_pass-rows a k start end o (omega (arith, g)))) (
        along-HasRoom (rows_of a) a.height image_size laid_rows (rows_of-IsSliding a wide) k start
          end o r)
  ]

  pub stage-HasRoom : HasRoom image_size m → (k : ℕ) → HasRoom image_size (stage k)
  unfolding blur_passes
  stage-HasRoom r zero = r
  stage-HasRoom r (suc k) = pass-HasRoom k 0 (extent a k) (stage k) (stage-HasRoom r k)

  -- Where the threads are: all among the columns, or all among the rows.
  abbrev pub Phase : (ℕ → ℕ) → Images → Type 0
  Phase passed o =
      (((t : ℕ) → t < n → passed t ≤ 3) × Agrees (columns_of a) a.width n stage passed o)
      ⊎ (((t : ℕ) → t < n → 3 ≤ passed t) × Agrees (rows_of a) a.height n stage passed o)

  -- The images after the next pass of the thread `t`.
  abbrev pub turn : (ℕ → ℕ) → ℕ → Images → Images
  turn passed t o =
      let total = extent a (passed t) in
      blur_pass a (passed t) (piece_start total n t) (piece_end total n t) o

  pub columns-Phase :
      (passed : ℕ → ℕ) (t : ℕ) (o : Images)
      → HasRoom image_size m
      → HasRoom image_size o
      → t < n
      → passed t < 3
      → Phase passed o
      → Phase (update passed t (suc (passed t))) (turn passed t o)
  columns-Phase passed t o rm r ht h (inl (le, ag)) =
      let k = passed t in
      let same : turn passed t o
          ≡ along (columns_of a) k (piece_start a.width n t) (piece_end a.width n t) o =
        rw (extent-columns a k h)
          (blur_pass-columns a k (piece_start a.width n t) (piece_end a.width n t) o h) in
      inl (
        (λ u hu. let below = le u hu in ground arith),
        subst (Agrees (columns_of a) a.width n stage (update passed t (suc k))) (sym same) (
            along-Agrees (columns_of a) a.width image_size laid_columns
              (columns_of-IsSliding a high) n t stage passed o ht (stage-columns k h) r
              (stage-HasRoom rm k) ag),
      )
  columns-Phase passed t o rm r ht h (inr (ge, ag)) = absurd (omega (arith, h, ge t ht))

  -- Once all columns are done, every pixel agrees, so every row does.
  pub to_rows :
      (passed : ℕ → ℕ) (o : Images)
      → ((t : ℕ) → t < n → 3 ≤ passed t)
      → Phase passed o
      → Agrees (rows_of a) a.height n stage passed o
  to_rows passed o ge (inr (ge', ag)) t i ht low below = ag t i ht low below
  to_rows passed o ge (inl (le, ag)) t i ht low below =
      let inside = piece_end-le a.height n some_thread t ht in
      ((λ l hl. (at_pixel l hl).0), (λ l hl. (at_pixel l hl).1))
    where
      same_stage : (u : ℕ) → u < n → stage (passed u) ≡ stage (passed t)
      same_stage u hu = ap stage (omega (arith, ge u hu, le u hu, ge t ht, le t ht))

      at_pixel :
          (l : ℕ)
          → l < a.width
          → (get_or o.pixels (l + i * a.width) 0
              ≡ get_or (stage (passed t)).pixels (l + i * a.width) 0)
            × (get_or o.interim (l + i * a.width) 0
                ≡ get_or (stage (passed t)).interim (l + i * a.width) 0)
      at_pixel l hl =
          let owner = piece_of a.width n some_thread l hl in
          let within : i < a.height =
            omega (arith, piece_end-le a.height n some_thread t ht, below) in
          let both = ag owner.0 l owner.1 owner.2 owner.3 in
          subst
            (λ z.
              (get_or o.pixels (l + i * a.width) 0 ≡ get_or z.pixels (l + i * a.width) 0)
              × (get_or o.interim (l + i * a.width) 0 ≡ get_or z.interim (l + i * a.width) 0))
            (same_stage owner.0 owner.1) (both.0 i within, both.1 i within)

  pub rows-Phase :
      (passed : ℕ → ℕ) (t : ℕ) (o : Images)
      → HasRoom image_size m
      → HasRoom image_size o
      → t < n
      → ((u : ℕ) → u < n → 3 ≤ passed u)
      → Phase passed o
      → Phase (update passed t (suc (passed t))) (turn passed t o)
  rows-Phase passed t o rm r ht ge ph =
      let k = passed t in
      let h = ge t ht in
      let same : turn passed t o
          ≡ along (rows_of a) k (piece_start a.height n t) (piece_end a.height n t) o =
        rw (extent-rows a k h)
          (blur_pass-rows a k (piece_start a.height n t) (piece_end a.height n t) o h) in
      inr (
        (λ u hu. let above = ge u hu in ground arith),
        subst (Agrees (rows_of a) a.height n stage (update passed t (suc k))) (sym same) (
            along-Agrees (rows_of a) a.height image_size laid_rows (rows_of-IsSliding a wide) n t
              stage passed o ht (stage-rows k h) r (stage-HasRoom rm k) (to_rows passed o ge ph)),
      )
