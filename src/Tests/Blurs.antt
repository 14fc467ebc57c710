-- ===== src/Tests/Blurs.antt =====
-- Examples for the blur of the screenshot.
use swaylock.Base.{
  ℕ, zero, suc, ◌+◌, ◌*◌, ◌<◌, ◌≡◌, refl, ap, ◌⊎◌, inl, inr, List, [], ◌∷◌, arith, ℕ_discrete,
  get_or,
}
use swaylock.Blur.{fast_blur_V, fast_blur_H}
use swaylock.Blur.Mean.{mean_pixel, fast_blur_lem}
use swaylock.Blur.Threads.{
  Images, Job, Threads, Move, Run, HasTurn, one_pass, sem_post, threads_start, blur,
}
use swaylock.Blur.Threads.Same.{Run-blur}
use swaylock.Blur.Threads.Finish.{Run-finishes}

-- Two rows of two pixels.
abbrev picture : List ℕ
picture = 0xFF000010 ∷ 0xFF000020 ∷ 0xFF000030 ∷ 0xFF000040 ∷ []

abbrev blank : List ℕ
blank = 0 ∷ 0 ∷ 0 ∷ 0 ∷ []

fast_blur_lem_example :
    get_or (fast_blur_H blank (fast_blur_V blank picture 2 2 0 2 1 0) 2 2 0 2 1 0) (1 + 0 * 2) 0
    ≡ mean_pixel 2 1 (λ k. mean_pixel 2 1 (λ j. get_or picture (k + j * 2) 0) 0) 1
fast_blur_lem_example =
    fast_blur_lem blank blank picture 2 2 0 2 1 0 1 0 refl (omega arith) (omega arith) (omega arith)
      (omega arith) (omega arith) (omega arith) (omega arith)

blurred_corner :
    get_or (fast_blur_H blank (fast_blur_V blank picture 2 2 0 2 1 0) 2 2 0 2 1 0) 0 0 ≡ 0xFF000028
unfolding fast_blur_V fast_blur_H
blurred_corner = refl

abbrev job : Job
job = record { width = 2; height = 2; radius = 1; radius_log2 = 0 }

abbrev images : Images
images = record { pixels = picture; interim = blank }

-- Two threads; the worker, 0, is first through the columns and last through the rows.
abbrev early : Threads
early = one_pass job 2 0 (one_pass job 2 1 (threads_start images))

early-Run : Run job 2 images 2 early
unfolding one_pass threads_start
early-Run =
    Run.next
      (Run.next Run.begin (Move.columns (threads_start images) 1 (omega arith) (omega arith)))
      (Move.columns (one_pass job 2 1 (threads_start images)) 0 (omega arith) (omega arith))

Run-finishes_example :
    (2 < 7 * 2) × (((t : ℕ) → t < 2 → early.passed t ≡ 6) ⊎ ((s' : Threads) × Move job 2 early s'))
Run-finishes_example = Run-finishes job 2 images 2 early (omega arith) early-Run

abbrev through : Threads
through = one_pass job 2 1 (one_pass job 2 1 (one_pass job 2 0 (one_pass job 2 0 early)))

-- The rows of the thread `t`.
abbrev three_rows : ℕ → Threads → Threads
three_rows t s = one_pass job 2 t (one_pass job 2 t (one_pass job 2 t s))

through-Run : Run job 2 images 6 through
unfolding one_pass threads_start
through-Run =
    let s = one_pass job 2 0 early in
    let s' = one_pass job 2 0 s in
    let s'' = one_pass job 2 1 s' in
    Run.next
      (Run.next
        (Run.next (Run.next early-Run (Move.columns early 0 (omega arith) (omega arith)))
          (Move.columns s 0 (omega arith) (omega arith)))
        (Move.columns s' 1 (omega arith) (omega arith)))
      (Move.columns s'' 1 (omega arith) (omega arith))

abbrev posted : Threads
posted = sem_post through

posted-Run : Run job 2 images 7 posted
unfolding one_pass threads_start
posted-Run = Run.next through-Run (
    Move.post through 1 (omega arith) refl (omega arith) (λ u h. elim (ℕ_discrete u 0) [
      | yes e ↦ omega (arith, ap through.passed e)
      | no ne ↦ absurd (omega (arith, ne))
    ]))

rows-Run :
    (t : ℕ) (k : ℕ) (s : Threads)
    → t < 2
    → s.passed t ≡ 3
    → HasTurn 2 t s
    → Run job 2 images k s
    → Run job 2 images (suc (suc (suc k))) (three_rows t s)
unfolding one_pass
rows-Run t k s h e turn r =
    let s' = one_pass job 2 t s in
    let s'' = one_pass job 2 t s' in
    let e' : s'.passed t ≡ 4 = ground arith in
    let e'' : s''.passed t ≡ 5 = ground arith in
    Run.next
      (Run.next (Run.next r (Move.rows s t h (omega arith) (omega arith) turn))
        (Move.rows s' t h (omega arith) (omega arith) turn))
      (Move.rows s'' t h (omega arith) (omega arith) turn)

abbrev finished : Threads
finished = three_rows 0 (three_rows 1 posted)

finished-Run : Run job 2 images 13 finished
unfolding one_pass threads_start sem_post
finished-Run =
    rows-Run 0 10 (three_rows 1 posted) (omega arith) refl (inl (omega arith))
      (rows-Run 1 7 posted (omega arith) refl (inr (refl, refl)) posted-Run)

all_done : (t : ℕ) → t < 2 → finished.passed t ≡ 6
unfolding one_pass threads_start sem_post
all_done zero h = refl
all_done (suc zero) h = refl
all_done (suc (suc t)) h = absurd (omega arith)

Run-blur_example :
    get_or finished.images.pixels (1 + 0 * 2) 0 ≡ get_or (blur job images).pixels (1 + 0 * 2) 0
Run-blur_example =
    Run-blur job 2 images 13 finished 1 0 (omega arith) (omega arith) (omega arith) finished-Run
      all_done (omega arith) (omega arith)
