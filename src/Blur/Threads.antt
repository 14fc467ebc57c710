-- ===== src/Blur/Threads.antt =====
-- `pthread_blur` and the part of `load_background_screenshot` that starts the threads, blurs with them
-- and waits for them. A step is one whole pass of one thread, or one `sem_post`; the columns (or rows)
-- of two threads have no pixel in common. The flag `job_finished` is read as the memory of a
-- sequentially consistent machine has it, and every `pthread_create` succeeds.
pub mod Pieces
pub mod Passes
pub mod Agree
pub mod Phase
pub mod Order
pub mod Same
pub mod Finish
use swaylock.Base.{ℕ, zero, suc, ◌*◌, ◌/◌, ◌%◌, ◌≤◌, ◌<◌, ◌≡◌, ◌⊎◌, List, ltb, ◌==◌, if◌then◌else◌}
use swaylock.Blur.{fast_blur_V, fast_blur_H}

-- The two images, `data` (here `pixels`) and `interim`.
pub record Images : Type 0 where
  pub pixels : List ℕ
  pub interim : List ℕ

-- What the arguments of all threads have in common.
pub record Job : Type 0 where
  pub width : ℕ
  pub height : ℕ
  pub radius : ℕ
  pub radius_log2 : ℕ

-- Of the six passes of a thread, counted from 0, the first three are along columns, the others along
-- rows.
unfoldable pub fast_blur : Job → ℕ → List ℕ → List ℕ → ℕ → ℕ → List ℕ
unfolding fast_blur_V fast_blur_H
fast_blur a k target src start end =
    if ltb k 3
    then fast_blur_V target src a.width a.height start end a.radius a.radius_log2
    else fast_blur_H target src a.width a.height start end a.radius a.radius_log2

-- A pass reads the image that the pass before it wrote; the first writes `interim`.
unfoldable pub blur_pass : Job → ℕ → ℕ → ℕ → Images → Images
unfolding fast_blur
blur_pass a k start end m =
    if k % 2 == 0
    then record m { interim = fast_blur a k m.interim m.pixels start end }
    else record m { pixels = fast_blur a k m.pixels m.interim start end }

-- The columns or rows that a pass goes over.
unfoldable pub extent : Job → ℕ → ℕ
extent a k = if ltb k 3 then a.width else a.height

-- The first `k` passes, each over the whole image, as without threads.
unfoldable pub blur_passes : Job → ℕ → Images → Images
unfolding blur_pass
blur_passes a zero m = m
blur_passes a (suc k) m = blur_pass a k 0 (extent a k) (blur_passes a k m)

unfoldable pub blur : Job → Images → Images
unfolding blur_passes
blur a m = blur_passes a 6 m

-- width * i / num_procs
unfoldable pub piece_start : ℕ → ℕ → ℕ → ℕ
piece_start total num_procs i = total * i / num_procs

-- The main thread has the last piece.
unfoldable pub piece_end : ℕ → ℕ → ℕ → ℕ
piece_end total num_procs i = if suc i == num_procs then total else total * suc i / num_procs

-- How many passes each thread has done, the threads counted from 0 and the main thread the last, and
-- for how many workers the main thread has posted `Vfinished`. A worker's `job_finished` is set when
-- it has done three.
pub record Threads : Type 0 where
  pub images : Images
  pub passed : ℕ → ℕ
  pub posted : ℕ

abbrev pub update : (ℕ → ℕ) → ℕ → ℕ → ℕ → ℕ
update f t v u = if u == t then v else f u

unfoldable pub one_pass : Job → ℕ → ℕ → Threads → Threads
unfolding blur_pass extent piece_start piece_end
one_pass a num_procs t s =
    let k = s.passed t in
    let total = extent a k in
    record s {
      images = blur_pass a k (piece_start total num_procs t) (piece_end total num_procs t) s.images;
      passed = update s.passed t (suc k);
    }

unfoldable pub sem_post : Threads → Threads
sem_post s = record s { posted = suc s.posted }

unfoldable pub threads_start : Images → Threads
threads_start m = record { images = m; passed = λ t. 0; posted = 0 }

-- May the thread `t` leave its wait between columns and rows? A worker's semaphore has been posted;
-- the main thread has posted all.
abbrev pub HasTurn : ℕ → ℕ → Threads → Type 0
HasTurn num_procs t s = (t < s.posted) ⊎ ((suc t ≡ num_procs) × (suc s.posted ≡ num_procs))

pub data Move (a : Job) (num_procs : ℕ) : Threads → Threads → Type 0 where
  columns :
      (s : Threads) (t : ℕ)
      → t < num_procs
      → s.passed t < 3
      → Move a num_procs s (one_pass a num_procs t s)
  post :
      (s : Threads) (t : ℕ)
      → suc t ≡ num_procs
      → s.passed t ≡ 3
      → s.posted < t
      → ((u : ℕ) → u < t → 3 ≤ s.passed u)
      → Move a num_procs s (sem_post s)
  rows :
      (s : Threads) (t : ℕ)
      → t < num_procs
      → 3 ≤ s.passed t
      → s.passed t < 6
      → HasTurn num_procs t s
      → Move a num_procs s (one_pass a num_procs t s)

-- `k` steps from the start, in any order the threads may take.
pub data Run (a : Job) (num_procs : ℕ) (m : Images) : ℕ → Threads → Type 0 where
  begin : Run a num_procs m 0 (threads_start m)
  next :
      {k : ℕ} {s s' : Threads}
      → Run a num_procs m k s
      → Move a num_procs s s'
      → Run a num_procs m (suc k) s'
