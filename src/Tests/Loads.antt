-- ===== src/Tests/Loads.antt =====
-- An example for the loading of a screenshot: two pixels by two on a machine with one processor.
use swaylock.Base.{
  ℕ, zero, suc, ◌+◌, ◌*◌, ◌/◌, ◌≤◌, ◌<◌, ◌≡◌, refl, ap, ◌∙◌, inr, List, [], ◌∷◌, arith, dec_lt,
  get_or,
}
use swaylock.Descriptors.Shm.{ShmBuffer}
use swaylock.Blur.Soften.{soften}
use swaylock.Blur.Threads.{Images, Job, Threads, Move, Run, one_pass, threads_start}
use swaylock.Screenshot.Load.{blur_job, blur_start, background_of, loaded, flipped, Loaded-Depicts}

abbrev buffer : ShmBuffer
buffer = record { format = 1; width = 2; height = 2; stride = 8; size = 16 }

abbrev picture : List ℕ
picture = 0xFF102030 ∷ 0xFF405060 ∷ 0xFF708090 ∷ 0xFFA0B0C0 ∷ []

-- What the allocator left.
abbrev garbage : List ℕ
garbage = 1 ∷ 2 ∷ 3 ∷ 4 ∷ []

abbrev job : Job
job = blur_job buffer 1

abbrev start : Images
start = blur_start buffer garbage garbage picture

-- After some passes of the only thread.
abbrev after : ℕ → Threads
after zero = threads_start start
after (suc k) = one_pass job 1 0 (after k)

passed_once : (s : Threads) → (one_pass job 1 0 s).passed 0 ≡ suc (s.passed 0)
unfolding one_pass
passed_once s = refl

posted_none : (k : ℕ) → (after k).posted ≡ 0
unfolding one_pass threads_start
posted_none zero = refl
posted_none (suc k) = posted_none k

passed_all : (k : ℕ) → (after k).passed 0 ≡ k
unfolding threads_start
passed_all zero = refl
passed_all (suc k) = passed_once (after k) ∙ ap suc (passed_all k)

after-Run : (k : ℕ) → k ≤ 6 → Run job 1 start k (after k)
after-Run zero h = Run.begin
after-Run (suc k) h = elim (dec_lt k 3) [
  | yes l ↦
      Run.next (after-Run k (omega arith))
        (Move.columns (after k) 0 (omega arith) (omega (arith, l, passed_all k)))
  | no g ↦ Run.next (after-Run k (omega arith)) (
      Move.rows (after k) 0 (omega arith) (omega (arith, g, passed_all k))
        (omega (arith, passed_all k)) (inr (refl, ap suc (posted_none k))))
]

all_through : (t : ℕ) → t < 1 → (after 6).passed t ≡ 6
all_through zero h = passed_all 6
all_through (suc t) h = absurd (omega arith)

-- The second pixel of the first row.
Loaded-Depicts_example :
    get_or (background_of buffer (after 6)).pixels (1 + 0 * (8 / 4)) 0
    ≡ soften job (flipped buffer picture) 6 1 0
unfolding background_of
Loaded-Depicts_example =
    Loaded-Depicts buffer 0 1 1 garbage garbage picture (background_of buffer (after 6)) refl refl
      (omega arith) (omega arith) (omega arith) (omega arith)
      (loaded (after-Run 6 (omega arith)) all_through) 1 0 (omega arith) (omega arith)
