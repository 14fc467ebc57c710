-- ===== src/Blur/Threads/Same.antt =====
-- What the threads leave in the images when all are done.
use swaylock.Base.{ℕ, ◌+◌, ◌*◌, ◌≤◌, ◌<◌, ◌≡◌, refl, ap, ◌∙◌, inl, arith, length, get_or}
use swaylock.Blur.Threads.{
  Images, Job, Threads, Move, Run, one_pass, sem_post, threads_start, blur, blur_passes, extent,
  piece_start, piece_end,
}
use swaylock.Blur.Threads.Agree.{HasRoom}
use swaylock.Blur.Threads.Pieces.{piece_of}
use swaylock.Blur.Threads.Phase.{Phase, columns-Phase, rows-Phase, pass-HasRoom, to_rows}
use swaylock.Blur.Threads.Order.{Run-InOrder, all_through}

module _ (a : Job) (n : ℕ) (m : Images) (some_thread : 0 < n) (wide : 0 < a.width)
    (high : 0 < a.height) (room : HasRoom (a.width * a.height) m) where
  passed_room :
      (s : Threads) (t : ℕ)
      → HasRoom (a.width * a.height) s.images
      → HasRoom (a.width * a.height) (one_pass a n t s).images
  unfolding one_pass
  passed_room s t r =
      let total = extent a (s.passed t) in
      pass-HasRoom a n m some_thread wide high (s.passed t) (piece_start total n t)
        (piece_end total n t) s.images r

  Run-HasRoom : {k : ℕ} {s : Threads} → Run a n m k s → HasRoom (a.width * a.height) s.images
  unfolding threads_start one_pass sem_post
  Run-HasRoom Run.begin = room
  Run-HasRoom (Run.next r (Move.columns s t ht h)) = passed_room s t (Run-HasRoom r)
  Run-HasRoom (Run.next r (Move.post s t e h l all)) = Run-HasRoom r
  Run-HasRoom (Run.next r (Move.rows s t ht h h' turn)) = passed_room s t (Run-HasRoom r)

  Run-Phase :
      {k : ℕ} {s : Threads} → Run a n m k s → Phase a n m some_thread wide high s.passed s.images
  unfolding threads_start one_pass sem_post blur_passes
  Run-Phase Run.begin =
      inl ((λ t h. omega arith), (λ t i ht low below. ((λ l hl. refl), (λ l hl. refl))))
  Run-Phase (Run.next r (Move.columns s t ht h)) =
      columns-Phase a n m some_thread wide high s.passed t s.images room (Run-HasRoom r) ht h
        (Run-Phase r)
  Run-Phase (Run.next r (Move.post s t e h l all)) = Run-Phase r
  Run-Phase (Run.next r (Move.rows s t ht h h' turn)) =
      rows-Phase a n m some_thread wide high s.passed t s.images room (Run-HasRoom r) ht
        (all_through n t s (Run-InOrder a n m some_thread r) ht h turn) (Run-Phase r)

-- However the threads take turns, when all have done their six passes, every pixel of the blurred image
-- is that of the blur without threads, for any number of threads above zero and any radius, if both
-- images have room for the pixels.
pub Run-blur :
    (a : Job) (n : ℕ) (m : Images) (k : ℕ) (s : Threads) (x y : ℕ)
    → 0 < n
    → a.width * a.height ≤ length m.pixels
    → a.width * a.height ≤ length m.interim
    → Run a n m k s
    → ((t : ℕ) → t < n → s.passed t ≡ 6)
    → x < a.width
    → y < a.height
    → get_or s.images.pixels (x + y * a.width) 0 ≡ get_or (blur a m).pixels (x + y * a.width) 0
unfolding blur
Run-blur a n m k s x y some_thread room room' r done hx hy =
    let wide : 0 < a.width = omega arith in
    let high : 0 < a.height = omega arith in
    let owner = piece_of a.height n some_thread y hy in
    let same =
      to_rows a n m some_thread wide high s.passed s.images (λ t h. omega (arith, done t h))
        (Run-Phase a n m some_thread wide high (room, room') r) in
    (same owner.0 y owner.1 owner.2 owner.3).0 x hx
    ∙ ap (λ j. get_or (blur_passes a j m).pixels (x + y * a.width) 0) (done owner.0 owner.1)
