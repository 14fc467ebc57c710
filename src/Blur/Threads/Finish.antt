-- ===== src/Blur/Threads/Finish.antt =====
-- The threads never wait for each other for ever.
use swaylock.Base.{
  ℕ, zero, suc, ◌+◌, ◌-◌, ◌*◌, ◌≤◌, ◌<◌, ◌≡◌, refl, ap, ap₂, ◌≢◌, ◌⊎◌, inl, inr, arith, dec_lt,
  ℕ_discrete,
}
use swaylock.Blur.Threads.{
  Images, Job, Threads, Move, Run, HasTurn, update, one_pass, sem_post, threads_start,
}
use swaylock.Blur.Threads.Agree.{updated, not_updated}
use swaylock.Blur.Threads.Order.{InOrder, Run-InOrder}

-- What the first `n` threads have done together.
total_passed : (ℕ → ℕ) → ℕ → ℕ
total_passed f zero = 0
total_passed f (suc n) = total_passed f n + f n

total_passed-beyond :
    (f : ℕ → ℕ) (t v n : ℕ) → n ≤ t → total_passed (update f t v) n ≡ total_passed f n
unfolding total_passed
total_passed-beyond f t v zero h = refl
total_passed-beyond f t v (suc n) h =
    ap₂ ◌+◌ (total_passed-beyond f t v n (omega arith))
      (not_updated f t v n (λ e. omega (arith, e)))

total_passed-update :
    (f : ℕ → ℕ) (t n : ℕ) → t < n → total_passed (update f t (suc (f t))) n ≡ suc (total_passed f n)
unfolding total_passed
total_passed-update f t zero h = absurd (omega arith)
total_passed-update f t (suc n) h = elim (ℕ_discrete n t) [
  | yes q ↦ omega (
    arith,
    total_passed-beyond f t (suc (f t)) n (omega (arith, q)),
    updated f t (suc (f t)) n q,
    ap f q,
  )
  | no ne ↦
      omega (arith, total_passed-update f t n (omega (arith, ne)), not_updated f t (suc (f t)) n ne)
]

total_passed-le : (f : ℕ → ℕ) (n : ℕ) → ((t : ℕ) → t < n → f t ≤ 6) → total_passed f n ≤ 6 * n
unfolding total_passed
total_passed-le f zero h = omega arith
total_passed-le f (suc n) h =
    omega (arith, total_passed-le f n (λ t l. h t (omega arith)), h n (omega arith))

total_passed-zero : (n : ℕ) → total_passed (λ t. 0) n ≡ 0
unfolding total_passed
total_passed-zero zero = refl
total_passed-zero (suc n) = omega (arith, total_passed-zero n)

-- Is a thread behind?
behind :
    (f : ℕ → ℕ) (goal n : ℕ) → ((t : ℕ) → t < n → goal ≤ f t) ⊎ ((t : ℕ) × (t < n) × (f t < goal))
behind f goal zero = inl (λ t h. absurd (omega arith))
behind f goal (suc n) = elim (dec_lt (f n) goal) [
  | yes l ↦ inr (n, omega arith, l)
  | no g ↦ elim (behind f goal n) [
    | inl all ↦ inl (λ t h. elim (ℕ_discrete t n) [
      | yes q ↦ omega (arith, ap f q, g)
      | no ne ↦ all t (omega (arith, ne))
    ])
    | inr found ↦ inr (found.0, omega (arith, found.1), found.2)
  ]
]

module _ (a : Job) (n : ℕ) (m : Images) where
  Run-length : {k : ℕ} {s : Threads} → Run a n m k s → k ≡ total_passed s.passed n + s.posted
  unfolding threads_start one_pass sem_post
  Run-length Run.begin = omega (arith, total_passed-zero n)
  Run-length (Run.next r (Move.columns s t ht h)) =
      omega (arith, Run-length r, total_passed-update s.passed t n ht)
  Run-length (Run.next r (Move.post s t e h l all)) = omega (arith, Run-length r)
  Run-length (Run.next r (Move.rows s t ht h h' turn)) =
      omega (arith, Run-length r, total_passed-update s.passed t n ht)

  go_on :
      (s : Threads)
      → 0 < n
      → InOrder n s
      → ((t : ℕ) → t < n → s.passed t ≡ 6) ⊎ ((s' : Threads) × Move a n s s')
  go_on s some_thread v = elim (behind s.passed 3 n) [
    | inr found ↦ inr (one_pass a n found.0 s, Move.columns s found.0 found.1 found.2)
    | inl through ↦ elim (behind s.passed 6 n) [
      | inl all ↦ inl (λ t h. omega (arith, all t h, v.at_most t h))
      | inr late ↦ elim (ℕ_discrete (suc s.posted) n) [
        | yes e ↦ inr (
          one_pass a n late.0 s,
          Move.rows s late.0 late.1 (through late.0 late.1) late.2 (turn s late.0 late.1 e),
        )
        | no ne ↦ inr (sem_post s, post_next s v through some_thread ne)
      ]
    ]
  ]
    where
      turn : (s : Threads) (t : ℕ) → t < n → suc s.posted ≡ n → HasTurn n t s
      turn s t h e = elim (ℕ_discrete (suc t) n) [
        | yes q ↦ inr (q, e)
        | no ne ↦ inl (omega (arith, ne))
      ]

      post_next :
          (s : Threads)
          → InOrder n s
          → ((t : ℕ) → t < n → 3 ≤ s.passed t)
          → 0 < n
          → suc s.posted ≢ n
          → Move a n s (sem_post s)
      post_next s v through some_thread ne =
          let main : suc (n - 1) ≡ n = omega arith in
          let waits : s.passed (n - 1) ≤ 3 = elim (dec_lt 3 (s.passed (n - 1))) [
            | yes l ↦ absurd (ne (v.main_posts (n - 1) main l))
            | no g ↦ omega (arith, g)
          ] in
          Move.post s (n - 1) main (omega (arith, waits, through (n - 1) (omega arith)))
            (omega (arith, ne, v.posts)) (λ u h. through u (omega arith))

-- With any number of threads above zero, a run of the threads has fewer than 7 * n steps, and as long
-- as a thread has not done its six passes, one of them can go on.
pub Run-finishes :
    (a : Job) (n : ℕ) (m : Images) (k : ℕ) (s : Threads)
    → 0 < n
    → Run a n m k s
    → (k < 7 * n) × (((t : ℕ) → t < n → s.passed t ≡ 6) ⊎ ((s' : Threads) × Move a n s s'))
Run-finishes a n m k s some_thread r =
    let v = Run-InOrder a n m some_thread r in
    (
      omega (arith, Run-length a n m r, total_passed-le s.passed n v.at_most, v.posts),
      go_on a n m s some_thread v,
    )
