-- ===== src/Blur/Threads/Order.antt =====
-- Runs of the threads, in any order.
use swaylock.Base.{ℕ, suc, ◌≤◌, ◌<◌, ◌≡◌, ap, inl, inr, arith, ℕ_discrete}
use swaylock.Blur.Threads.{
  Images, Job, Threads, Move, Run, HasTurn, one_pass, sem_post, threads_start,
}
use swaylock.Blur.Threads.Agree.{updated, not_updated}

-- Where `n` threads may be: nobody is among the rows before all are through the columns.
pub record InOrder (n : ℕ) (s : Threads) : Type 0 where
  pub at_most : (t : ℕ) → t < n → s.passed t ≤ 6
  pub barrier : (t u : ℕ) → t < n → u < n → 3 < s.passed t → 3 ≤ s.passed u
  pub posts_after : (u : ℕ) → u < n → 0 < s.posted → 3 ≤ s.passed u
  pub posts : suc s.posted ≤ n
  pub main_posts : (t : ℕ) → suc t ≡ n → 3 < s.passed t → suc s.posted ≡ n

-- Who may go on to the rows knows that all columns are done.
pub all_through :
    (n t : ℕ) (s : Threads)
    → InOrder n s
    → t < n
    → 3 ≤ s.passed t
    → HasTurn n t s
    → (u : ℕ) → u < n
    → 3 ≤ s.passed u
all_through n t s v ht h (inl l) u hu = v.posts_after u hu (omega arith)
all_through n t s v ht h (inr (e, e')) u hu = elim (ℕ_discrete u t) [
  | yes q ↦ omega (arith, ap s.passed q, h)
  | no ne ↦ v.posts_after u hu (omega (arith, ne))
]

module _ (a : Job) (n : ℕ) where
  columns-InOrder :
      (s : Threads) (t : ℕ) → t < n → s.passed t < 3 → InOrder n s → InOrder n (one_pass a n t s)
  unfolding one_pass
  columns-InOrder s t ht h v = record {
    at_most = λ u hu. let b = v.at_most u hu in ground arith;
    barrier = λ u w hu hw b. absurd (elim (ℕ_discrete u t) [
      | yes q ↦ omega (arith, updated s.passed t (suc (s.passed t)) u q)
      | no ne ↦ omega (
        arith,
        not_updated s.passed t (suc (s.passed t)) u ne,
        v.barrier u t hu ht (omega (arith, not_updated s.passed t (suc (s.passed t)) u ne)),
      )
    ]);
    posts_after = λ u hu b. absurd (omega (arith, v.posts_after t ht b));
    posts = v.posts;
    main_posts = λ u e b. elim (ℕ_discrete u t) [
      | yes q ↦ absurd (omega (arith, updated s.passed t (suc (s.passed t)) u q))
      | no ne ↦ v.main_posts u e (omega (arith, not_updated s.passed t (suc (s.passed t)) u ne))
    ];
  }

  rows-InOrder :
      (s : Threads) (t : ℕ)
      → t < n
      → 3 ≤ s.passed t
      → s.passed t < 6
      → HasTurn n t s
      → InOrder n s
      → InOrder n (one_pass a n t s)
  unfolding one_pass
  rows-InOrder s t ht h h' turn v =
      let all = all_through n t s v ht h turn in
      record {
        at_most = λ u hu. let b = v.at_most u hu in ground arith;
        barrier = λ u w hu hw b. let g = all w hw in ground arith;
        posts_after = λ u hu b. let g = all u hu in ground arith;
        posts = v.posts;
        main_posts = λ u e b. elim (ℕ_discrete u t) [
          | yes q ↦ main u e turn q
          | no ne ↦ v.main_posts u e (omega (arith, not_updated s.passed t (suc (s.passed t)) u ne))
        ];
      }
    where
      main : (u : ℕ) → suc u ≡ n → HasTurn n t s → u ≡ t → suc s.posted ≡ n
      main u e (inl l) q = omega (arith, v.posts)
      main u e (inr (q', e')) q = e'

  post-InOrder :
      (s : Threads) (t : ℕ)
      → suc t ≡ n
      → s.passed t ≡ 3
      → s.posted < t
      → ((u : ℕ) → u < t → 3 ≤ s.passed u)
      → InOrder n s
      → InOrder n (sem_post s)
  unfolding sem_post
  post-InOrder s t e h l all v = record {
    at_most = v.at_most;
    barrier = v.barrier;
    posts_after = λ u hu b. elim (ℕ_discrete u t) [
      | yes q ↦ omega (arith, ap s.passed q)
      | no ne ↦ all u (omega (arith, ne))
    ];
    posts = omega arith;
    main_posts = λ u e' b. absurd (omega (arith, ap s.passed (let q : u ≡ t = omega arith in q)));
  }

  module _ (m : Images) where
    pub Run-InOrder : {k : ℕ} {s : Threads} → 0 < n → Run a n m k s → InOrder n s
    unfolding threads_start
    Run-InOrder some_thread Run.begin = record {
      at_most = λ t h. omega arith;
      barrier = λ t u ht hu h. absurd (omega arith);
      posts_after = λ u hu h. absurd (omega arith);
      posts = some_thread;
      main_posts = λ t e h. absurd (omega arith);
    }
    Run-InOrder some_thread (Run.next r (Move.columns s t ht h)) =
        columns-InOrder s t ht h (Run-InOrder some_thread r)
    Run-InOrder some_thread (Run.next r (Move.post s t e h l all)) =
        post-InOrder s t e h l all (Run-InOrder some_thread r)
    Run-InOrder some_thread (Run.next r (Move.rows s t ht h h' turn)) =
        rows-InOrder s t ht h h' turn (Run-InOrder some_thread r)
