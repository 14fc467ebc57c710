-- ===== src/Loop/Sleep/Bounds.antt =====
-- `poll` wakes up in time for the first timer.
use swaylock.Base.{
  ℕ, ◌+◌, ◌*◌, ◌≤◌, ◌<◌, ◌≡◌, refl, sym, ◌∙◌, subst, ◌⊎◌, inl, inr, true, false, List, [], ◌∷◌,
  arith, if◌then◌else◌, Bool-cases, All,
}
use swaylock.Loop.{Timespec, Timer}
use swaylock.Loop.Time.{IsNormal, nanoseconds}
use swaylock.Loop.Sleep.{
  ℤ, pos, negsuc, less, timer_ms, least_ms, at_least_zero, poll_timeout, IsNear, Left,
  timer_ms-Left,
}

abbrev IsLe : ℤ → ℤ → Type 0
IsLe a b = less b a ≡ false

le_refl : (a : ℤ) → IsLe a a
le_refl (pos a) = ground arith
le_refl (negsuc a) = ground arith

le_trans : (a b c : ℤ) → IsLe a b → IsLe b c → IsLe a c
le_trans (pos a) (pos b) (pos c) h k = ground arith
le_trans (pos a) (pos b) (negsuc c) h k = k
le_trans (pos a) (negsuc b) (pos c) h k = absurd cc
le_trans (pos a) (negsuc b) (negsuc c) h k = h
le_trans (negsuc a) (pos b) (pos c) h k = refl
le_trans (negsuc a) (pos b) (negsuc c) h k = absurd cc
le_trans (negsuc a) (negsuc b) (pos c) h k = refl
le_trans (negsuc a) (negsuc b) (negsuc c) h k = ground arith

le_of_less : (a b : ℤ) → less a b ≡ true → IsLe a b
le_of_less (pos a) (pos b) h = ground arith
le_of_less (pos a) (negsuc b) h = absurd cc
le_of_less (negsuc a) (pos b) h = refl
le_of_less (negsuc a) (negsuc b) h = ground arith

-- The property holds of an entry of the list.
abbrev pub Any : {A : Type 0} → (A → Type 0) → List A → Type 0
Any P [] = ⊥
Any P (x ∷ xs) = P x ⊎ Any P xs

abbrev smaller : ℤ → ℤ → ℤ
smaller t_ms ms = if less t_ms ms then t_ms else ms

smaller-le : (t_ms ms : ℤ) → IsLe (smaller t_ms ms) t_ms × IsLe (smaller t_ms ms) ms
smaller-le t_ms ms = elim (Bool-cases (less t_ms ms)) [
  | inl e ↦ rw e (le_refl t_ms, le_of_less t_ms ms e)
  | inr e ↦ rw e (e, le_refl ms)
]

-- One of the two it is.
smaller-is : (t_ms ms : ℤ) → (smaller t_ms ms ≡ t_ms) ⊎ (smaller t_ms ms ≡ ms)
smaller-is t_ms ms = elim (Bool-cases (less t_ms ms)) [
  | inl e ↦ inl (rw e refl)
  | inr e ↦ inr (rw e refl)
]

-- What the timeout says of one timer: it is over less than a millisecond after the timer, or at once.
abbrev pub IsInTime : ℕ → ℕ → ℕ → Type 0
IsInTime expiry now ms = (now + ms * 1000000 < expiry + 1000000) ⊎ (ms ≡ 0)

-- And that the timer is over less than a millisecond after it, or before.
abbrev pub IsDue : ℕ → ℕ → ℕ → Type 0
IsDue expiry now ms = expiry < now + ms * 1000000 + 1000000

in_time :
    (expiry now : ℕ) (least t_ms : ℤ)
    → IsLe least t_ms
    → Left expiry now t_ms
    → IsInTime expiry now (at_least_zero least)
in_time expiry now (pos m) (pos k) h (l, r) =
    let e : m ≤ k = ground arith in inl (omega (arith, e, l))
in_time expiry now (pos m) (negsuc k) h l = absurd cc
in_time expiry now (negsuc m) t_ms h l = inr refl

due : (expiry now : ℕ) (t_ms : ℤ) → Left expiry now t_ms → IsDue expiry now (at_least_zero t_ms)
due expiry now (pos m) (l, r) = r
due expiry now (negsuc m) l = omega arith

-- A near timer is over long before the largest `int` of milliseconds.
not_first :
    (expiry now : ℕ) (t_ms : ℤ)
    → expiry < now + 1048577 * 1000000000
    → Left expiry now t_ms
    → IsLe (pos 2147483647) t_ms
    → ⊥
not_first expiry now (pos m) h (l, r) k =
    let e : 2147483647 ≤ m = ground arith in omega (arith, e, l, h)
not_first expiry now (negsuc m) h l k = cc

module _ {C : Type 0} (now : Timespec) (normal : IsNormal now) where
  least_ms-le : (ts : List (Timer C)) (ms : ℤ) → IsLe (least_ms ts now ms) ms
  unfolding least_ms
  least_ms-le [] ms = le_refl ms
  least_ms-le (t ∷ ts) ms =
      let next = smaller (timer_ms t.expiry now) ms in
      le_trans (least_ms ts now next) next ms (least_ms-le ts next)
        (smaller-le (timer_ms t.expiry now) ms).1

  least_ms-head :
      (t : Timer C) (ts : List (Timer C)) (ms : ℤ)
      → IsLe (least_ms (t ∷ ts) now ms) (timer_ms t.expiry now)
  unfolding least_ms
  least_ms-head t ts ms =
      let t_ms = timer_ms t.expiry now in
      let next = smaller t_ms ms in
      le_trans (least_ms ts now next) next t_ms (least_ms-le ts next) (smaller-le t_ms ms).0

  least_ms-All :
      (ts : List (Timer C)) (ms : ℤ)
      → All (λ t. IsNear t.expiry now) ts
      → All
          (λ t.
            IsInTime (nanoseconds t.expiry) (nanoseconds now) (at_least_zero (least_ms ts now ms)))
          ts
  unfolding least_ms
  least_ms-All [] ms near = tt
  least_ms-All (t ∷ ts) ms (n, near) =
      let t_ms = timer_ms t.expiry now in
      (
        in_time (nanoseconds t.expiry) (nanoseconds now) (least_ms (t ∷ ts) now ms) t_ms
            (least_ms-head t ts ms) (timer_ms-Left t.expiry now n normal),
        least_ms-All ts (smaller t_ms ms) near,
      )

  least_ms-Any :
      (ts : List (Timer C)) (ms : ℤ)
      → All (λ t. IsNear t.expiry now) ts
      → (least_ms ts now ms ≡ ms)
        ⊎ Any
            (λ t.
              IsDue (nanoseconds t.expiry) (nanoseconds now) (at_least_zero (least_ms ts now ms)))
            ts
  unfolding least_ms
  least_ms-Any [] ms near = inl refl
  least_ms-Any (t ∷ ts) ms (n, near) =
      let t_ms = timer_ms t.expiry now in
      elim (least_ms-Any ts (smaller t_ms ms) near) [
        | inr found ↦ inr (inr found)
        | inl e ↦ elim (smaller-is t_ms ms) [
          | inl q ↦ inr (
              inl (
                subst (λ z. IsDue (nanoseconds t.expiry) (nanoseconds now) (at_least_zero z))
                  (sym (e ∙ q))
                  (due (nanoseconds t.expiry) (nanoseconds now) t_ms
                    (timer_ms-Left t.expiry now n normal))))
          | inr q ↦ inl (e ∙ q)
        ]
      ]

-- With timers at most 2 ^ 20 seconds away, the timeout that `loop_poll` gives to `poll` ends less than a
-- millisecond after the expiry of every timer, or `poll` returns at once; and when it has passed, some
-- timer's expiry is less than a millisecond away or over.
pub poll_timeout_lem :
    {C : Type 0} (t : Timer C) (ts : List (Timer C)) (now : Timespec)
    → IsNormal now
    → All (λ u. IsNear u.expiry now) (t ∷ ts)
    → All
        (λ u. IsInTime (nanoseconds u.expiry) (nanoseconds now) (poll_timeout (t ∷ ts) now))
        (t ∷ ts)
      × Any
          (λ u. IsDue (nanoseconds u.expiry) (nanoseconds now) (poll_timeout (t ∷ ts) now))
          (t ∷ ts)
unfolding poll_timeout
poll_timeout_lem t ts now normal (n, near) =
    let largest = pos 2147483647 in
    (
      least_ms-All now normal (t ∷ ts) largest (n, near),
      elim (least_ms-Any now normal (t ∷ ts) largest (n, near)) [
        | inr found ↦ found
        | inl e ↦ absurd (
            not_first (nanoseconds t.expiry) (nanoseconds now) (timer_ms t.expiry now)
              (omega (arith, n.0, n.1, normal)) (timer_ms-Left t.expiry now n normal)
              (subst (λ z. IsLe z (timer_ms t.expiry now)) e
                (least_ms-head now normal t ts largest)))
      ],
    )
