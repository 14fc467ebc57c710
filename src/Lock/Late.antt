-- ===== src/Lock/Late.antt =====
-- When the walk over the timers is safe, and when it reads a freed timer.
use swaylock.Base.{
  ◌≡◌, refl, sym, ◌∙◌, subst, inl, inr, true, false, none, some, List, [], ◌∷◌, Bool-cases,
}
use swaylock.Loop.{Timer, Timespec, done, use_after_free, first_id, fire, has_expired, timer_at}
use swaylock.State.{State, TimerCallback, on_clear_indicator, on_clear_password}
use swaylock.Surface.{damage_state}
use swaylock.Lock.{Env, call_timer, poll_timers}
use swaylock.Lock.Timers.{Shape}
use swaylock.Lock.Invariant.{IsSound}
use swaylock.Lock.Poll.{fire_timer, IsNamed, fire_timer-IsSound}
use swaylock.Lock.Expiry.{
  poll-walk, walk-end, poll_one, poll_two, poll_freed, fire_indicator-timers, fire_none-timers,
  fire_password-timers,
}

-- The situation that `loop_poll` does not survive: the password timer stands right before the
-- indicator timer, as a key press leaves them, and its time is over.
abbrev pub IsLate : Timespec → State → Type 0
IsLate now s =
    (t : Timer TimerCallback) × (u : Timer TimerCallback) × (s.eventloop.timers ≡ t ∷ u ∷ [])
    × (t.callback ≡ on_clear_password)
    × (has_expired t.expiry now ≡ true)

poll_none :
    (env : Env) (now : Timespec) (s : State)
    → s.eventloop.timers ≡ []
    → poll_timers env now s ≡ done s
unfolding first_id
poll_none env now s e = poll-walk env now s [] e ∙ walk-end env 1 now s

called_indicator-pointer :
    (env : Env) (c : TimerCallback) (s : State)
    → c ≡ on_clear_indicator
    → (call_timer env c s).clear_password_timer ≡ s.clear_password_timer
unfolding call_timer damage_state
called_indicator-pointer env on_clear_indicator s e = refl
called_indicator-pointer env on_clear_password s e = cc

fire_indicator-pointer :
    (env : Env) (now : Timespec) (t : Timer TimerCallback) (s : State)
    → t.callback ≡ on_clear_indicator
    → (fire_timer env now t s).clear_password_timer ≡ s.clear_password_timer
unfolding fire
fire_indicator-pointer env now t s c = elim (Bool-cases (has_expired t.expiry now)) [
  | inl x ↦ rw x (called_indicator-pointer env t.callback s c)
  | inr x ↦ rw x refl
]

fire_none :
    (env : Env) (now : Timespec) (t : Timer TimerCallback) (s : State)
    → has_expired t.expiry now ≡ false
    → fire_timer env now t s ≡ s
unfolding fire
fire_none env now t s x = rw x refl

-- The walk ends with a sound lock.
abbrev pub Survives : Env → Timespec → State → Type 0
Survives env now s = (s' : State) × (poll_timers env now s ≡ done s') × IsSound s'

-- With two timers, once the second is found and its pointer still names it.
Survives-two :
    (env : Env) (now : Timespec) (t u : Timer TimerCallback) (s : State)
    → IsSound s
    → s.eventloop.timers ≡ t ∷ u ∷ []
    → IsNamed t s
    → timer_at u.id (fire_timer env now t s).eventloop.timers ≡ some (u, none)
    → IsNamed u (fire_timer env now t s)
    → Survives env now s
Survives-two env now t u s v e n there n' = (
  fire_timer env now u (fire_timer env now t s),
  poll_two env now s t u e there,
  fire_timer-IsSound env now u (fire_timer env now t s) (fire_timer-IsSound env now t s v n) n',
)

-- Unless the password timer is due and stands right before the indicator timer, the timers' half of
-- `loop_poll` on a sound lock runs to its end, within its fuel and without reading freed memory, and
-- leaves a sound lock.
pub poll_timers-IsSound :
    (env : Env) (now : Timespec) (s : State) → IsSound s → ¬ IsLate now s → Survives env now s
poll_timers-IsSound env now s v in_time = go s.eventloop.timers refl v.timers
  where
    go :
        (ts : List (Timer TimerCallback))
        → s.eventloop.timers ≡ ts
        → Shape s.clear_indicator_timer s.clear_password_timer s.eventloop.next_id ts
        → Survives env now s
    go [] e shape = (s, poll_none env now s e, v)
    go (t ∷ []) e (_, inl (c, i, _)) = (
      fire_timer env now t s,
      poll_one env now s t e,
      fire_timer-IsSound env now t s v (inl (c, i)),
    )
    go (t ∷ []) e (_, inr (c, _, p)) = (
      fire_timer env now t s,
      poll_one env now s t e,
      fire_timer-IsSound env now t s v (inr (c, p)),
    )
    go (t ∷ u ∷ []) e (_, _, ne, inl (c, c', i, p)) =
        Survives-two env now t u s v e (inl (c, i)) (fire_indicator-timers env now t u s e c ne)
          (inr (c', fire_indicator-pointer env now t s c ∙ p))
    go (t ∷ u ∷ []) e (_, _, ne, inr (c, c', i, p)) = elim (Bool-cases (has_expired t.expiry now)) [
      | inl x ↦ absurd (in_time (t, u, e, c, x))
      | inr x ↦
          Survives-two env now t u s v e (inr (c, p)) (fire_none-timers env now t u s e x ne)
            (subst (λ k. IsNamed u k) (sym (fire_none env now t s x)) (inl (c', i)))
    ]
    go (t ∷ u ∷ w ∷ ts) e shape = absurd shape

-- If the password timer is due and stands right before the indicator timer, the walk reads the
-- indicator timer after `schedule_indicator_clear` has freed it.
pub poll_timers-IsLate :
    (env : Env) (now : Timespec) (s : State)
    → IsSound s
    → IsLate now s
    → poll_timers env now s ≡ use_after_free
poll_timers-IsLate env now s v (t, u, e, c, x) = go (
    subst (λ ts. Shape s.clear_indicator_timer s.clear_password_timer s.eventloop.next_id ts) e
      v.timers)
  where
    go :
        Shape s.clear_indicator_timer s.clear_password_timer s.eventloop.next_id (t ∷ u ∷ [])
        → poll_timers env now s ≡ use_after_free
    go (_, _, _, inl (c', _, _, _)) = absurd (clash (sym c' ∙ c))
      where
        clash : on_clear_indicator ≡ on_clear_password → ⊥
        clash q = cc
    go (_, lt, ne, inr (_, _, i, _)) =
        poll_freed env now s t u e (fire_password-timers env now t u s e i lt c x ne)
