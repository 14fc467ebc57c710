-- ===== src/Lock/Expiry.antt =====
-- The whole walk over the timers: when it is safe, and when it reads a freed timer.
use swaylock.Base.{
  ℕ, zero, suc, ◌+◌, ◌<◌, ◌≡◌, refl, ap, ◌∙◌, ◌≢◌, inl, inr, true, false, Option, none, some, List,
  [], ◌∷◌, arith, Bool-cases, length,
}
use swaylock.Loop.{
  Timer, Timespec, Walk, done, use_after_free, first_id, remove_timer, loop_remove_timer, fire,
  expiry_after, loop_add_timer, walk_timers, dispatch_timers, timer_at, has_expired,
}
use swaylock.State.{State, TimerCallback, on_clear_indicator, on_clear_password}
use swaylock.Surface.{damage_state}
use swaylock.Lock.{
  Env, EventLoop, cancel, reschedule, call_timer, schedule_indicator_clear, poll_timers,
}
use swaylock.Lock.Poll.{fire_timer}

unfoldable pub walk : Env → ℕ → Timespec → Option ℕ → State → Walk State
walk env = walk_timers (λ s. s.eventloop) (λ l s. record s { eventloop = l }) (call_timer env)

pub poll-walk :
    (env : Env) (now : Timespec) (s : State) (ts : List (Timer TimerCallback))
    → s.eventloop.timers ≡ ts
    → poll_timers env now s ≡ walk env (length ts + 1) now (first_id ts) s
unfolding poll_timers dispatch_timers walk
poll-walk env now s ts e = ap (λ l. walk env (length l + 1) now (first_id l) s) e

-- What the walk does with what it finds at an address.
abbrev proceed : Env → ℕ → Timespec → State → Option (Timer TimerCallback × Option ℕ) → Walk State
unfolding walk
proceed env fuel now s r = elim r [
  | none ↦ use_after_free
  | some (t, next) ↦ walk env fuel now next (fire_timer env now t s)
]

pub walk-found :
    (env : Env) (fuel : ℕ) (now : Timespec) (id : ℕ) (s : State) (t : Timer TimerCallback)
    (next : Option ℕ)
    → timer_at id s.eventloop.timers ≡ some (t, next)
    → walk env (suc fuel) now (some id) s ≡ walk env fuel now next (fire_timer env now t s)
unfolding walk walk_timers
walk-found env fuel now id s t next h = ap (λ r. proceed env fuel now s r) h

pub walk-freed :
    (env : Env) (fuel : ℕ) (now : Timespec) (id : ℕ) (s : State)
    → timer_at id s.eventloop.timers ≡ none
    → walk env (suc fuel) now (some id) s ≡ use_after_free
unfolding walk walk_timers
walk-freed env fuel now id s h = ap (λ r. proceed env fuel now s r) h

pub walk-end :
    (env : Env) (fuel : ℕ) (now : Timespec) (s : State) → walk env fuel now none s ≡ done s
unfolding walk walk_timers
walk-end env zero now s = refl
walk-end env (suc fuel) now s = refl

timer_at-first :
    (s : State) (t : Timer TimerCallback) (ts : List (Timer TimerCallback))
    → s.eventloop.timers ≡ t ∷ ts
    → timer_at t.id s.eventloop.timers ≡ some (t, first_id ts)
unfolding timer_at
timer_at-first s t ts e = ap (λ l. timer_at t.id l) e ∙ ground arith

-- One timer: it is tested, and the walk ends.
pub poll_one :
    (env : Env) (now : Timespec) (s : State) (t : Timer TimerCallback)
    → s.eventloop.timers ≡ t ∷ []
    → poll_timers env now s ≡ done (fire_timer env now t s)
unfolding first_id
poll_one env now s t e =
    poll-walk env now s (t ∷ []) e
    ∙ (walk-found env 1 now t.id s t none (timer_at-first s t [] e)
        ∙ walk-end env 1 now (fire_timer env now t s))

-- Two timers, the second of which is still there when the walk gets to it.
pub poll_two :
    (env : Env) (now : Timespec) (s : State) (t u : Timer TimerCallback)
    → s.eventloop.timers ≡ t ∷ u ∷ []
    → timer_at u.id (fire_timer env now t s).eventloop.timers ≡ some (u, none)
    → poll_timers env now s ≡ done (fire_timer env now u (fire_timer env now t s))
unfolding first_id
poll_two env now s t u e h =
    let s' = fire_timer env now t s in
    poll-walk env now s (t ∷ u ∷ []) e
    ∙ (walk-found env 2 now t.id s t (some u.id) (timer_at-first s t (u ∷ []) e)
        ∙ (walk-found env 1 now u.id s' u none h ∙ walk-end env 1 now (fire_timer env now u s')))

-- Two timers, the second of which is gone when the walk gets to it.
pub poll_freed :
    (env : Env) (now : Timespec) (s : State) (t u : Timer TimerCallback)
    → s.eventloop.timers ≡ t ∷ u ∷ []
    → timer_at u.id (fire_timer env now t s).eventloop.timers ≡ none
    → poll_timers env now s ≡ use_after_free
unfolding first_id
poll_freed env now s t u e h =
    poll-walk env now s (t ∷ u ∷ []) e
    ∙ (walk-found env 2 now t.id s t (some u.id) (timer_at-first s t (u ∷ []) e)
        ∙ walk-freed env 1 now u.id (fire_timer env now t s) h)

module _ (t u : Timer TimerCallback) (apart : t.id ≢ u.id) where
  second_stays : timer_at u.id (t ∷ u ∷ []) ≡ some (u, none)
  unfolding timer_at
  second_stays = ground arith

  second_left : timer_at u.id (remove_timer t.id (t ∷ u ∷ [])).0 ≡ some (u, none)
  unfolding timer_at remove_timer
  second_left = ground arith

  second_gone :
      (new : Timer TimerCallback)
      → new.id ≢ u.id
      → (timer_at u.id (remove_timer t.id (new ∷ (remove_timer u.id (t ∷ u ∷ [])).0)).0 ≡ none)
        × (timer_at u.id (remove_timer t.id (remove_timer u.id (t ∷ u ∷ [])).0).0 ≡ none)
  unfolding timer_at remove_timer
  second_gone new ne = ground arith

called_indicator-timers :
    (env : Env) (c : TimerCallback) (s : State)
    → c ≡ on_clear_indicator
    → (call_timer env c s).eventloop.timers ≡ s.eventloop.timers
unfolding call_timer damage_state
called_indicator-timers env on_clear_indicator s e = refl
called_indicator-timers env on_clear_password s e = cc

-- After the first of two timers has been tested, the second is found where the first cannot have
-- cancelled it.
pub fire_indicator-timers :
    (env : Env) (now : Timespec) (t u : Timer TimerCallback) (s : State)
    → s.eventloop.timers ≡ t ∷ u ∷ []
    → t.callback ≡ on_clear_indicator
    → t.id ≢ u.id
    → timer_at u.id (fire_timer env now t s).eventloop.timers ≡ some (u, none)
unfolding fire loop_remove_timer
fire_indicator-timers env now t u s e c ne = elim (Bool-cases (has_expired t.expiry now)) [
  | inl x ↦ rw x (
      ap (λ l. timer_at u.id (remove_timer t.id l).0)
        (called_indicator-timers env t.callback s c ∙ e)
      ∙ second_left t u ne)
  | inr x ↦ rw x (ap (λ l. timer_at u.id l) e ∙ second_stays t u ne)
]

pub fire_none-timers :
    (env : Env) (now : Timespec) (t u : Timer TimerCallback) (s : State)
    → s.eventloop.timers ≡ t ∷ u ∷ []
    → has_expired t.expiry now ≡ false
    → t.id ≢ u.id
    → timer_at u.id (fire_timer env now t s).eventloop.timers ≡ some (u, none)
unfolding fire
fire_none-timers env now t u s e x ne = rw x (ap (λ l. timer_at u.id l) e ∙ second_stays t u ne)

rescheduled-timers :
    (env : Env) (l : EventLoop) (t u : Timer TimerCallback)
    → l.timers ≡ t ∷ u ∷ []
    → u.id < l.next_id
    → t.id ≢ u.id
    → timer_at u.id
        (remove_timer t.id (reschedule env l (some u.id) 3000 on_clear_indicator).0.timers).0
      ≡ none
unfolding reschedule cancel loop_remove_timer loop_add_timer
rescheduled-timers env l t u e lt ne =
    let new : Timer TimerCallback = record {
      id = l.next_id;
      callback = on_clear_indicator;
      expiry = expiry_after env.sys.now 3000;
    } in
    elim (Bool-cases (env.sys.has_memory l.next_id)) [
      | inl m ↦ rw m (
          ap (λ ts. timer_at u.id (remove_timer t.id (new ∷ (remove_timer u.id ts).0)).0) e
          ∙ (second_gone t u ne new (omega arith)).0)
      | inr m ↦ rw m (
          ap (λ ts. timer_at u.id (remove_timer t.id (remove_timer u.id ts).0).0) e
          ∙ (second_gone t u ne new (omega arith)).1)
    ]

called_password-loop :
    (env : Env) (c : TimerCallback) (s : State) (i : ℕ)
    → c ≡ on_clear_password
    → s.clear_indicator_timer ≡ some i
    → (call_timer env c s).eventloop
      ≡ (reschedule env s.eventloop (some i) 3000 on_clear_indicator).0
unfolding call_timer damage_state schedule_indicator_clear
called_password-loop env on_clear_indicator s i c e = cc
called_password-loop env on_clear_password s i c e =
    ap (λ p. (reschedule env s.eventloop p 3000 on_clear_indicator).0) e

pub fire_password-timers :
    (env : Env) (now : Timespec) (t u : Timer TimerCallback) (s : State)
    → s.eventloop.timers ≡ t ∷ u ∷ []
    → s.clear_indicator_timer ≡ some u.id
    → u.id < s.eventloop.next_id
    → t.callback ≡ on_clear_password
    → has_expired t.expiry now ≡ true
    → t.id ≢ u.id
    → timer_at u.id (fire_timer env now t s).eventloop.timers ≡ none
unfolding fire loop_remove_timer
fire_password-timers env now t u s e i lt c x ne = rw x (
    ap (λ l. timer_at u.id (remove_timer t.id l.timers).0)
      (called_password-loop env t.callback s u.id c i)
    ∙ rescheduled-timers env s.eventloop t u e lt ne)
