-- ===== src/Lock/Poll.antt =====
-- What the event loop's walk over the timers does to the lock.
use swaylock.Base.{ℕ, ◌≡◌, sym, subst, ◌⊎◌, inl, inr, some, Bool-cases}
use swaylock.Loop.{Timer, Timespec, loop_remove_timer, fire, has_expired}
use swaylock.State.{State, TimerCallback, on_clear_indicator, on_clear_password}
use swaylock.Surface.{damage_state}
use swaylock.Lock.{Env, reschedule, call_timer, schedule_indicator_clear}
use swaylock.Lock.Timers.{Shape, indicator-remove, password-remove, reschedule-indicator}
use swaylock.Password.Clear.{clear_password_buffer-IsValid}
use swaylock.Lock.Invariant.{IsSound}

abbrev pub fire_timer : Env → Timespec → Timer TimerCallback → State → State
fire_timer env = fire (λ s. s.eventloop) (λ l s. record s { eventloop = l }) (call_timer env)

-- The callback, and then the removal of the timer at `id`.
fired : Env → TimerCallback → ℕ → State → State
fired env c id s =
    let s' = call_timer env c s in record s' { eventloop = (loop_remove_timer s'.eventloop id).0 }

fired_indicator-IsSound :
    (env : Env) (id : ℕ) (s : State)
    → IsSound s
    → s.clear_indicator_timer ≡ some id
    → IsSound (fired env on_clear_indicator id s)
unfolding fired call_timer loop_remove_timer damage_state
fired_indicator-IsSound env id s v e = record {
  timers = indicator-remove id s.clear_password_timer s.eventloop.next_id s.eventloop.timers (
      subst (λ i. Shape i s.clear_password_timer s.eventloop.next_id s.eventloop.timers) e
        v.timers);
  password = v.password;
}

fired_password-IsSound :
    (env : Env) (id : ℕ) (s : State)
    → IsSound s
    → s.clear_password_timer ≡ some id
    → IsSound (fired env on_clear_password id s)
unfolding fired call_timer loop_remove_timer damage_state schedule_indicator_clear
fired_password-IsSound env id s v e =
    let r = reschedule env s.eventloop s.clear_indicator_timer 3000 on_clear_indicator in
    record {
      timers = password-remove r.1 id r.0.next_id r.0.timers (
          reschedule-indicator env s.eventloop s.clear_indicator_timer (some id) 3000 (
            subst (λ p. Shape s.clear_indicator_timer p s.eventloop.next_id s.eventloop.timers) e
              v.timers));
      password = (clear_password_buffer-IsValid s.password v.password.sized).0;
    }

-- The pointer that belongs to a timer's callback names the timer.
abbrev pub IsNamed : Timer TimerCallback → State → Type 0
IsNamed t s =
    (t.callback ≡ on_clear_indicator) × (s.clear_indicator_timer ≡ some t.id)
    ⊎ (t.callback ≡ on_clear_password) × (s.clear_password_timer ≡ some t.id)

-- A timer that is due fires and is gone, and what holds of the lock still holds.
pub fire_timer-IsSound :
    (env : Env) (now : Timespec) (t : Timer TimerCallback) (s : State)
    → IsSound s
    → IsNamed t s
    → IsSound (fire_timer env now t s)
unfolding fire fired
fire_timer-IsSound env now t s v n = elim (Bool-cases (has_expired t.expiry now)) [
  | inl e ↦ rw e (elim n [
    | inl (c, i) ↦
        subst (λ k. IsSound (fired env k t.id s)) (sym c) (fired_indicator-IsSound env t.id s v i)
    | inr (c, p) ↦
        subst (λ k. IsSound (fired env k t.id s)) (sym c) (fired_password-IsSound env t.id s v p)
  ])
  | inr e ↦ rw e v
]
