-- ===== src/Lock/Run/Steps.antt =====
-- The invariant of the lock through one event.
use swaylock.Base.{
  ◌≡◌, refl, sym, ap, ◌∙◌, subst, ◌⊎◌, inl, inr, true, false, List, [], ◌∷◌, Bool-cases,
}
use swaylock.Loop.{Timespec, Timer, Walk, done, use_after_free, out_of_fuel, has_expired}
use swaylock.State.{State, TimerCallback, on_clear_indicator, on_clear_password}
use swaylock.Lock.{display_in}
use swaylock.Lock.Invariant.{IsSound, swaylock_handle_key-IsSound, comm_in-IsSound}
use swaylock.Seat.Keys.{keyboard_modifiers-IsSound}
use swaylock.Lock.Timers.{Shape}
use swaylock.Lock.Late.{IsLate, poll_timers-IsSound, poll_timers-IsLate}
use swaylock.Lock.Run.{
  IsLateTurn, Event, key, modifiers, outputs, answer, display, tick, step, IsText,
}

-- Where a step ends with a state, that state is sound; it never runs out of fuel, and reads freed
-- memory only in a turn of the timers that comes too late.
abbrev pub Steps : State → Event → Walk State → Type 0
Steps s e (done s') = IsSound s'
Steps s e use_after_free = IsLateTurn s e
Steps s e out_of_fuel = ⊥

none_two : {t u : Timer TimerCallback} → [] ≡ t ∷ u ∷ [] → ⊥
none_two h = cc

one_two : {t t' u' : Timer TimerCallback} → t ∷ [] ≡ t' ∷ u' ∷ [] → ⊥
one_two h = cc

first_eq : {t u t' u' : Timer TimerCallback} → t ∷ u ∷ [] ≡ t' ∷ u' ∷ [] → t ≡ t'
first_eq h = cc

clash : on_clear_indicator ≡ on_clear_password → ⊥
clash h = cc

differ : false ≡ true → ⊥
differ h = cc

IsLate-or_not : (now : Timespec) (s : State) → IsSound s → IsLate now s ⊎ ¬ IsLate now s
IsLate-or_not now s v = go s.eventloop.timers refl v.timers
  where
    go :
        (ts : List (Timer TimerCallback))
        → s.eventloop.timers ≡ ts
        → Shape s.clear_indicator_timer s.clear_password_timer s.eventloop.next_id ts
        → IsLate now s ⊎ ¬ IsLate now s
    go [] e shape = inr (λ (t', u', e', _, _). absurd (none_two (sym e ∙ e')))
    go (t ∷ []) e shape = inr (λ (t', u', e', _, _). absurd (one_two (sym e ∙ e')))
    go (t ∷ u ∷ []) e (_, _, _, inl (c, _, _, _)) = inr (λ (t', u', e', c', _).
        absurd (clash (sym c ∙ (ap (λ k. k.callback) (first_eq (sym e ∙ e')) ∙ c'))))
    go (t ∷ u ∷ []) e (_, _, _, inr (c, _, _, _)) = elim (Bool-cases (has_expired t.expiry now)) [
      | inl x ↦ inl (t, u, e, c, x)
      | inr x ↦ inr (λ (t', u', e', c', x').
          absurd
            (differ (sym x ∙ (ap (λ k. has_expired k.expiry now) (first_eq (sym e ∙ e')) ∙ x'))))
    ]
    go (t ∷ u ∷ w ∷ ts) e shape = absurd shape

pub step-Steps : (s : State) (e : Event) → IsSound s → IsText e → Steps s e (step s e)
unfolding step display_in
step-Steps s (key env keysym codepoint) v h = swaylock_handle_key-IsSound env s keysym codepoint h v
step-Steps s (modifiers m) v h = (keyboard_modifiers-IsSound m s v).0
step-Steps s (outputs os) v h = record { timers = v.timers; password = v.password }
step-Steps s (answer env bytes) v h = comm_in-IsSound env bytes s v
step-Steps s (display true) v h = record { timers = v.timers; password = v.password }
step-Steps s (display false) v h = v
step-Steps s (tick env now) v h = elim (IsLate-or_not now s v) [
  | inl late ↦
      subst (λ w. Steps s (tick env now) w) (sym (poll_timers-IsLate env now s v late)) late
  | inr in_time ↦
      let (s', e, v') = poll_timers-IsSound env now s v in_time in
      subst (λ w. Steps s (tick env now) w) (sym e) v'
]
