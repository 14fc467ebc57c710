-- ===== src/Lock/Run/Tally.antt =====
-- The display flag and the count of failed attempts, through one event.
use swaylock.Base.{
  ℕ, zero, suc, ◌+◌, ◌^◌, ◌<◌, ◌≡◌, refl, sym, ap, ap₂, ◌∙◌, subst, inl, inr, Bool, true, false,
  not, ◌&&◌, Option, none, some, List, [], ◌∷◌, arith, if◌then◌else◌, Bool-cases, Option-cases,
  length,
}
use swaylock.Loop.{
  Timespec, Timer, Walk, done, use_after_free, out_of_fuel, first_id, fire, timer_at, walk_timers,
  has_expired,
}
use swaylock.Password.{IsValid}
use swaylock.Comm.{read_comm_reply}
use swaylock.State.{State, TimerCallback, on_clear_indicator, on_clear_password, AuthState}
use swaylock.Surface.{damage_state}
use swaylock.Seat.{Modifiers, update_caps_lock, keyboard_modifiers, same}
use swaylock.Lock.{
  Env, Keysym, call_timer, schedule_indicator_clear, swaylock_handle_key, display_in, comm_in,
}
use swaylock.Lock.Invariant.{IsSound}
use swaylock.Lock.Poll.{fire_timer}
use swaylock.Lock.Expiry.{walk, poll-walk, walk-found, walk-freed}
use swaylock.Lock.Text.{swaylock_handle_key-Does}
use swaylock.Lock.Run.{
  Event, key, modifiers, outputs, answer, display, tick, step, ends, refusals, IsText,
}

-- The display flag and the count of failed attempts.
abbrev pub tally : State → Bool × ℕ
tally s = (s.run_display, s.failed_attempts)

call_timer-tally :
    (env : Env) (c : TimerCallback) (s : State) → tally (call_timer env c s) ≡ tally s
unfolding call_timer schedule_indicator_clear damage_state
call_timer-tally env on_clear_indicator s = refl
call_timer-tally env on_clear_password s = refl

fire_timer-tally :
    (env : Env) (now : Timespec) (t : Timer TimerCallback) (s : State)
    → tally (fire_timer env now t s) ≡ tally s
unfolding fire
fire_timer-tally env now t s = elim (Bool-cases (has_expired t.expiry now)) [
  | inl e ↦ rw e (call_timer-tally env t.callback s)
  | inr e ↦ rw e refl
]

-- Where a step ends with a state, its tally is the one stated.
abbrev pub Tallies : Bool × ℕ → Walk State → Type 0
Tallies q (done s) = tally s ≡ q
Tallies q use_after_free = Unit {0}
Tallies q out_of_fuel = Unit {0}

walk-tally :
    (env : Env) (fuel : ℕ) (now : Timespec) (pos : Option ℕ) (s : State)
    → Tallies (tally s) (walk env fuel now pos s)
unfolding walk walk_timers
walk-tally env zero now none s = refl
walk-tally env zero now (some id) s = tt
walk-tally env (suc fuel) now none s = refl
walk-tally env (suc fuel) now (some id) s = elim (Option-cases (timer_at id s.eventloop.timers)) [
  | inl e ↦ subst (λ w. Tallies (tally s) w) (sym (walk-freed env fuel now id s e)) tt
  | inr ((t, next), e) ↦
      subst (λ w. Tallies (tally s) w) (sym (walk-found env fuel now id s t next e))
        (subst (λ q. Tallies q (walk env fuel now next (fire_timer env now t s)))
          (fire_timer-tally env now t s) (walk-tally env fuel now next (fire_timer env now t s)))
]

-- The tally after an event.
abbrev pub tally_after : State → Event → Bool × ℕ
tally_after s e = (s.run_display && not (ends e), s.failed_attempts + refusals (e ∷ []))

AuthState-discrete : Discrete AuthState
AuthState-discrete = hlevel

key-tally :
    (env : Env) (s : State) (keysym : Keysym) (codepoint : ℕ)
    → codepoint < 2 ^ 21
    → IsValid s.password
    → tally (swaylock_handle_key env s keysym codepoint) ≡ tally s
key-tally env s keysym codepoint h v =
    let (waits, does) = swaylock_handle_key-Does env s keysym codepoint h v in
    elim (AuthState-discrete s.auth_state AuthState.validating) [
      | yes e ↦ ap (λ k. tally k) (waits e)
      | no ne ↦ ap₂ (λ d n. (d, n)) (does ne).display (does ne).attempts
    ]

answer-tally :
    (env : Env) (bytes : Option (List ℕ)) (s : State)
    → tally (comm_in env bytes s) ≡ tally_after s (answer env bytes)
unfolding comm_in schedule_indicator_clear damage_state
answer-tally env bytes s = elim (Bool-cases (read_comm_reply bytes)) [
  | inl e ↦ rw e (ground arith)
  | inr e ↦ rw e (ground arith)
]

caps-tally : (b : Bool) (s : State) → tally (update_caps_lock b s) ≡ tally s
unfolding update_caps_lock damage_state
caps-tally b s = elim (Bool-cases (same b s.xkb.caps_lock)) [
  | inl e ↦ rw e refl
  | inr e ↦ rw e refl
]

modifiers-tally : (m : Modifiers) (s : State) → tally (keyboard_modifiers m s) ≡ tally s
unfolding keyboard_modifiers damage_state
modifiers-tally m s =
    caps-tally m.caps_lock (if m.layout_same then s else damage_state s) ∙ redrawn m.layout_same
  where
    redrawn : (b : Bool) → tally (if b then s else damage_state s) ≡ tally s
    redrawn true = refl
    redrawn false = refl

pub quiet : (s : State) → tally s ≡ (s.run_display && true, s.failed_attempts + 0)
quiet s = ground arith

pub step-tally :
    (s : State) (e : Event) → IsSound s → IsText e → Tallies (tally_after s e) (step s e)
unfolding step display_in
step-tally s (key env keysym codepoint) v h =
    key-tally env s keysym codepoint h v.password ∙ quiet s
step-tally s (modifiers m) v h = modifiers-tally m s ∙ quiet s
step-tally s (outputs os) v h = quiet s
step-tally s (answer env bytes) v h = answer-tally env bytes s
step-tally s (display true) v h = ground arith
step-tally s (display false) v h = quiet s
step-tally s (tick env now) v h =
    subst (λ w. Tallies (tally_after s (tick env now)) w)
      (sym (poll-walk env now s s.eventloop.timers refl))
      (subst
        (λ q.
          Tallies q (walk env (length s.eventloop.timers + 1) now (first_id s.eventloop.timers) s))
        (quiet s)
        (walk-tally env (length s.eventloop.timers + 1) now (first_id s.eventloop.timers) s))
