-- ===== src/Lock/Run.antt =====
-- Whole runs of the lock: any sequence of what the callbacks of the event loop do to the state. The
-- listeners of outputs and surfaces, and those of frames, change only the surfaces: they are one event,
-- with any surfaces that they leave. A crash of theirs is not part of a run.
pub mod Tally
pub mod Steps
pub mod Ends
use swaylock.Base.{
  ℕ, suc, ◌+◌, ◌^◌, ◌<◌, ◌≡◌, Bool, false, not, ◌&&◌, ◌||◌, Option, List, [], ◌∷◌, if◌then◌else◌,
}
use swaylock.Loop.{
  Timespec, Timer, Walk, done, use_after_free, out_of_fuel, first_id, fire, timer_at, walk_timers,
  has_expired,
}
use swaylock.Password.{IsValid}
use swaylock.Comm.{read_comm_reply}
use swaylock.State.{State, Surface, TimerCallback, on_clear_indicator, on_clear_password, AuthState}
use swaylock.Surface.{damage_state}
use swaylock.Seat.{Modifiers, keyboard_modifiers}
use swaylock.Lock.Late.{IsLate}
use swaylock.Lock.{
  Env, Keysym, call_timer, schedule_indicator_clear, swaylock_handle_key, display_in, comm_in,
  poll_timers,
}
use swaylock.Lock.Invariant.{IsSound, swaylock_handle_key-IsSound, comm_in-IsSound}
use swaylock.Lock.Timers.{Shape}
use swaylock.Lock.Poll.{fire_timer}
use swaylock.Lock.Expiry.{walk, poll-walk, walk-found, walk-freed}
use swaylock.Lock.Late.{IsLate, poll_timers-IsSound, poll_timers-IsLate}
use swaylock.Lock.Text.{swaylock_handle_key-Does}

-- A key, an update of the modifiers, what another listener leaves as the surfaces, an answer on the reply
-- pipe, a dispatch of the display that fails or not, or a turn of the timers.
pub data Event : Type 0 where
  key : Env → Keysym → ℕ → Event
  modifiers : Modifiers → Event
  outputs : List Surface → Event
  answer : Env → Option (List ℕ) → Event
  display : Bool → Event
  tick : Env → Timespec → Event

unfoldable pub step : State → Event → Walk State
unfolding keyboard_modifiers
step s (key env keysym codepoint) = done (swaylock_handle_key env s keysym codepoint)
step s (modifiers m) = done (keyboard_modifiers m s)
step s (outputs os) = done (record s { surfaces = os })
step s (answer env bytes) = done (comm_in env bytes s)
step s (display failed) = done (display_in failed s)
step s (tick env now) = poll_timers env now s

-- The main loop looks at the display flag only between two turns; its runs are among these, cut
-- into events.
unfoldable pub run : State → List Event → Walk State
run s [] = done s
run s (e ∷ es) = elim (step s e) [
  | done s' ↦ run s' es
  | use_after_free ↦ use_after_free
  | out_of_fuel ↦ out_of_fuel
]

-- The events that may end the lock: an answer of yes, or a display that is gone.
abbrev pub ends : Event → Bool
ends (answer env bytes) = read_comm_reply bytes
ends (display failed) = failed
ends _ = false

abbrev pub any_ends : List Event → Bool
any_ends [] = false
any_ends (e ∷ es) = ends e || any_ends es

-- The answers of no, failed reads among them.
abbrev pub refusals : List Event → ℕ
refusals [] = 0
refusals (answer env bytes ∷ es) =
    let rest = refusals es in if read_comm_reply bytes then rest else suc rest
refusals (e ∷ es) = refusals es

-- The code points of the keys are below 2^21, as those of Unicode are.
abbrev pub IsText : Event → Type 0
IsText (key env keysym codepoint) = codepoint < 2 ^ 21
IsText _ = Unit {0}

-- A turn of the timers that comes too late.
abbrev pub IsLateTurn : State → Event → Type 0
IsLateTurn s (tick env now) = IsLate now s
IsLateTurn s _ = ⊥

-- The run from a state by some events reaches such a turn.
pub data ReachesLate : State → List Event → Type 0 where
  late_now : {s : State} → {e : Event} → {es : List Event} → IsLateTurn s e → ReachesLate s (e ∷ es)
  late_after :
      {s s' : State}
      → {e : Event} → {es : List Event} → step s e ≡ done s'
      → ReachesLate s' es
      → ReachesLate s (e ∷ es)

-- Where a run ends with a state: it is sound, the display flag is still set exactly if it was set
-- before and no event ended the lock, and the refusals have been counted.
abbrev pub Runs : State → List Event → Walk State → Type 0
Runs s es (done s') =
    IsSound s'
    × (s'.run_display ≡ s.run_display && not (any_ends es))
    × (s'.failed_attempts ≡ s.failed_attempts + refusals es)
Runs s es use_after_free = ReachesLate s es
Runs s es out_of_fuel = ⊥
