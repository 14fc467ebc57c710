-- ===== src/Lock.antt =====
-- The lock itself: the keys, timers and answers that move `auth_state` (password.c, and `comm_in`
-- and `display_in` of main.c). A handler is a function of the state and of what the system answers
-- while it runs.
pub mod Timers
pub mod Invariant
pub mod Poll
pub mod Expiry
pub mod Late
pub mod Text
pub mod Run
pub mod Main
use swaylock.Base.{
  ℕ, ◌+◌, Bool, true, false, ◌&&◌, Option, none, some, List, ◌++◌, ◌==◌, if◌then◌else◌,
}
use swaylock.Loop.{System, Loop, Timespec, Walk, loop_remove_timer, loop_add_timer, dispatch_timers}
use swaylock.Password.{Password, clear_password_buffer, backspace, append_ch}
use swaylock.Comm.{Writes, read_comm_reply, write_comm_request}
use swaylock.State.{
  AuthState, State, on_clear_indicator, on_clear_password, TimerCallback, FdCallback,
}
use swaylock.Surface.{damage_state}

-- The clock and memory, and the results of the writes to the request pipe.
pub record Env : Type 0 where
  pub sys : System
  pub writes : Writes

abbrev pub EventLoop : Type 0
EventLoop = Loop FdCallback TimerCallback

-- `if (timer) loop_remove_timer(state->eventloop, timer)`
unfoldable pub cancel : EventLoop → Option ℕ → EventLoop
cancel l none = l
cancel l (some id) = (loop_remove_timer l id).0

-- Cancel the old timer, if there is one, and add another: the loop, and the new pointer.
unfoldable pub reschedule : Env → EventLoop → Option ℕ → ℕ → TimerCallback → EventLoop × Option ℕ
unfolding cancel
reschedule env l old ms callback = loop_add_timer env.sys (cancel l old) ms callback

unfoldable pub schedule_indicator_clear : Env → State → State
schedule_indicator_clear env s =
    let r = reschedule env s.eventloop s.clear_indicator_timer 3000 on_clear_indicator in
    record s { eventloop = r.0; clear_indicator_timer = r.1 }

unfoldable pub schedule_password_clear : Env → State → State
schedule_password_clear env s =
    let r = reschedule env s.eventloop s.clear_password_timer 10000 on_clear_password in
    record s { eventloop = r.0; clear_password_timer = r.1 }

unfoldable pub clear_indicator : State → State
clear_indicator s =
    damage_state (record s { clear_indicator_timer = none; auth_state = AuthState.idle })

unfoldable pub clear_password : Env → State → State
clear_password env s = schedule_indicator_clear env (
    damage_state (record s {
      clear_password_timer = none;
      auth_state = AuthState.clear;
      password = clear_password_buffer s.password;
    }))

-- What the event loop calls when a timer fires.
unfoldable pub call_timer : Env → TimerCallback → State → State
unfolding clear_indicator clear_password
call_timer env on_clear_indicator s = clear_indicator s
call_timer env on_clear_password s = clear_password env s

-- The request itself: the state while it runs, its password, its answer.
unfoldable pub request_check : Env → State → State
request_check env s =
    let (result, pw, sent) = write_comm_request env.writes s.password in
    let s' = record s { password = pw; request_pipe = s.request_pipe ++ sent } in
    if result
    then s'
    else schedule_indicator_clear env (record s' { auth_state = AuthState.invalid })

unfoldable pub submit_password : Env → State → State
unfolding request_check
submit_password env s =
    if s.args.ignore_empty && s.password.len == 0
    then s
    else damage_state (request_check env (record s { auth_state = AuthState.validating }))

-- The key symbols that `swaylock_handle_key` tells apart, with the names of xkbcommon.
pub data Keysym : Type 0 where
  kp_enter return delete back_space escape : Keysym
  caps_lock shift_l shift_r control_l control_r meta_l meta_r alt_l alt_r super_l super_r : Keysym
  m d j c u : Keysym
  other : Keysym

-- The `default` branch.
unfoldable pub type_codepoint : Env → State → ℕ → State
type_codepoint env s codepoint =
    if codepoint == 0
    then s
    else schedule_password_clear env (
        schedule_indicator_clear env (
          damage_state
            (record s { password = append_ch s.password codepoint; auth_state = AuthState.input })))

-- Delete and BackSpace.
unfoldable pub erase : Env → State → State
erase env s =
    let (pw, erased) = backspace s.password in
    let mark = if erased then AuthState.backspace else AuthState.clear in
    schedule_password_clear env
      (schedule_indicator_clear env (damage_state (record s { password = pw; auth_state = mark })))

-- Escape, and Control with c or u.
unfoldable pub clear_typed : Env → State → State
clear_typed env s = schedule_indicator_clear env (
    damage_state
      (record s { password = clear_password_buffer s.password; auth_state = AuthState.clear }))

-- A modifier key.
unfoldable pub press_modifier : Env → State → State
press_modifier env s =
    schedule_password_clear env
      (schedule_indicator_clear env (damage_state (record s { auth_state = AuthState.input_nop })))

-- What the `switch` does with a key symbol.
pub data Action : Type 0 where
  submits erases clears modifies types : Action

-- The cases of the `switch` with their fallthroughs; the flag is `state->xkb.control`.
unfoldable pub action_of : Keysym → Bool → Action
action_of kp_enter control = submits
action_of return control = submits
action_of delete control = erases
action_of back_space control = erases
action_of escape control = clears
action_of m control = if control then submits else types
action_of d control = if control then submits else types
action_of j control = if control then submits else types
action_of c control = if control then clears else types
action_of u control = if control then clears else types
action_of other control = types
action_of _ control = modifies

unfoldable pub perform : Env → State → Action → ℕ → State
unfolding submit_password erase clear_typed press_modifier type_codepoint
perform env s submits codepoint = submit_password env s
perform env s erases codepoint = erase env s
perform env s clears codepoint = clear_typed env s
perform env s modifies codepoint = press_modifier env s
perform env s types codepoint = type_codepoint env s codepoint

abbrev pub is_validating : AuthState → Bool
is_validating AuthState.validating = true
is_validating _ = false

unfoldable pub swaylock_handle_key : Env → State → Keysym → ℕ → State
unfolding perform action_of
swaylock_handle_key env s keysym codepoint =
    if is_validating s.auth_state
    then s
    else perform env s (action_of keysym s.xkb.control) codepoint

-- `wl_display_dispatch` returned -1 or not. What the listeners that it calls do are steps of their
-- own.
unfoldable pub display_in : Bool → State → State
display_in failed s = if failed then record s { run_display = false } else s

unfoldable pub comm_in : Env → Option (List ℕ) → State → State
comm_in env answer s =
    if read_comm_reply answer
    then record s { run_display = false }
    else damage_state (
        let s' = schedule_indicator_clear env (record s { auth_state = AuthState.invalid }) in
        record s' { failed_attempts = s'.failed_attempts + 1 })

-- The timers' half of `loop_poll` with this program's callbacks; `now` is the clock that it reads.
unfoldable pub poll_timers : Env → Timespec → State → Walk State
poll_timers env now s =
    dispatch_timers (λ s. s.eventloop) (λ l s. record s { eventloop = l }) (call_timer env) now s
