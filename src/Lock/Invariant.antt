-- ===== src/Lock/Invariant.antt =====
-- What holds of the lock between two events, and the handlers that keep it.
use swaylock.Base.{
  ℕ, ◌+◌, ◌^◌, ◌<◌, inl, inr, ◌&&◌, Option, List, ◌++◌, ◌==◌, if◌then◌else◌, Bool-cases,
}
use swaylock.Password.{Password, IsValid, clear_password_buffer, backspace, append_ch}
use swaylock.Password.Clear.{clear_password_buffer-IsValid}
use swaylock.Password.Edit.{backspace-IsValid, append_ch_lem}
use swaylock.Comm.{write_comm_request, read_comm_reply}
use swaylock.State.{State, AuthState}
use swaylock.Surface.{damage_state}
use swaylock.Lock.{
  Env, Keysym, Action, submits, erases, clears, modifies, types, schedule_indicator_clear,
  schedule_password_clear, request_check, submit_password, perform, action_of, swaylock_handle_key,
  comm_in, is_validating,
}
use swaylock.Lock.Timers.{TimersMatch, reschedule-indicator, reschedule-password}

-- The timer pointers name the timers that run, and the password buffer is well-formed and wiped past its
-- text.
pub record IsSound (s : State) : Type 0 where
  pub timers : TimersMatch s
  pub password : IsValid s.password

pub schedule_indicator_clear-IsSound :
    (env : Env) (s : State) → IsSound s → IsSound (schedule_indicator_clear env s)
unfolding schedule_indicator_clear
schedule_indicator_clear-IsSound env s v = record {
  timers =
      reschedule-indicator env s.eventloop s.clear_indicator_timer s.clear_password_timer 3000
        v.timers;
  password = v.password;
}

pub schedule_password_clear-IsSound :
    (env : Env) (s : State) → IsSound s → IsSound (schedule_password_clear env s)
unfolding schedule_password_clear
schedule_password_clear-IsSound env s v = record {
  timers =
      reschedule-password env s.eventloop s.clear_indicator_timer s.clear_password_timer 10000
        v.timers;
  password = v.password;
}

marked-IsSound :
    (s : State) (pw : Password) (a : AuthState)
    → IsSound s
    → IsValid pw
    → IsSound (record s { password = pw; auth_state = a })
marked-IsSound s pw a v w = record { timers = v.timers; password = w }

pub damage_state-IsSound : (s : State) → IsSound s → IsSound (damage_state s)
unfolding damage_state
damage_state-IsSound s v = record { timers = v.timers; password = v.password }

damage_marked-IsSound :
    (s : State) (pw : Password) (a : AuthState)
    → IsSound s
    → IsValid pw
    → IsSound (damage_state (record s { password = pw; auth_state = a }))
damage_marked-IsSound s pw a v w =
    damage_state-IsSound (record s { password = pw; auth_state = a }) (marked-IsSound s pw a v w)

request_check-IsSound : (env : Env) (s : State) → IsSound s → IsSound (request_check env s)
unfolding request_check write_comm_request
request_check-IsSound env s v =
    let (result, pw, sent) = write_comm_request env.writes s.password in
    let cleared = (clear_password_buffer-IsValid s.password v.password.sized).0 in
    let after : IsSound (record s { password = pw; request_pipe = s.request_pipe ++ sent }) =
      record { timers = v.timers; password = cleared } in
    elim (Bool-cases result) [
      | inl e ↦ rw e after
      | inr e ↦ rw e (
          schedule_indicator_clear-IsSound env
            (record s {
              password = pw;
              request_pipe = s.request_pipe ++ sent;
              auth_state = AuthState.invalid;
            })
            (record { timers = v.timers; password = cleared }))
    ]

pub submit_password-IsSound : (env : Env) (s : State) → IsSound s → IsSound (submit_password env s)
unfolding submit_password
submit_password-IsSound env s v = elim (Bool-cases (s.args.ignore_empty && s.password.len == 0)) [
  | inl e ↦ rw e v
  | inr e ↦ rw e (
      damage_state-IsSound (request_check env (record s { auth_state = AuthState.validating })) (
        request_check-IsSound env (record s { auth_state = AuthState.validating })
          (marked-IsSound s s.password AuthState.validating v v.password)))
]

-- Both timers are started again.
rescheduled-IsSound :
    (env : Env) (s : State)
    → IsSound s
    → IsSound (schedule_password_clear env (schedule_indicator_clear env s))
rescheduled-IsSound env s v =
    schedule_password_clear-IsSound env (schedule_indicator_clear env s)
      (schedule_indicator_clear-IsSound env s v)

perform-IsSound :
    (env : Env) (s : State) (action : Action) (codepoint : ℕ)
    → codepoint < 2 ^ 21
    → IsSound s
    → IsSound (perform env s action codepoint)
unfolding perform
perform-IsSound env s submits codepoint h v = submit_password-IsSound env s v
perform-IsSound env s erases codepoint h v =
    let mark = if (backspace s.password).1 then AuthState.backspace else AuthState.clear in
    rescheduled-IsSound env
      (damage_state (record s { password = (backspace s.password).0; auth_state = mark }))
      (damage_marked-IsSound s (backspace s.password).0 mark v
        (backspace-IsValid s.password v.password).0)
perform-IsSound env s clears codepoint h v =
    schedule_indicator_clear-IsSound env
      (damage_state
        (record s { password = clear_password_buffer s.password; auth_state = AuthState.clear }))
      (damage_marked-IsSound s (clear_password_buffer s.password) AuthState.clear v
        (clear_password_buffer-IsValid s.password v.password.sized).0)
perform-IsSound env s modifies codepoint h v =
    rescheduled-IsSound env (damage_state (record s { auth_state = AuthState.input_nop }))
      (damage_marked-IsSound s s.password AuthState.input_nop v v.password)
perform-IsSound env s types codepoint h v = elim (Bool-cases (codepoint == 0)) [
  | inl e ↦ rw e v
  | inr e ↦ rw e (
      rescheduled-IsSound env
        (damage_state
          (record s { password = append_ch s.password codepoint; auth_state = AuthState.input }))
        (damage_marked-IsSound s (append_ch s.password codepoint) AuthState.input v
          (append_ch_lem s.password codepoint v.password h).0))
]

-- Every key, with a code point below 2^21 and whatever the system answers, keeps the lock sound.
pub swaylock_handle_key-IsSound :
    (env : Env) (s : State) (keysym : Keysym) (codepoint : ℕ)
    → codepoint < 2 ^ 21
    → IsSound s
    → IsSound (swaylock_handle_key env s keysym codepoint)
unfolding swaylock_handle_key
swaylock_handle_key-IsSound env s keysym codepoint h v =
    elim (Bool-cases (is_validating s.auth_state)) [
      | inl e ↦ rw e v
      | inr e ↦ rw e (perform-IsSound env s (action_of keysym s.xkb.control) codepoint h v)
    ]

-- An answer of the checking process, yes, no or a failed read, keeps the lock sound.
pub comm_in-IsSound :
    (env : Env) (answer : Option (List ℕ)) (s : State) → IsSound s → IsSound (comm_in env answer s)
unfolding comm_in
comm_in-IsSound env answer s v =
    let failed = record s { auth_state = AuthState.invalid } in
    let s' = schedule_indicator_clear env failed in
    let v' =
      schedule_indicator_clear-IsSound env failed
        (marked-IsSound s s.password AuthState.invalid v v.password) in
    elim (Bool-cases (read_comm_reply answer)) [
      | inl e ↦ rw e (record { timers = v.timers; password = v.password })
      | inr e ↦ rw e (
          damage_state-IsSound (record s' { failed_attempts = s'.failed_attempts + 1 })
            (record { timers = v'.timers; password = v'.password }))
    ]
