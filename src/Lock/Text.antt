-- ===== src/Lock/Text.antt =====
-- What each key does to the text typed, to the request pipe and to `auth_state`.
use swaylock.Base.{
  ℕ, ◌-◌, ◌^◌, ◌<◌, ◌≡◌, refl, sym, ap, ◌∙◌, ◌≢◌, inl, inr, Bool, false, not, ◌&&◌, List, [], ◌++◌,
  append-nil, arith, ◌==◌, if◌then◌else◌, Bool-cases, get_or, without_last, without_last-snoc,
}
use swaylock.Unicode.Encode.{encoding}
use swaylock.Password.{Password, IsValid, typed, fits, clear_password_buffer, backspace, append_ch}
use swaylock.Password.Clear.{clear_password_buffer-IsValid}
use swaylock.Password.Edit.{backspace-IsValid, append_ch_lem}
use swaylock.Comm.{write_comm_request, send_request}
use swaylock.State.{State, AuthState}
use swaylock.Surface.{damage_state}
use swaylock.Lock.{
  Env, Keysym, Action, submits, erases, clears, modifies, types, schedule_indicator_clear,
  schedule_password_clear, request_check, submit_password, perform, action_of, swaylock_handle_key,
  is_validating,
}

-- Whether a request is sent: not for an empty text that is to be ignored.
abbrev pub sends : State → Bool
sends s = not (s.args.ignore_empty && s.password.len == 0)

-- The text after an action, from the text before it.
abbrev pub text_after : State → Action → ℕ → List ℕ
text_after s submits codepoint = if sends s then [] else typed s.password
text_after s erases codepoint = without_last (typed s.password)
text_after s clears codepoint = []
text_after s modifies codepoint = typed s.password
text_after s types codepoint =
    if not (codepoint == 0) && fits s.password codepoint
    then typed s.password ++ encoding codepoint
    else typed s.password

erase-text : (pw : Password) → IsValid pw → typed (backspace pw).0 ≡ without_last (typed pw)
erase-text pw v = elim ((backspace-IsValid pw v).1) [
  | inl (_, empty, same) ↦ ap (λ p. typed p) same ∙ (empty ∙ ap (λ t. without_last t) (sym empty))
  | inr (_, snoc) ↦
      sym (without_last-snoc (typed (backspace pw).0) (get_or pw.buffer (pw.len - 1) 0))
      ∙ ap (λ t. without_last t) (sym snoc)
]

erase-mark :
    (pw : Password)
    → (if (backspace pw).1 then AuthState.backspace else AuthState.clear)
      ≡ (if pw.len == 0 then AuthState.clear else AuthState.backspace)
unfolding backspace
erase-mark pw = ground arith

type-text :
    (pw : Password) (ch : ℕ)
    → IsValid pw
    → ch < 2 ^ 21
    → typed (append_ch pw ch) ≡ (if fits pw ch then typed pw ++ encoding ch else typed pw)
type-text pw ch v small = elim ((append_ch_lem pw ch v small).1) [
  | inl (e, q) ↦ rw e q
  | inr (e, q) ↦ rw e (ap (λ p. typed p) q)
]

-- `auth_state` after an action; of a request that is sent, after the answer of the write.
abbrev pub mark_after : Env → State → Action → ℕ → AuthState
mark_after env s submits codepoint =
    if sends s
    then (if (write_comm_request env.writes s.password).0
        then AuthState.validating
        else AuthState.invalid)
    else s.auth_state
mark_after env s erases codepoint =
    if s.password.len == 0 then AuthState.clear else AuthState.backspace
mark_after env s clears codepoint = AuthState.clear
mark_after env s modifies codepoint = AuthState.input_nop
mark_after env s types codepoint = if codepoint == 0 then s.auth_state else AuthState.input

-- The bytes that an action puts into the request pipe.
abbrev pub sent_by : Env → State → Action → List ℕ
sent_by env s submits = if sends s then (write_comm_request env.writes s.password).2 else []
sent_by env s _ = []

-- What an action makes of a state.
pub record Does (env : Env) (s : State) (action : Action) (codepoint : ℕ) (s' : State)
    : Type 0 where
  pub text : typed s'.password ≡ text_after s action codepoint
  pub mark : s'.auth_state ≡ mark_after env s action codepoint
  pub sent : s'.request_pipe ≡ s.request_pipe ++ sent_by env s action
  pub display : s'.run_display ≡ s.run_display
  pub attempts : s'.failed_attempts ≡ s.failed_attempts
  pub settings : s'.args ≡ s.args

-- What the request makes of a state that is marked as validating.
record Checks (env : Env) (s s' : State) : Type 0 where
  password : s'.password ≡ clear_password_buffer s.password
  mark : s'.auth_state ≡ (
      if (write_comm_request env.writes s.password).0
      then AuthState.validating
      else AuthState.invalid)
  sent : s'.request_pipe ≡ s.request_pipe ++ (write_comm_request env.writes s.password).2
  display : s'.run_display ≡ s.run_display
  attempts : s'.failed_attempts ≡ s.failed_attempts
  settings : s'.args ≡ s.args

request_check-Checks :
    (env : Env) (s : State)
    → Checks env s
        (damage_state (request_check env (record s { auth_state = AuthState.validating })))
unfolding request_check schedule_indicator_clear write_comm_request damage_state
request_check-Checks env s = elim (Bool-cases (send_request env.writes s.password).0) [
  | inl e ↦ rw e (record {
    password = refl;
    mark = rw e refl;
    sent = refl;
    display = refl;
    attempts = refl;
    settings = refl;
  })
  | inr e ↦ rw e (record {
    password = refl;
    mark = rw e refl;
    sent = refl;
    display = refl;
    attempts = refl;
    settings = refl;
  })
]

not_validating : (a : AuthState) → a ≢ AuthState.validating → is_validating a ≡ false
not_validating AuthState.validating ne = absurd (ne refl)
not_validating _ ne = refl

submit-Does :
    (env : Env) (s : State) (codepoint : ℕ)
    → IsValid s.password
    → Does env s submits codepoint (submit_password env s)
unfolding submit_password
submit-Does env s codepoint v =
    let c = request_check-Checks env s in
    let empty = (clear_password_buffer-IsValid s.password v.sized).1 in
    elim (Bool-cases (s.args.ignore_empty && s.password.len == 0)) [
      | inl e ↦ rw e (record {
        text = rw e refl;
        mark = rw e refl;
        sent = rw e (sym (append-nil s.request_pipe));
        display = refl;
        attempts = refl;
        settings = refl;
      })
      | inr e ↦ rw e (record {
        text = rw e (ap (λ p. typed p) c.password ∙ empty);
        mark = rw e c.mark;
        sent = rw e c.sent;
        display = c.display;
        attempts = c.attempts;
        settings = c.settings;
      })
    ]

perform-Does :
    (env : Env) (s : State) (action : Action) (codepoint : ℕ)
    → codepoint < 2 ^ 21
    → IsValid s.password
    → Does env s action codepoint (perform env s action codepoint)
unfolding perform schedule_indicator_clear schedule_password_clear damage_state
perform-Does env s submits codepoint h v = submit-Does env s codepoint v
perform-Does env s erases codepoint h v = record {
  text = erase-text s.password v;
  mark = erase-mark s.password;
  sent = sym (append-nil s.request_pipe);
  display = refl;
  attempts = refl;
  settings = refl;
}
perform-Does env s clears codepoint h v = record {
  text = (clear_password_buffer-IsValid s.password v.sized).1;
  mark = refl;
  sent = sym (append-nil s.request_pipe);
  display = refl;
  attempts = refl;
  settings = refl;
}
perform-Does env s modifies codepoint h v = record {
  text = refl;
  mark = refl;
  sent = sym (append-nil s.request_pipe);
  display = refl;
  attempts = refl;
  settings = refl;
}
perform-Does env s types codepoint h v =
    let text = type-text s.password codepoint v h in
    elim (Bool-cases (codepoint == 0)) [
      | inl e ↦ rw e (record {
        text = rw e refl;
        mark = rw e refl;
        sent = sym (append-nil s.request_pipe);
        display = refl;
        attempts = refl;
        settings = refl;
      })
      | inr e ↦ rw e (record {
        text = rw e text;
        mark = rw e refl;
        sent = sym (append-nil s.request_pipe);
        display = refl;
        attempts = refl;
        settings = refl;
      })
    ]

-- A key with a code point below 2^21, on a valid password: while validating, nothing changes at all.
-- Otherwise the text, the mark and the bytes sent are those of the key's action, and the display
-- flag, the count of failed attempts and the settings stay.
pub swaylock_handle_key-Does :
    (env : Env) (s : State) (keysym : Keysym) (codepoint : ℕ)
    → codepoint < 2 ^ 21
    → IsValid s.password
    → let s' = swaylock_handle_key env s keysym codepoint in
      (s.auth_state ≡ AuthState.validating → s' ≡ s)
      × (s.auth_state ≢ AuthState.validating
          → Does env s (action_of keysym s.xkb.control) codepoint s')
unfolding swaylock_handle_key
swaylock_handle_key-Does env s keysym codepoint h v = (
  λ e.
      ap
        (λ a.
          if is_validating a then s else perform env s (action_of keysym s.xkb.control) codepoint)
        e,
  λ ne.
      rw (not_validating s.auth_state ne)
        (perform-Does env s (action_of keysym s.xkb.control) codepoint h v),
)
