-- ===== src/Backend.antt =====
-- The process that checks passwords, `run_pw_backend_child`, in its two forms: pam.c and shadow.c.
-- PAM and `crypt` are arguments, and so are the requests that arrive and what `write` returns.
pub mod Privileges
pub mod Plain
pub mod Answers
pub mod Unlock
use swaylock.Base.{
  ℕ, ◌+◌, Bool, true, false, Option, none, some, List, [], ◌∷◌, ◌++◌, ◌==◌, if◌then◌else◌, length,
}
use swaylock.Password.{clear_buffer}
use swaylock.Comm.{Request, closed, failed, received, write_comm_reply}
use swaylock.Image.{text_eq}

-- `msg_style`
pub data MsgStyle : Type 0 where
  prompt_echo_off prompt_echo_on error_msg text_info : MsgStyle

-- The bytes of a C string: those before the first zero.
unfoldable pub c_string : List ℕ → List ℕ
c_string [] = []
c_string (b ∷ s) = let rest = c_string s in if b == 0 then [] else b ∷ rest

-- The responses, one for each message, NULL for a message that asks nothing.
abbrev pub Responses : Type 0
Responses = List (Option (List ℕ))

abbrev pub add_response : Option (List ℕ) → Option Responses → Option Responses
add_response r none = none
add_response r (some rs) = some (r ∷ rs)

abbrev pub asks : MsgStyle → Bool
asks MsgStyle.prompt_echo_off = true
asks MsgStyle.prompt_echo_on = true
asks _ = false

-- The loop of `handle_conversation` from message `i` on; `memory` says whether the `strdup` for a
-- message succeeds.
unfoldable pub respond : (ℕ → Bool) → List ℕ → ℕ → List MsgStyle → Option Responses
unfolding c_string
respond memory pw_buf i [] = some []
respond memory pw_buf i (style ∷ msg) =
    let rest = respond memory pw_buf (i + 1) msg in
    if asks style
    then (if memory i then add_response (some (c_string pw_buf)) rest else none)
    else add_response none rest

-- `none` is PAM_ABORT; the first argument says whether `calloc` succeeds.
unfoldable pub handle_conversation : Bool → (ℕ → Bool) → List ℕ → List MsgStyle → Option Responses
unfolding respond
handle_conversation calloc memory pw_buf msg = if calloc then respond memory pw_buf 0 msg else none

-- `pam_authenticate` with a conversation to ask for the password; its status 0 is PAM_SUCCESS. With
-- it, the answers of the allocator, and whether `pam_end` succeeds.
pub record Pam : Type 0 where
  pub pam_authenticate : (List MsgStyle → Option Responses) → ℕ
  pub calloc : Bool
  pub strdup : ℕ → Bool
  pub pam_end : Bool

-- `success` for the request in the buffer.
unfoldable pub pam_success : Pam → List ℕ → Bool
unfolding handle_conversation
pam_success pam pw_buf =
    pam.pam_authenticate (handle_conversation pam.calloc pam.strdup pw_buf) == 0

-- How the process stands: waiting for a request, or ended with a status.
pub data Exit : Type 0 where
  waiting exit_success exit_failure : Exit

-- The bytes written as replies, and the buffers of requests as they are left, oldest first.
pub record Child : Type 0 where
  pub exit : Exit
  pub replies : List ℕ
  pub left : List (List ℕ)

abbrev pub ended : Exit → Child
ended e = record { exit = e; replies = []; left = [] }

abbrev pub answered : List ℕ → List ℕ → Child → Child
answered bytes buf c = record c { replies = bytes ++ c.replies; left = buf ∷ c.left }

-- The requests, each with the result of the `write` of its reply.
abbrev pub Requests : Type 0
Requests = List (Request × Option ℕ)

-- The loop of pam.c. The `pam_status` that is tested after it is the outer one, which stays
-- PAM_SUCCESS.
unfoldable pub run_pam : Pam → Requests → Child
unfolding pam_success
run_pam pam [] = ended waiting
run_pam pam ((failed got, w) ∷ rs) = answered [] got (ended exit_failure)
run_pam pam ((closed, w) ∷ rs) = if pam.pam_end then ended exit_success else ended exit_failure
run_pam pam ((received buf, w) ∷ rs) =
    let rest = run_pam pam rs in
    let (written, bytes) = write_comm_reply w (pam_success pam buf) in
    answered bytes (clear_buffer buf (length buf)) (if written then rest else ended exit_failure)

-- `crypt` of a C string, which may fail, and the encrypted password.
pub record Shadow : Type 0 where
  pub crypt : List ℕ → List ℕ → Option (List ℕ)
  pub encpw : List ℕ

-- What `crypt` gives for the buffer, compared with the encrypted password.
unfoldable pub shadow_success : Shadow → List ℕ → Option Bool
unfolding c_string text_eq
shadow_success shadow buf = elim (shadow.crypt (c_string buf) shadow.encpw) [
  | none ↦ none
  | some c ↦ some (text_eq c shadow.encpw)
]

-- The loop of shadow.c.
unfoldable pub run_shadow : Shadow → Requests → Child
unfolding shadow_success
run_shadow shadow [] = ended waiting
run_shadow shadow ((failed got, w) ∷ rs) = answered [] got (ended exit_failure)
run_shadow shadow ((closed, w) ∷ rs) = ended exit_success
run_shadow shadow ((received buf, w) ∷ rs) =
    let rest = run_shadow shadow rs in
    elim (shadow_success shadow buf) [
      | none ↦ answered [] (clear_buffer buf (length buf)) (ended exit_failure)
      | some success ↦
          let (written, bytes) = write_comm_reply w success in
          answered bytes (clear_buffer buf (length buf))
            (if written then rest else ended exit_failure)
    ]
