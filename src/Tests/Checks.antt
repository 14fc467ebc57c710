-- ===== src/Tests/Checks.antt =====
-- Examples for the checking process.
use swaylock.Base.{ℕ, ◌+◌, ◌≡◌, refl, true, false, Option, none, some, List, [], ◌∷◌, ◌++◌, arith}
use swaylock.Password.{clear_password_buffer, typed}
use swaylock.Comm.{closed, received, size_bytes, bytes_of, read_comm_request, write_comm_request}
use swaylock.Comm.Reply.{delivered}
use swaylock.Comm.RoundTrip.{chunks}
use swaylock.Lock.{comm_in}
use swaylock.Backend.{Pam, Shadow, Requests, Responses, MsgStyle, handle_conversation, run_pam}
use swaylock.Backend.Answers.{meant, handle_conversation-meant}
use swaylock.Backend.Unlock.{comm_in-run_pam}
use swaylock.Tests.{empty, empty-IsValid, env, locked}

-- PAM for a user with an empty password: it asks once.
abbrev accepts : Option Responses → ℕ
accepts (some (some [] ∷ [])) = 0
accepts _ = 7

abbrev pam : Pam
pam = record {
  pam_authenticate = λ conv. accepts (conv (MsgStyle.prompt_echo_off ∷ []));
  calloc = true;
  strdup = λ i. true;
  pam_end = true;
}

abbrev shadow : Shadow
shadow = record { crypt = λ key salt. some key; encpw = b'x' ∷ [] }

abbrev requests : Requests
requests = (received (b'x' ∷ 0 ∷ []), some 1) ∷ (received (0 ∷ []), some 0) ∷ (closed, none) ∷ []

abbrev two_messages : List MsgStyle
two_messages = MsgStyle.text_info ∷ MsgStyle.prompt_echo_off ∷ []

handle_conversation-meant_example :
    handle_conversation true (λ k. true) ((b'x' ∷ []) ++ 0 ∷ []) two_messages
    ≡ some (meant (b'x' ∷ []) two_messages)
handle_conversation-meant_example =
    handle_conversation-meant (b'x' ∷ []) two_messages ((λ h. absurd (omega (arith, h))), tt)

abbrev one_byte : Option ℕ
one_byte = some 1

comm_in-run_pam_example :
    let request =
      read_comm_request
        (some (bytes_of size_bytes (empty.len + 1)) ∷ chunks ((0 ∷ []) ∷ []))
        true in
    let s' = comm_in env (delivered (run_pam pam ((request, some 1) ∷ [])).replies) locked in
    let status =
      pam.pam_authenticate (handle_conversation true (λ i. true) (typed empty ++ 0 ∷ [])) in
    (s'.run_display ≡ false → status ≡ 0)
    × (one_byte ≡ some 1
        → (s'.run_display ≡ false → status ≡ 0) × (status ≡ 0 → s'.run_display ≡ false))
unfolding write_comm_request clear_password_buffer bytes_of
comm_in-run_pam_example =
    comm_in-run_pam pam env locked (some 1 ∷ []) empty ((0 ∷ []) ∷ []) (some 1) empty-IsValid
      (omega arith, tt) refl refl refl
