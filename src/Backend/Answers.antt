-- ===== src/Backend/Answers.antt =====
-- The answers of the checking process, and the buffers that it leaves.
use swaylock.Base.{
  ℕ, ◌+◌, ◌≡◌, refl, ap, ◌≢◌, ◌⊎◌, inl, inr, true, Option, none, some, List, [], ◌∷◌, ◌++◌, ◌==◌,
  if◌then◌else◌, ==_iff, Bool-cases, get_or, All,
}
use swaylock.Comm.{failed}
use swaylock.Backend.{c_string, Requests, respond, MsgStyle, Responses, asks, handle_conversation}

-- A buffer of zeros.
abbrev pub IsWiped : List ℕ → Type 0
IsWiped buf = (j : ℕ) → get_or buf j 0 ≡ 0

-- What `read_comm_request` had read of a request when it failed.
abbrev pub IsAbandoned : List ℕ → Requests → Type 0
IsAbandoned buf [] = ⊥
IsAbandoned buf ((r, w) ∷ rs) = (r ≡ failed buf) ⊎ IsAbandoned buf rs

-- A buffer is wiped, or is what was read of one of the requests that failed.
abbrev pub IsLeft : Requests → List ℕ → Type 0
IsLeft rs buf = IsWiped buf ⊎ IsAbandoned buf rs

-- The bytes of a password hold no zero.
abbrev pub HasNoZero : List ℕ → Type 0
HasNoZero s = All (λ b. b ≢ 0) s

c_string-append : (s : List ℕ) → HasNoZero s → c_string (s ++ 0 ∷ []) ≡ s
unfolding c_string
c_string-append [] h = refl
c_string-append (b ∷ s) (h, hs) = elim (Bool-cases (b == 0)) [
  | inl e ↦ absurd (h ((==_iff b 0).0 e))
  | inr e ↦ rw e (ap (λ t. b ∷ t) (c_string-append s hs))
]

-- The response that a message is meant to get: both prompts ask for the password.
abbrev pub meant_for : List ℕ → MsgStyle → Option (List ℕ)
meant_for text MsgStyle.prompt_echo_off = some text
meant_for text MsgStyle.prompt_echo_on = some text
meant_for text MsgStyle.error_msg = none
meant_for text MsgStyle.text_info = none

abbrev pub meant : List ℕ → List MsgStyle → Responses
meant text [] = []
meant text (style ∷ msg) = meant_for text style ∷ meant text msg

asks-meant_for :
    (text : List ℕ) (style : MsgStyle)
    → (if asks style then some text else none) ≡ meant_for text style
asks-meant_for text MsgStyle.prompt_echo_off = refl
asks-meant_for text MsgStyle.prompt_echo_on = refl
asks-meant_for text MsgStyle.error_msg = refl
asks-meant_for text MsgStyle.text_info = refl

respond-meant :
    (text : List ℕ) (i : ℕ) (msg : List MsgStyle)
    → HasNoZero text
    → respond (λ k. true) (text ++ 0 ∷ []) i msg ≡ some (meant text msg)
unfolding respond
respond-meant text i [] h = refl
respond-meant text i (style ∷ msg) h =
    let rest = respond-meant text (i + 1) msg h in
    let given = asks-meant_for text style in
    elim (Bool-cases (asks style)) [
      | inl e ↦
          rw (e, c_string-append text h, rest) (ap (λ r. some (r ∷ meant text msg)) (rw e at given))
      | inr e ↦ rw (e, rest) (ap (λ r. some (r ∷ meant text msg)) (rw e at given))
    ]

-- With memory, and a received text that holds no zero before its terminator, the conversation
-- answers every prompt of PAM, PAM_PROMPT_ECHO_OFF and PAM_PROMPT_ECHO_ON, with exactly that text,
-- and the messages PAM_ERROR_MSG and PAM_TEXT_INFO with nothing.
pub handle_conversation-meant :
    (text : List ℕ) (msg : List MsgStyle)
    → HasNoZero text
    → handle_conversation true (λ k. true) (text ++ 0 ∷ []) msg ≡ some (meant text msg)
unfolding handle_conversation
handle_conversation-meant text msg h = respond-meant text 0 msg h
