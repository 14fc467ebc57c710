-- ===== src/Backend/Unlock.antt =====
-- From the password typed to the end of the lock, through both pipes.
use swaylock.Base.{
  ℕ, ◌+◌, ◌≡◌, refl, sym, ap, ◌∙◌, inl, inr, Bool, true, false, not, Option, some, List, [], ◌∷◌,
  ◌++◌, append-nil, ◌==◌, ==_iff, Bool-cases, All,
}
use swaylock.Password.{Password, IsValid, typed}
use swaylock.Comm.{
  Writes, received, size_bytes, bytes_of, read_comm_request, write_comm_request, write_comm_reply,
  read_comm_reply,
}
use swaylock.Comm.Reply.{delivered, read_comm_reply-write_comm_reply}
use swaylock.Comm.RoundTrip.{chunks, joined, IsFilled, read_comm_request-write_comm_request}
use swaylock.State.{State}
use swaylock.Surface.{damage_state}
use swaylock.Lock.{Env, comm_in, schedule_indicator_clear}
use swaylock.Backend.{handle_conversation, Pam, pam_success, run_pam}

-- The display flag after an answer.
comm_in-display :
    (env : Env) (answer : Option (List ℕ)) (s : State)
    → s.run_display ≡ true
    → (comm_in env answer s).run_display ≡ not (read_comm_reply answer)
unfolding comm_in schedule_indicator_clear damage_state
comm_in-display env answer s h = elim (Bool-cases (read_comm_reply answer)) [
  | inl e ↦ rw e refl
  | inr e ↦ rw e h
]

run_pam-replies :
    (pam : Pam) (buf : List ℕ) (w : Option ℕ)
    → (run_pam pam ((received buf, w) ∷ [])).replies ≡ (write_comm_reply w (pam_success pam buf)).1
unfolding run_pam
run_pam-replies pam buf w = elim (Bool-cases (write_comm_reply w (pam_success pam buf)).0) [
  | inl e ↦ rw e (append-nil (write_comm_reply w (pam_success pam buf)).1)
  | inr e ↦ rw e (append-nil (write_comm_reply w (pam_success pam buf)).1)
]

reply-written : (b : Bool) → (write_comm_reply (some 1) b).0 ≡ true
unfolding write_comm_reply
reply-written b = refl

comm_in-pam_success :
    (pam : Pam) (env : Env) (s : State) (ws : Writes) (pw : Password) (cs : List (List ℕ))
    (w : Option ℕ)
    → IsValid pw
    → All IsFilled cs
    → let (result, pw', sent) = write_comm_request (some size_bytes ∷ ws) pw in
      result ≡ true
      → bytes_of size_bytes (pw.len + 1) ++ joined cs ≡ sent
      → s.run_display ≡ true
      → let request =
          read_comm_request (some (bytes_of size_bytes (pw.len + 1)) ∷ chunks cs) true in
        let s' = comm_in env (delivered (run_pam pam ((request, w) ∷ [])).replies) s in
        (s'.run_display ≡ false → pam_success pam (typed pw ++ 0 ∷ []) ≡ true)
        × (w ≡ some 1 → s'.run_display ≡ not (pam_success pam (typed pw ++ 0 ∷ [])))
comm_in-pam_success pam env s ws pw cs w v f h e up =
    let buf = typed pw ++ 0 ∷ [] in
    let ok = pam_success pam buf in
    let sent =
      ap (λ r. (run_pam pam ((r, w) ∷ [])).replies)
        (read_comm_request-write_comm_request ws pw cs v f h e)
      ∙ run_pam-replies pam buf w in
    let display =
      comm_in-display env
        (delivered
          (run_pam pam (
            (read_comm_request (some (bytes_of size_bytes (pw.len + 1)) ∷ chunks cs) true, w)
            ∷ [])).replies)
        s up
      ∙ ap (λ t. not (read_comm_reply (delivered t))) sent in
    let (only, both) = read_comm_reply-write_comm_reply w ok in
    (
      λ down.
          only (
            not-false (read_comm_reply (delivered (write_comm_reply w ok).1)) (sym display ∙ down)),
      λ one. display ∙ ap not (both (ap (λ k. (write_comm_reply k ok).0) one ∙ reply-written ok)),
    )
  where
    not-false : (b : Bool) → not b ≡ false → b ≡ true
    not-false true q = refl
    not-false false q = cc

-- Let a valid password be sent to pam.c, as in the round trip of a request, and let the locker read
-- the reply. Then a lock that is up goes down only if `pam_authenticate`, with a conversation that
-- answers from a buffer of the bytes typed and a zero after them, returns 0, which is PAM_SUCCESS; and
-- if the reply is written, it goes down exactly then.
pub comm_in-run_pam :
    (pam : Pam) (env : Env) (s : State) (ws : Writes) (pw : Password) (cs : List (List ℕ))
    (w : Option ℕ)
    → IsValid pw
    → All IsFilled cs
    → let (result, pw', sent) = write_comm_request (some size_bytes ∷ ws) pw in
      result ≡ true
      → bytes_of size_bytes (pw.len + 1) ++ joined cs ≡ sent
      → s.run_display ≡ true
      → let request =
          read_comm_request (some (bytes_of size_bytes (pw.len + 1)) ∷ chunks cs) true in
        let s' = comm_in env (delivered (run_pam pam ((request, w) ∷ [])).replies) s in
        let status =
          pam.pam_authenticate (handle_conversation pam.calloc pam.strdup (typed pw ++ 0 ∷ [])) in
        (s'.run_display ≡ false → status ≡ 0)
        × (w ≡ some 1
            → (s'.run_display ≡ false → status ≡ 0) × (status ≡ 0 → s'.run_display ≡ false))
unfolding pam_success
comm_in-run_pam pam env s ws pw cs w v f h e up =
    let status =
      pam.pam_authenticate (handle_conversation pam.calloc pam.strdup (typed pw ++ 0 ∷ [])) in
    let (only, both) = comm_in-pam_success pam env s ws pw cs w v f h e up in
    let status_zero : (status == 0) ≡ true → status ≡ 0 = (==_iff status 0).0 in
    (
      λ down. status_zero (only down),
      λ one. (λ down. status_zero (only down), λ z. both one ∙ ap (λ n. not (n == 0)) z),
    )
