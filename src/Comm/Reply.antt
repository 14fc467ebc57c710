-- ===== src/Comm/Reply.antt =====
-- The answer's way back (comm.c, `write_comm_reply` and `read_comm_reply`).
use swaylock.Base.{ℕ, zero, suc, ◌≡◌, refl, Bool, true, false, Option, none, some, List, [], ◌∷◌}
use swaylock.Comm.{write_comm_reply, read_comm_reply}

-- What the reading side gets of what the writing side sent, in one read.
abbrev pub delivered : List ℕ → Option (List ℕ)
delivered [] = some []
delivered (b ∷ bs) = some (b ∷ bs)

-- Whatever `write` returns, the reader reads yes only if yes was sent; and where `write_comm_reply`
-- reports success, the reader reads exactly the answer sent.
pub read_comm_reply-write_comm_reply :
    (written : Option ℕ) (success : Bool)
    → let (result, sent) = write_comm_reply written success in
      (read_comm_reply (delivered sent) ≡ true → success ≡ true)
      × (result ≡ true → read_comm_reply (delivered sent) ≡ success)
unfolding read_comm_reply write_comm_reply
read_comm_reply-write_comm_reply none success = (λ h. cc, λ h. cc)
read_comm_reply-write_comm_reply (some zero) success = (λ h. cc, λ h. cc)
read_comm_reply-write_comm_reply (some (suc zero)) true = (λ h. refl, λ h. refl)
read_comm_reply-write_comm_reply (some (suc zero)) false = (λ h. cc, λ h. refl)
read_comm_reply-write_comm_reply (some (suc (suc n))) true = (λ h. refl, λ h. refl)
read_comm_reply-write_comm_reply (some (suc (suc n))) false = (λ h. cc, λ h. refl)
