-- ===== src/Comm/Write.antt =====
-- The locker's end of the request pipe (comm.c, `write_comm_request`).
use swaylock.Base.{
  ℕ, zero, suc, ◌+◌, ◌/◌, ◌≡◌, refl, sym, ap, ap₂, ◌∙◌, subst, inl, inr, true, none, some, List, [],
  ◌∷◌, ◌++◌, append_assoc, arith, ◌==◌, ==_iff, Bool-cases, length, get_or, take, drop,
  take-append-drop, take-suc-get_or,
}
use native.Mathlib.Numerals.{add-one}
use swaylock.Password.{Password, typed, IsValid}
use swaylock.Password.Clear.{clear_password_buffer-IsValid}
use swaylock.Comm.{Writes, size_bytes, bytes_of, write_all, send_request, write_comm_request}

drop-empty : (n : ℕ) (xs : List ℕ) → length (drop n xs) ≡ 0 → take n xs ≡ xs
drop-empty zero [] h = refl
drop-empty zero (x ∷ xs) h = absurd (omega arith)
drop-empty (suc n) [] h = refl
drop-empty (suc n) (x ∷ xs) h = ap (λ t. x ∷ t) (drop-empty n xs h)

-- If the loop gets through, all that was left has followed what was sent before.
write_all_lem :
    (ws : Writes) (left sent out : List ℕ)
    → write_all ws left sent ≡ (true, out)
    → out ≡ sent ++ left
unfolding write_all
write_all_lem [] left sent out h = cc
write_all_lem (none ∷ ws) left sent out h = cc
write_all_lem (some n ∷ ws) left sent out h = elim (Bool-cases (length (drop n left) == 0)) [
  | inl e ↦
      let whole = drop-empty n left ((==_iff (length (drop n left)) 0).0 e) in
      let ends : out ≡ sent ++ take n left = ap (λ r. r.1) (sym (rw e at h)) in
      ends ∙ ap (λ t. sent ++ t) whole
  | inr e ↦
      write_all_lem ws (drop n left) (sent ++ take n left) out (rw e at h)
      ∙ append_assoc sent (take n left) (drop n left)
      ∙ ap (λ t. sent ++ t) (take-append-drop n left)
]

-- The text of a valid password is followed by a zero in the buffer.
pub terminated : (pw : Password) → IsValid pw → take (pw.len + 1) pw.buffer ≡ typed pw ++ 0 ∷ []
terminated pw v =
    let s = v.sized in
    rw add-one (
      take-suc-get_or pw.buffer pw.len 0 (omega arith)
      ∙ ap (λ b. typed pw ++ b ∷ []) (v.wiped pw.len (omega arith)))

-- The bytes of a request: its size, then the bytes typed and a zero.
abbrev pub message : Password → List ℕ
message pw = bytes_of size_bytes (pw.len + 1) ++ (typed pw ++ 0 ∷ [])

length-bytes_of : (k n : ℕ) → length (bytes_of k n) ≡ k
unfolding bytes_of
length-bytes_of zero n = refl
length-bytes_of (suc k) n = ap suc (length-bytes_of k (n / 256))

take-all : (xs : List ℕ) → take (length xs) xs ≡ xs
take-all [] = refl
take-all (x ∷ xs) = ap (λ t. x ∷ t) (take-all xs)

pub write_comm_request-message :
    (ws : Writes) (pw : Password)
    → IsValid pw
    → let (result, pw', sent) = write_comm_request (some size_bytes ∷ ws) pw in
      result ≡ true → sent ≡ message pw
unfolding write_comm_request
write_comm_request-message ws pw v h =
    let header = bytes_of size_bytes (pw.len + 1) in
    let whole : take size_bytes header ≡ header =
      ap (λ k. take k header) (sym (length-bytes_of size_bytes (pw.len + 1))) ∙ take-all header in
    write_all_lem ws (take (pw.len + 1) pw.buffer) (take size_bytes header)
      (send_request (some size_bytes ∷ ws) pw).1
      (ap (λ b. (b, (send_request (some size_bytes ∷ ws) pw).1)) h)
    ∙ ap₂ ◌++◌ whole (terminated pw v)

-- Whatever the writes return, the first that fails or falls short included, the password of a valid
-- one is empty and its buffer all zeros after the request, on success and on failure alike. Where the
-- first write takes the whole size and the request reports success, the size, the bytes typed and a
-- terminating zero are in the pipe, however the later writes were split.
pub write_comm_request_lem :
    (ws : Writes) (pw : Password)
    → IsValid pw
    → let (result, pw', sent) = write_comm_request ws pw in
      ((later : Writes) → ws ≡ some size_bytes ∷ later → result ≡ true → sent ≡ message pw)
      × IsValid pw'
      × (typed pw' ≡ [])
      × ((j : ℕ) → get_or pw'.buffer j 0 ≡ 0)
unfolding write_comm_request
write_comm_request_lem ws pw v =
    let (valid, empty, zeros) = clear_password_buffer-IsValid pw v.sized in
    (
      λ later e.
          subst
            (λ z.
              let (result, pw', sent) = write_comm_request z pw in
              result ≡ true → sent ≡ message pw)
            (sym e) (write_comm_request-message later pw v),
      valid,
      empty,
      zeros,
    )
