-- ===== src/Comm.antt =====
-- comm.c: the pipe that carries the password to the process that checks it, and the answer back.
-- What `write` and `read` return is an argument: one entry for each call, in order. Bytes of a size
-- that a short read leaves out, indeterminate in C, count as zeros.
pub mod Write
pub mod Reply
pub mod RoundTrip
use swaylock.Base.{
  ℕ, zero, suc, ◌+◌, ◌*◌, ◌/◌, ◌%◌, Bool, true, false, not, Option, none, some, List, [], ◌∷◌, ◌++◌,
  ltb, ◌==◌, if◌then◌else◌, length, take, drop,
}
use swaylock.Password.{Password, clear_password_buffer}

-- sizeof(size_t), and the bytes of a `size_t`, the lowest first.
abbrev pub size_bytes : ℕ
size_bytes = 8

unfoldable pub bytes_of : ℕ → ℕ → List ℕ
bytes_of zero n = []
bytes_of (suc k) n = n % 256 ∷ bytes_of k (n / 256)

unfoldable pub size_of : List ℕ → ℕ
size_of [] = 0
size_of (b ∷ bs) = b + 256 * size_of bs

-- The result of one `write`: the bytes taken, or `none` for -1. The calls after the last entry fail.
abbrev pub Writes : Type 0
Writes = List (Option ℕ)

-- The loop that writes the buffer: what is left of it, and what went into the pipe so far. It goes
-- on while bytes are left, and the answer says whether it got through.
unfoldable pub write_all : Writes → List ℕ → List ℕ → Bool × List ℕ
write_all [] left sent = (false, sent)
write_all (none ∷ ws) left sent = (false, sent)
write_all (some n ∷ ws) left sent =
    let rest = write_all ws (drop n left) (sent ++ take n left) in
    if length (drop n left) == 0 then (true, sent ++ take n left) else rest

-- Both writes: whether they got through, and the bytes that reached the pipe.
unfoldable pub send_request : Writes → Password → Bool × List ℕ
unfolding bytes_of write_all
send_request [] pw = (false, [])
send_request (none ∷ ws) pw = (false, [])
send_request (some n ∷ ws) pw =
    write_all ws (take (pw.len + 1) pw.buffer) (take n (bytes_of size_bytes (pw.len + 1)))

-- The result, the password after the call, and the bytes that reached the pipe. The password is
-- cleared on the way out, on every path.
unfoldable pub write_comm_request : Writes → Password → Bool × Password × List ℕ
unfolding send_request
write_comm_request ws pw =
    let (result, sent) = send_request ws pw in (result, clear_password_buffer pw, sent)

-- The result of one `read`: the bytes read, or `none` for -1. No bytes is the end of the pipe, and
-- so is every call after the last entry.
abbrev pub Reads : Type 0
Reads = List (Option (List ℕ))

-- What `read_comm_request` returns: 0, -1, or a buffer of the size returned. With -1 it abandons what it
-- has read, in a buffer that is neither cleared nor freed; there are no bytes where it has no buffer.
pub data Request : Type 0 where
  closed : Request
  failed received : List ℕ → Request

-- The loop that reads the buffer: the bytes read so far, and how many are wanted in all.
unfoldable pub read_all : Reads → ℕ → List ℕ → Request
read_all [] size got = failed got
read_all (none ∷ rs) size got = failed got
read_all (some [] ∷ rs) size got = failed got
read_all (some (b ∷ bs) ∷ rs) size got =
    let more = read_all rs size (got ++ b ∷ bs) in
    if ltb (length (got ++ b ∷ bs)) size then more else received (got ++ b ∷ bs)

-- `memory` says whether `malloc` has a buffer of the size; the first entry is the read of the size.
unfoldable pub read_comm_request : Reads → Bool → Request
unfolding size_of read_all
read_comm_request [] memory = closed
read_comm_request (none ∷ rs) memory = failed []
read_comm_request (some [] ∷ rs) memory = closed
read_comm_request (some (b ∷ bs) ∷ rs) memory =
    if memory then read_all rs (size_of (b ∷ bs)) [] else failed []

-- A `bool` in memory.
abbrev pub byte_of : Bool → ℕ
byte_of true = 1
byte_of false = 0

-- `write` of the answer: the bytes taken decide the result, and what reached the pipe is returned.
unfoldable pub write_comm_reply : Option ℕ → Bool → Bool × List ℕ
write_comm_reply none success = (false, [])
write_comm_reply (some n) success = (n == 1, take n (byte_of success ∷ []))

-- `read` of the answer. A failed or empty read counts as no.
unfoldable pub read_comm_reply : Option (List ℕ) → Bool
read_comm_reply none = false
read_comm_reply (some []) = false
read_comm_reply (some (b ∷ bs)) = if length bs == 0 then not (b == 0) else false
