-- ===== src/Comm/RoundTrip.antt =====
-- From the locker to the checking process (comm.c, `write_comm_request`, `read_comm_request`).
use swaylock.Base.{
  ℕ, zero, suc, ◌+◌, ◌/◌, ◌^◌, ◌≤◌, ◌<◌, ◌≡◌, sym, ap, ◌∙◌, true, some, List, [], ◌∷◌, ◌++◌,
  append_assoc, append-nil, arith, lt→ltb, le→ltb, length, All, length-append, length-take,
  append-cancel,
}
use native.Mathlib.Nat.{pow-succ'}
use swaylock.Password.{Password, typed, IsValid}
use swaylock.Comm.{
  Writes, Reads, received, size_bytes, bytes_of, size_of, read_all, read_comm_request,
  write_comm_request,
}
use swaylock.Comm.Write.{write_comm_request-message}

size_of-bytes_of : (k n : ℕ) → n < 256 ^ k → size_of (bytes_of k n) ≡ n
unfolding size_of bytes_of
size_of-bytes_of zero n h = omega arith
size_of-bytes_of (suc k) n h =
    omega (arith, pow-succ' 256 k, size_of-bytes_of k (n / 256) (omega (arith, pow-succ' 256 k)))

-- The parts that the reads return, as the results of the calls.
abbrev pub chunks : List (List ℕ) → Reads
chunks [] = []
chunks (c ∷ cs) = some c ∷ chunks cs

abbrev pub joined : List (List ℕ) → List ℕ
joined [] = []
joined (c ∷ cs) = c ++ joined cs

abbrev pub IsFilled : List ℕ → Type 0
IsFilled c = 0 < length c

read_all_lem :
    (cs : List (List ℕ)) (got : List ℕ) (size : ℕ)
    → All IsFilled cs
    → 0 < length (joined cs)
    → length got + length (joined cs) ≡ size
    → read_all (chunks cs) size got ≡ received (got ++ joined cs)
unfolding read_all
read_all_lem [] got size f h e = absurd (omega arith)
read_all_lem ([] ∷ cs) got size f h e = absurd (omega arith)
read_all_lem ((b ∷ bs) ∷ []) got size f h e =
    let same : b ∷ bs ≡ joined ((b ∷ bs) ∷ []) = sym (append-nil (b ∷ bs)) in
    let full : size ≤ length (got ++ b ∷ bs) =
      omega (arith, length-append {0} got (b ∷ bs), ap (λ t. length t) same) in
    rw (le→ltb (length (got ++ b ∷ bs)) size full) (ap (λ t. received (got ++ t)) same)
read_all_lem ((b ∷ bs) ∷ c ∷ cs) got size f h e =
    let l = length-append got (b ∷ bs) in
    let l' = length-append (b ∷ bs) (joined (c ∷ cs)) in
    let l'' = length-append c (joined cs) in
    let filled = f.1.0 in
    rw (lt→ltb (length (got ++ b ∷ bs)) size (omega arith)) (
      read_all_lem (c ∷ cs) (got ++ b ∷ bs) size f.1 (omega arith) (omega arith)
      ∙ ap received (append_assoc got (b ∷ bs) (joined (c ∷ cs))))

length-typed : (pw : Password) → IsValid pw → length (typed pw) ≡ pw.len
length-typed pw v = omega (arith, length-take {0} pw.len pw.buffer, v.sized, v.short)

first_read :
    (n : ℕ) (rs : Reads)
    → n < 2 ^ 64
    → read_comm_request (some (bytes_of size_bytes n) ∷ rs) true ≡ read_all rs n []
unfolding read_comm_request bytes_of
first_read n rs h = ap (λ k. read_all rs k []) (size_of-bytes_of size_bytes n (omega arith))

-- Let a valid password be written with success, its size in one write, and let the reads return what
-- was sent: the size first, then the rest in any filled parts. Then `read_comm_request` returns
-- exactly the bytes typed with a zero after them.
pub read_comm_request-write_comm_request :
    (ws : Writes) (pw : Password) (cs : List (List ℕ))
    → IsValid pw
    → All IsFilled cs
    → let (result, pw', sent) = write_comm_request (some size_bytes ∷ ws) pw in
      result ≡ true
      → bytes_of size_bytes (pw.len + 1) ++ joined cs ≡ sent
      → read_comm_request (some (bytes_of size_bytes (pw.len + 1)) ∷ chunks cs) true
        ≡ received (typed pw ++ 0 ∷ [])
read_comm_request-write_comm_request ws pw cs v f h e =
    let header = bytes_of size_bytes (pw.len + 1) in
    let payload : joined cs ≡ typed pw ++ 0 ∷ [] =
      append-cancel header (e ∙ write_comm_request-message ws pw v h) in
    let n : length (joined cs) ≡ pw.len + 1 =
      ap (λ t. length t) payload
      ∙ (length-append (typed pw) (0 ∷ []) ∙ ap (λ k. k + 1) (length-typed pw v)) in
    first_read (pw.len + 1) (chunks cs) (omega arith)
    ∙ (read_all_lem cs [] (pw.len + 1) f (omega arith) (omega arith) ∙ ap received payload)
