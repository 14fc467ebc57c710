-- ===== src/Loop/Dispatch.antt =====
-- The calls for the descriptors that `poll` reports (loop.c, `loop_poll`). What `poll` writes into
-- the field `revents` of the entry `i` is `revents i`; nothing else reads or writes that field.
use swaylock.Base.{
  ℕ, suc, ◌+◌, ◌/◌, ◌%◌, ◌≤◌, ◌<◌, ◌≡◌, refl, ◌∙◌, Bool, true, false, not, ◌||◌, List, [], ◌∷◌,
  arith, ◌==◌, if◌then◌else◌, length, get_or, drop, All, drop-get_or,
}
use swaylock.Base.Words.{all_below, table_eq}
use Prim.Native.Nat.{bit_and, bit_or}
use swaylock.Loop.{PollFd, Loop, blank_fd}
use swaylock.Loop.Fds.{IsInStep, pairs, entries}

-- `events | POLLHUP | POLLERR`
abbrev pub watched : ℕ → ℕ
watched events = bit_or (bit_or events 0x10) 0x8

-- What `poll` documents for POLLIN, bit by bit: data to read (bit 0), an error (bit 3) or a hang-up
-- (bit 4).
abbrev pub reported : ℕ → Bool
reported revents = revents % 2 == 1 || revents / 8 % 2 == 1 || revents / 16 % 2 == 1

-- `pfd.revents & events`
abbrev pub is_ready : PollFd → ℕ → Bool
is_ready pfd revents = not (bit_and revents (watched pfd.events) == 0)

as_number : Bool → ℕ
as_number true = 1
as_number false = 0

as_number-injective : (a b : Bool) → as_number a ≡ as_number b → a ≡ b
unfolding as_number
as_number-injective true true e = refl
as_number-injective true false e = absurd (omega (arith, e))
as_number-injective false true e = absurd (omega (arith, e))
as_number-injective false false e = refl

abbrev masked : ℕ → Bool
masked revents = not (bit_and revents (watched 1) == 0)

masks_agree : all_below 64 (λ r. as_number (masked r) == as_number (reported r)) ≡ true
unfolding all_below as_number
masks_agree = refl

is_ready-reported : (r : ℕ) → r < 64 → masked r ≡ reported r
is_ready-reported r h =
    as_number-injective (masked r) (reported r)
      (table_eq 64 (λ y. as_number (masked y)) (λ y. as_number (reported y)) r masks_agree h)

module _ {F C S : Type 0} (loop_of : S → Loop F C) (call : F → ℕ → ℕ → S → S) where
  -- From the event with the index `fd_index` on.
  unfoldable pub dispatch_events : (ℕ → ℕ) → List F → ℕ → S → S
  dispatch_events revents [] fd_index s = s
  dispatch_events revents (event ∷ events) fd_index s =
      let pfd = get_or (loop_of s).fds fd_index blank_fd in
      dispatch_events revents events (suc fd_index)
        (if is_ready pfd (revents fd_index) then call event pfd.fd (revents fd_index) s else s)

  unfoldable pub dispatch_fds : (ℕ → ℕ) → S → S
  unfolding dispatch_events
  dispatch_fds revents s = dispatch_events revents (loop_of s).fd_events 0 s

  -- Each entry with its own callback, in order.
  unfoldable call_ready : (ℕ → ℕ) → List (PollFd × F) → ℕ → S → S
  call_ready revents [] i s = s
  call_ready revents ((pfd, event) ∷ ps) i s =
      call_ready revents ps (suc i)
        (if is_ready pfd (revents i) then call event pfd.fd (revents i) s else s)

  -- Each entry that `poll` reports with its own callback, in order.
  unfoldable pub call_reported : (ℕ → ℕ) → List (PollFd × F) → ℕ → S → S
  call_reported revents [] i s = s
  call_reported revents ((pfd, event) ∷ ps) i s =
      call_reported revents ps (suc i)
        (if reported (revents i) then call event pfd.fd (revents i) s else s)

  call_ready-reported :
      (revents : ℕ → ℕ) (ps : List (PollFd × F)) (i : ℕ) (s : S)
      → ((j : ℕ) → revents j < 64)
      → All (λ p. p.0.events ≡ 1) ps
      → call_ready revents ps i s ≡ call_reported revents ps i s
  unfolding call_ready call_reported
  call_ready-reported revents [] i s few all = refl
  call_ready-reported revents ((pfd, event) ∷ ps) i s few (one, all) =
      rw (one, is_ready-reported (revents i) (few i))
        (call_ready-reported revents ps (suc i)
          (if reported (revents i) then call event pfd.fd (revents i) s else s) few all)

  module _
      (keeps : (f : F) (fd mask : ℕ) (s : S)
        → (loop_of (call f fd mask s)).fds ≡ (loop_of s).fds) where
    keeps_if :
        (test : Bool) (f : F) (fd mask : ℕ) (s : S)
        → (loop_of (if test then call f fd mask s else s)).fds ≡ (loop_of s).fds
    keeps_if true f fd mask s = keeps f fd mask s
    keeps_if false f fd mask s = refl

    dispatch_events-pairs :
        (revents : ℕ → ℕ) (fds : List PollFd) (events : List F) (i : ℕ) (s : S)
        → (loop_of s).fds ≡ fds
        → length events + i ≤ length fds
        → dispatch_events revents events i s ≡ call_ready revents (pairs (drop i fds) events) i s
    unfolding dispatch_events call_ready
    dispatch_events-pairs revents fds [] i s e h = refl
    dispatch_events-pairs revents fds (event ∷ events) i s e h =
        let pfd = get_or fds i blank_fd in
        let next = if is_ready pfd (revents i) then call event pfd.fd (revents i) s else s in
        let head : drop i fds ≡ pfd ∷ drop (suc i) fds = drop-get_or fds i blank_fd (omega arith) in
        rw (e, head)
          (dispatch_events-pairs revents fds events (suc i) next
            (keeps_if (is_ready pfd (revents i)) event pfd.fd (revents i) s ∙ e) (omega arith))

    -- Let array and list be in step, let every entry ask for POLLIN alone, as those of the program do,
    -- let `poll` set only bits below 64, which are those that it may set for POLLIN,
    -- POLLERR, POLLHUP and POLLNVAL, and let no callback touch the array. Then the calls are those of the entries for which
    -- `poll` reports data, an error or a hang-up, each with its own descriptor, in the order of the list.
    pub dispatch_fds_lem :
        (revents : ℕ → ℕ) (s : S)
        → IsInStep (loop_of s)
        → All (λ p. p.0.events ≡ 1) (entries (loop_of s))
        → ((i : ℕ) → revents i < 64)
        → dispatch_fds revents s ≡ call_reported revents (entries (loop_of s)) 0 s
    unfolding dispatch_fds
    dispatch_fds_lem revents s v pollin few =
        dispatch_events-pairs revents (loop_of s).fds (loop_of s).fd_events 0 s refl
          (omega (arith, v.sized, v.room, v.paired))
        ∙ call_ready-reported revents (entries (loop_of s)) 0 s few pollin
