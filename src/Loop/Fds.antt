-- ===== src/Loop/Fds.antt =====
-- The descriptor array and the list of its callbacks (loop.c, `loop_add_fd`).
use swaylock.Base.{
  ℕ, ◌≤◌, ◌<◌, ◌≡◌, refl, ap, ◌∙◌, Bool, true, false, List, [], ◌∷◌, ◌++◌, arith, if◌then◌else◌,
  length, set, replicate, length-append, length-set,
}
use swaylock.Loop.{PollFd, Loop, blank_fd, grow_fds, put_fd, loop_add_fd}

pub record IsInStep {F C : Type 0} (l : Loop F C) : Type 0 where
  pub sized : length l.fds ≡ l.fd_capacity
  pub room : l.fd_length ≤ l.fd_capacity
  pub paired : length l.fd_events ≡ l.fd_length

abbrev pub pairs : {F : Type 0} → List PollFd → List F → List (PollFd × F)
pairs fds [] = []
pairs [] (event ∷ events) = []
pairs (p ∷ fds) (event ∷ events) = (p, event) ∷ pairs fds events

-- The descriptors that are watched, each with its callback.
abbrev pub entries : {F C : Type 0} → Loop F C → List (PollFd × F)
entries l = pairs l.fds l.fd_events

pairs-snoc :
    {F : Type 0} (fds : List PollFd) (events : List F) (p : PollFd) (event : F)
    → length events < length fds
    → pairs (set fds (length events) p) (events ++ event ∷ []) ≡ pairs fds events ++ (p, event) ∷ []
pairs-snoc [] events p event h = absurd (omega arith)
pairs-snoc (q ∷ fds) [] p event h = refl
pairs-snoc (q ∷ fds) (e ∷ events) p event h =
    ap (λ t. (q, e) ∷ t) (pairs-snoc fds events p event (omega arith))

pairs-append :
    {F : Type 0} (fds more : List PollFd) (events : List F)
    → length events ≤ length fds
    → pairs (fds ++ more) events ≡ pairs fds events
pairs-append fds more [] h = refl
pairs-append [] more (e ∷ events) h = absurd (omega arith)
pairs-append (q ∷ fds) more (e ∷ events) h =
    ap (λ t. (q, e) ∷ t) (pairs-append fds more events (omega arith))

grow_fds-IsInStep :
    {F C : Type 0} (l : Loop F C)
    → IsInStep l
    → IsInStep (grow_fds l)
      × ((grow_fds l).fd_length < (grow_fds l).fd_capacity)
      × (entries (grow_fds l) ≡ entries l)
      × ((grow_fds l).fd_length ≡ l.fd_length)
unfolding grow_fds
grow_fds-IsInStep l v = ground (
  arith,
  length-append {0} l.fds (replicate 10 blank_fd),
  pairs-append l.fds (replicate 10 blank_fd) l.fd_events,
)

put_fd-IsInStep :
    {F C : Type 0} (l : Loop F C) (fd mask : ℕ) (callback : F)
    → IsInStep l
    → l.fd_length < l.fd_capacity
    → IsInStep (put_fd l fd mask callback)
      × (entries (put_fd l fd mask callback)
          ≡ entries l ++ (record { fd = fd; events = mask; revents = 0 }, callback) ∷ [])
unfolding put_fd
put_fd-IsInStep l fd mask callback v h =
    let p : PollFd = record { fd = fd; events = mask; revents = 0 } in
    let e = v.paired in
    (
      record {
        sized = length-set l.fds l.fd_length p ∙ v.sized;
        room = omega arith;
        paired = length-append l.fd_events (callback ∷ []) ∙ omega arith;
      },
      rw (← e) (pairs-snoc l.fds l.fd_events p callback (omega (arith, v.sized))),
    )

-- With memory, `loop_add_fd` keeps array and list in step, growing the array where it is full, and
-- puts the new entry last; without memory it changes nothing.
pub loop_add_fd_lem :
    {F C : Type 0} (memory : Bool) (l : Loop F C) (fd mask : ℕ) (callback : F)
    → IsInStep l
    → IsInStep (loop_add_fd memory l fd mask callback)
      × (entries (loop_add_fd memory l fd mask callback) ≡ (
          if memory
          then entries l ++ (record { fd = fd; events = mask; revents = 0 }, callback) ∷ []
          else entries l))
unfolding loop_add_fd
loop_add_fd_lem true l fd mask callback v =
    let (step, room, same, _) = grow_fds-IsInStep l v in
    let (step', grown) = put_fd-IsInStep (grow_fds l) fd mask callback step room in
    (
      step',
      grown ∙ ap (λ t. t ++ (record { fd = fd; events = mask; revents = 0 }, callback) ∷ []) same,
    )
loop_add_fd_lem false l fd mask callback v = (v, refl)
