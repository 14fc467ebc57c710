-- ===== src/Loop.antt =====
-- loop.c: the event loop's file descriptors and timers. A timer's address is a number that is used
-- once; the callbacks are values of the parameters `F` and `C`, which their caller interprets.
-- Uninitialised entries of the descriptor array are written as zeros.
pub mod Time
pub mod Sleep
pub mod Fds
pub mod Remove
pub mod Dispatch
use swaylock.Base.{
  ℕ, zero, suc, ◌+◌, ◌-◌, ◌*◌, ◌/◌, ◌%◌, Bool, true, false, ◌&&◌, ◌||◌, Option, none, some, List,
  [], ◌∷◌, ◌++◌, ltb, leb, ◌==◌, if◌then◌else◌, length, get_or, set, take, drop, replicate,
}

pub record Timespec : Type 0 where
  pub tv_sec : ℕ
  pub tv_nsec : ℕ

pub record Timer (C : Type 0) : Type 0 where
  pub id : ℕ
  pub callback : C
  pub expiry : Timespec

pub record PollFd : Type 0 where
  pub fd : ℕ
  pub events : ℕ
  pub revents : ℕ

-- `next_id` counts the timers asked for, so that each has an address of its own.
pub record Loop (F C : Type 0) : Type 0 where
  pub fds : List PollFd
  pub fd_length : ℕ
  pub fd_capacity : ℕ
  pub fd_events : List F
  pub timers : List (Timer C)
  pub next_id : ℕ

-- What the system answers during one event: the clock, and for each timer whether `calloc` has
-- memory for it.
pub record System : Type 0 where
  pub now : Timespec
  pub has_memory : ℕ → Bool

abbrev pub blank_fd : PollFd
blank_fd = record { fd = 0; events = 0; revents = 0 }

module _ {F C : Type 0} where
  -- What `loop_create` returns where its `calloc` succeeds.
  unfoldable pub loop_create : Loop F C
  loop_create = record {
    fds = replicate 10 blank_fd;
    fd_length = 0;
    fd_capacity = 10;
    fd_events = [];
    timers = [];
    next_id = 0;
  }

  -- The array after the test for a full one.
  unfoldable pub grow_fds : Loop F C → Loop F C
  grow_fds l =
      if l.fd_length == l.fd_capacity
      then record l { fds = l.fds ++ replicate 10 blank_fd; fd_capacity = l.fd_capacity + 10 }
      else l

  -- The new entry in an array with room; `wl_list_insert(loop->fd_events.prev, …)` puts the event
  -- last.
  unfoldable pub put_fd : Loop F C → ℕ → ℕ → F → Loop F C
  put_fd l fd mask callback = record l {
    fds = set l.fds l.fd_length (record { fd = fd; events = mask; revents = 0 });
    fd_length = l.fd_length + 1;
    fd_events = l.fd_events ++ callback ∷ [];
  }

  -- `memory` says whether `calloc` succeeds; otherwise nothing happens.
  unfoldable pub loop_add_fd : Bool → Loop F C → ℕ → ℕ → F → Loop F C
  unfolding grow_fds put_fd
  loop_add_fd memory l fd mask callback = if memory then put_fd (grow_fds l) fd mask callback else l

-- The loop of `loop_remove_fd`, from index `i` on: the index of the event whose entry has the
-- descriptor.
unfoldable pub find_fd : {F : Type 0} → List F → List PollFd → ℕ → ℕ → Option ℕ
find_fd [] fds fd i = none
find_fd (event ∷ events) fds fd i =
    let rest = find_fd events fds fd (suc i) in
    if (get_or fds i blank_fd).fd == fd then some i else rest

unfoldable pub remove_at {ℓ} : {A : Type ℓ} → ℕ → List A → List A
remove_at i [] = []
remove_at zero (x ∷ xs) = xs
remove_at (suc i) (x ∷ xs) = x ∷ remove_at i xs

-- memmove(&a[i], &a[i + 1], n): the `n` entries from `i` on become those from `i + 1` on.
unfoldable pub move_down {ℓ} : {A : Type ℓ} → List A → ℕ → ℕ → List A
move_down a i n = take i a ++ (take n (drop (i + 1) a) ++ drop (i + n) a)

-- The loop after the call, and whether the descriptor was there.
unfoldable pub loop_remove_fd : {F C : Type 0} → Loop F C → ℕ → Loop F C × Bool
unfolding find_fd remove_at move_down
loop_remove_fd l fd = elim (find_fd l.fd_events l.fds fd 0) [
  | none ↦ (l, false)
  | some i ↦ (
    record l {
      fd_events = remove_at i l.fd_events;
      fd_length = l.fd_length - 1;
      fds = move_down l.fds i (l.fd_length - 1 - i);
    },
    true,
  )
]

-- A normalised sum of a time and some milliseconds.
unfoldable pub expiry_after : Timespec → ℕ → Timespec
expiry_after now ms =
    let sec = now.tv_sec + ms / 1000 in
    let nsec = ms % 1000 * 1000000 in
    if leb 1000000000 (now.tv_nsec + nsec)
    then record { tv_sec = sec + 1; tv_nsec = now.tv_nsec + nsec - 1000000000 }
    else record { tv_sec = sec; tv_nsec = now.tv_nsec + nsec }

-- Whether a timer's time is over.
unfoldable pub has_expired : Timespec → Timespec → Bool
has_expired expiry now =
    ltb expiry.tv_sec now.tv_sec || expiry.tv_sec == now.tv_sec && ltb expiry.tv_nsec now.tv_nsec

-- The entry of the timer list at an address, with the address of the entry after it. `none` as the
-- whole answer is a read of memory that is not, or no longer, a timer; `none` in the place of the
-- next address is the end of the list.
unfoldable pub first_id : {C : Type 0} → List (Timer C) → Option ℕ
first_id [] = none
first_id (t ∷ ts) = some t.id

unfoldable pub timer_at : {C : Type 0} → ℕ → List (Timer C) → Option (Timer C × Option ℕ)
unfolding first_id
timer_at id [] = none
timer_at id (t ∷ ts) =
    let rest = timer_at id ts in if t.id == id then some (t, first_id ts) else rest

-- The loop of `loop_remove_timer` over the timers: the rest of them, and whether one was found.
unfoldable pub remove_timer : {C : Type 0} → ℕ → List (Timer C) → List (Timer C) × Bool
remove_timer id [] = ([], false)
remove_timer id (t ∷ ts) =
    let (rest, found) = remove_timer id ts in if t.id == id then (ts, true) else (t ∷ rest, found)

module _ {F C : Type 0} where
  unfoldable pub loop_remove_timer : Loop F C → ℕ → Loop F C × Bool
  unfolding remove_timer
  loop_remove_timer l id =
      let (ts, found) = remove_timer id l.timers in (record l { timers = ts }, found)

  -- The loop with the new timer at the head of its list, and the timer's address.
  unfoldable pub loop_add_timer : System → Loop F C → ℕ → C → Loop F C × Option ℕ
  unfolding expiry_after
  loop_add_timer sys l ms callback =
      if sys.has_memory l.next_id
      then (
        record l {
          timers =
              record { id = l.next_id; callback = callback; expiry = expiry_after sys.now ms }
              ∷ l.timers;
          next_id = l.next_id + 1;
        },
        some l.next_id,
      )
      else (record l { next_id = l.next_id + 1 }, none)

-- How the walk over the timers ends: with a state, by reading a timer that was freed, or by the
-- end of its fuel.
pub data Walk (S : Type 0) : Type 0 where
  done : S → Walk S
  use_after_free : Walk S
  out_of_fuel : Walk S

-- The timers' half of `loop_poll`, over any state that holds a loop: `loop_of` reads the loop,
-- `with_loop` replaces it, and `call` is the timer callback.
module _ {F C S : Type 0} (loop_of : S → Loop F C) (with_loop : Loop F C → S → S)
    (call : C → S → S) where
  unfoldable pub fire : Timespec → Timer C → S → S
  unfolding has_expired
  fire now t s =
      if has_expired t.expiry now
      then (let s' = call t.callback s in with_loop (loop_remove_timer (loop_of s') t.id).0 s')
      else s

  -- `wl_list_for_each_safe`: the address of the next timer is read before the body runs.
  unfoldable pub walk_timers : ℕ → Timespec → Option ℕ → S → Walk S
  unfolding fire
  walk_timers fuel now none s = done s
  walk_timers zero now (some id) s = out_of_fuel
  walk_timers (suc fuel) now (some id) s = elim (timer_at id (loop_of s).timers) [
    | none ↦ use_after_free
    | some (t, next) ↦ walk_timers fuel now next (fire now t s)
  ]

  unfoldable pub dispatch_timers : Timespec → S → Walk S
  unfolding walk_timers
  dispatch_timers now s =
      walk_timers (length (loop_of s).timers + 1) now (first_id (loop_of s).timers) s
