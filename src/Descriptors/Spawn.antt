-- ===== src/Descriptors/Spawn.antt =====
-- Which ends of the two pipes each process keeps after `spawn_comm_child`.
use swaylock.Base.{
  ℕ, ◌+◌, ◌≤◌, ◌≡◌, refl, ◌≢◌, ◌↔◌, Bool, true, false, ◌&&◌, none, some, arith, ◌==◌, if◌then◌else◌,
}
use swaylock.Descriptors.{
  File, read_end, write_end, Table, look_up, Fds, pipe, close, Comm, Answers, Spawned, not_spawned,
  spawned, part_ways, spawn_comm_child,
}
use swaylock.Descriptors.Table.{TakesTwo, pipe_lem, Keeps, pipe-Keeps, close-Keeps, look_up-close}

-- One descriptor refers to the file, and no other; and none does.
abbrev pub Holds : Table → ℕ → File → Type 0
Holds t fd f = (j : ℕ) → (look_up t j ≡ some f) ↔ (j ≡ fd)

abbrev pub Lacks : Table → File → Type 0
Lacks t f = (j : ℕ) → look_up t j ≢ some f

-- A process that writes into the pipe `to` and reads from the pipe `from`, and has no other end.
pub record Ends (t : Table) (to : ℕ) (writing : ℕ) (from : ℕ) (reading : ℕ) : Type 0 where
  pub writes : Holds t writing (write_end to)
  pub reads : Holds t reading (read_end from)
  pub not_read : Lacks t (read_end to)
  pub not_written : Lacks t (write_end from)

-- The numbers from `n` on are those of no pipe yet.
abbrev pub NewPipe : ℕ → Table → Type 0
NewPipe n t = (k : ℕ) → n ≤ k → Lacks t (read_end k) × Lacks t (write_end k)

-- The descriptors of two pipes, made one after the other.
module _ (n : ℕ) (t t1 t2 : Table) (request reply : Fds) (one : TakesTwo n t t1 request)
    (two : TakesTwo (n + 1) t1 t2 reply) (new : NewPipe n t) where
  -- The second pair of descriptors was free when the first was free.
  reading_apart :
      (reply.reading ≢ request.reading)
      × (reply.reading ≢ request.writing)
      × (look_up t reply.reading ≡ none)
  reading_apart =
      let free = two.reading_free in
      let at = one.after reply.reading in
      (λ e. ground (arith, free, at), λ e. ground (arith, free, at), ground (arith, free, at))

  writing_apart :
      (reply.writing ≢ request.reading)
      × (reply.writing ≢ request.writing)
      × (look_up t reply.writing ≡ none)
  writing_apart =
      let free = two.writing_free in
      let at = one.after reply.writing in
      (λ e. ground (arith, free, at), λ e. ground (arith, free, at), ground (arith, free, at))

  -- After two of the descriptors are closed.
  look_up-closed :
      (a b j : ℕ)
      → look_up (close a (close b t2)) j ≡ (
          if a == j
          then none
          else if b == j
          then none
          else if reply.writing == j
          then some (write_end (n + 1))
          else if reply.reading == j
          then some (read_end (n + 1))
          else if request.writing == j
          then some (write_end n)
          else if request.reading == j
          then some (read_end n)
          else look_up t j)
  look_up-closed a b j =
      rw (look_up-close a (close b t2) j, look_up-close b t2 j, two.after j, one.after j) refl

  parent-Ends :
      Ends (close reply.writing (close request.reading t2)) n request.writing (n + 1) reply.reading
  parent-Ends =
      let (a, b, free) = reading_apart in
      let (c, d, free) = writing_apart in
      record {
        writes = λ j.
            let at = look_up-closed reply.writing request.reading j in
            (
              λ h. ground (arith, at, h, (new n (omega arith)).1 j),
              λ e. ground (arith, at, e, a, b, c, d, one.two, two.two),
            );
        reads = λ j.
            let at = look_up-closed reply.writing request.reading j in
            (
              λ h. ground (arith, at, h, (new (n + 1) (omega arith)).0 j),
              λ e. ground (arith, at, e, a, b, c, d, one.two, two.two),
            );
        not_read = λ j h.
            let at = look_up-closed reply.writing request.reading j in
            ground (arith, at, h, (new n (omega arith)).0 j);
        not_written = λ j h.
            let at = look_up-closed reply.writing request.reading j in
            ground (arith, at, h, (new (n + 1) (omega arith)).1 j);
      }

  child-Ends :
      Ends (close reply.reading (close request.writing t2)) (n + 1) reply.writing n request.reading
  child-Ends =
      let (a, b, free) = reading_apart in
      let (c, d, free) = writing_apart in
      record {
        writes = λ j.
            let at = look_up-closed reply.reading request.writing j in
            (
              λ h. ground (arith, at, h, (new (n + 1) (omega arith)).1 j),
              λ e. ground (arith, at, e, a, b, c, d, one.two, two.two),
            );
        reads = λ j.
            let at = look_up-closed reply.reading request.writing j in
            (
              λ h. ground (arith, at, h, (new n (omega arith)).0 j),
              λ e. ground (arith, at, e, a, b, c, d, one.two, two.two),
            );
        not_read = λ j h.
            let at = look_up-closed reply.reading request.writing j in
            ground (arith, at, h, (new (n + 1) (omega arith)).0 j);
        not_written = λ j h.
            let at = look_up-closed reply.reading request.writing j in
            ground (arith, at, h, (new n (omega arith)).1 j);
      }

  both-Keeps : Keeps t t2
  both-Keeps j f h = pipe-Keeps two j f (pipe-Keeps one j f h)

  parent-Keeps : Keeps t (close reply.writing (close request.reading t2))
  parent-Keeps =
      close-Keeps reply.writing t (close request.reading t2) (writing_apart.2)
        (close-Keeps request.reading t t2 one.reading_free both-Keeps)

  child-Keeps : Keeps t (close reply.reading (close request.writing t2))
  child-Keeps =
      close-Keeps reply.reading t (close request.writing t2) (reading_apart.2)
        (close-Keeps request.writing t t2 one.writing_free both-Keeps)

-- What `spawn_comm_child` gives for a table, where the flag says whether all three calls succeed.
pub data Parts (ok : Bool) (n : ℕ) (t : Table) : Spawned → Type 0 where
  refused : {t' : Table} → ok ≡ false → Keeps t t' → Parts ok n t (not_spawned t')
  parted :
      {parent child : Table} {comm : Comm}
      → ok ≡ true
      → Ends parent n comm.request.writing (n + 1) comm.reply.reading
      → Ends child (n + 1) comm.reply.writing n comm.request.reading
      → Keeps t parent
      → Keeps t child
      → Parts ok n t (spawned parent child comm)

-- On a table that has no end of the two new pipes: if one of the calls fails, there is one process,
-- and what was open still is; otherwise both processes keep what was open, the parent has the end to
-- write requests and the end to read replies, the child has the other two, each once, and neither
-- has an end that the other uses.
pub spawn_comm_child-Parts :
    (answers : Answers) (n : ℕ) (t : Table)
    → NewPipe n t
    → Parts
        (answers.request_pipe && (answers.reply_pipe && answers.fork))
        n
        t
        (spawn_comm_child answers n t)
unfolding spawn_comm_child part_ways
spawn_comm_child-Parts answers n t new = go answers.request_pipe answers.reply_pipe answers.fork
  where
    one : TakesTwo n t (pipe n t).0 (pipe n t).1
    one = pipe_lem n t

    two : TakesTwo (n + 1) (pipe n t).0 (pipe (n + 1) (pipe n t).0).0 (pipe (n + 1) (pipe n t).0).1
    two = pipe_lem (n + 1) (pipe n t).0

    go :
        (first second fork : Bool)
        → Parts (first && (second && fork)) n t (
            spawn_comm_child
              (record { request_pipe = first; reply_pipe = second; fork = fork })
              n
              t)
    go false second fork = refused refl (λ j f h. h)
    go true false fork = refused refl (pipe-Keeps one)
    go true true false = refused refl (both-Keeps n t _ _ _ _ one two new)
    go true true true =
        parted refl (parent-Ends n t _ _ _ _ one two new) (child-Ends n t _ _ _ _ one two new)
          (parent-Keeps n t _ _ _ _ one two new) (child-Keeps n t _ _ _ _ one two new)
