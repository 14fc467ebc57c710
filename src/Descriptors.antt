-- ===== src/Descriptors.antt =====
-- The descriptors of a process, as POSIX describes pipe, open, dup2, close and fork, and the code
-- that is about them: `spawn_comm_child` (comm.c) and `daemonize` (main.c). Whether a call succeeds
-- is an argument.
pub mod Table
pub mod Spawn
pub mod Daemon
pub mod Shm
pub mod NoLeak
use swaylock.Base.{
  ℕ, suc, ◌+◌, Bool, not, Option, none, some, List, [], ◌∷◌, if◌then◌else◌, get_or, set,
}

-- What a descriptor refers to: an end of a pipe, which has a number, or some other file.
pub data File : Type 0 where
  read_end write_end other : ℕ → File

abbrev pub Table : Type 0
Table = List (Option File)

abbrev pub look_up : Table → ℕ → Option File
look_up t fd = get_or t fd none

-- The table with a new descriptor, the lowest that is free, and its number.
abbrev above : Option File → Table × ℕ → Table × ℕ
above slot (t, fd) = (slot ∷ t, suc fd)

unfoldable pub open_file : File → Table → Table × ℕ
open_file f [] = (some f ∷ [], 0)
open_file f (none ∷ t) = (some f ∷ t, 0)
open_file f (some g ∷ t) = above (some g) (open_file f t)

-- `fds[0]` and `fds[1]`
pub record Fds : Type 0 where
  pub reading : ℕ
  pub writing : ℕ

-- `pipe`, where it succeeds, for the pipe `n`.
unfoldable pub pipe : ℕ → Table → Table × Fds
unfolding open_file
pipe n t =
    let (t1, r) = open_file (read_end n) t in
    let (t2, w) = open_file (write_end n) t1 in (t2, record { reading = r; writing = w })

abbrev pub close : ℕ → Table → Table
close fd t = set t fd none

-- `dup2`: the new descriptor, which is open here, refers to what the old one does; if the old one
-- is not open, nothing happens.
unfoldable pub dup2 : ℕ → ℕ → Table → Table
dup2 old new t = elim (look_up t old) [ none ↦ t | some f ↦ set t new (some f) ]

-- `comm`: the pipe of the requests, comm[0], and that of the replies, comm[1].
pub record Comm : Type 0 where
  pub request : Fds
  pub reply : Fds

-- What the system answers to the two calls of `pipe`, and to `fork`.
pub record Answers : Type 0 where
  pub request_pipe : Bool
  pub reply_pipe : Bool
  pub fork : Bool

-- The process that goes on with its table, and, where the call succeeded, the new process at the
-- start of `run_pw_backend_child`.
pub data Spawned : Type 0 where
  not_spawned : Table → Spawned
  spawned : (parent child : Table) → Comm → Spawned

-- After `fork`: both processes have the table; each closes the two ends that it does not use.
unfoldable pub part_ways : Table → Comm → Spawned
part_ways t comm =
    let child = close comm.reply.reading (close comm.request.writing t) in
    let parent = close comm.reply.writing (close comm.request.reading t) in
    spawned parent child comm

-- `n` is the number of the next pipe.
unfoldable pub spawn_comm_child : Answers → ℕ → Table → Spawned
unfolding pipe part_ways
spawn_comm_child answers n t =
    if not answers.request_pipe
    then not_spawned t
    else (let (t1, request) = pipe n t in
        if not answers.reply_pipe
        then not_spawned t1
        else (let (t2, reply) = pipe (n + 1) t1 in
            if not answers.fork
            then not_spawned t2
            else part_ways t2 (record { request = request; reply = reply })))

-- What the system answers in `daemonize`: to `pipe` and `fork`, and to `open`, `chdir` and `write` in
-- the new process.
pub record DaemonAnswers : Type 0 where
  pub pipe : Bool
  pub fork : Bool
  pub open_null : Bool
  pub chdir : Bool
  pub write : Bool

-- How `daemonize` ends. The old process always exits: with 1, or with 0 where the new process has
-- told it of its success and goes on with its table.
pub data Daemonized : Type 0 where
  exits : Daemonized
  goes_on : Table → Daemonized

-- The streams of the new process. Where `open` fails, `devnull` is -1, and the calls do nothing.
unfoldable pub redirect : Bool → ℕ → Table → Table
unfolding open_file dup2
redirect opened null_file t =
    if not opened
    then t
    else (let (t', devnull) = open_file (other null_file) t in
        close devnull (dup2 2 devnull (dup2 1 devnull t')))

-- `/dev/null` is the other file with the number `null_file`.
unfoldable pub daemonize : DaemonAnswers → ℕ → ℕ → Table → Daemonized
unfolding pipe redirect
daemonize answers n null_file t =
    if not answers.pipe
    then exits
    else if not answers.fork
    then exits
    else if not answers.chdir
    then exits
    else if not answers.write
    then exits
    else (let (t1, fds) = pipe n t in
        goes_on (close fds.writing (redirect answers.open_null null_file (close fds.reading t1))))
