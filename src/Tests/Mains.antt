-- ===== src/Tests/Mains.antt =====
-- Examples for the main loop, the descriptors and the start of the password check.
use swaylock.Base.{
  ℕ, zero, suc, ◌<◌, ◌≡◌, refl, true, false, ◌&&◌, Option, none, some, List, [], ◌∷◌, arith, ltb,
  ◌==◌,
}
use swaylock.Loop.{Loop}
use swaylock.Loop.Fds.{entries}
use swaylock.Loop.Dispatch.{dispatch_fds, call_reported, dispatch_fds_lem}
use swaylock.State.{FdCallback, TimerCallback}
use swaylock.Descriptors.{Table, other, read_end, write_end, spawn_comm_child, daemonize}
use swaylock.Descriptors.Spawn.{Lacks, NewPipe, Parts, spawn_comm_child-Parts}
use swaylock.Descriptors.Daemon.{Ending, daemonize-Ending}
use swaylock.Descriptors.Shm.{ShmAnswers, PoolAnswers}
use swaylock.Screenshot.{FrameEvent, announced, flags, ready, wait_for_copy, screenshot_start}
use swaylock.Screenshot.Capture.{Waited, wait_for_copy-Waited}
use swaylock.Backend.Privileges.{Grants, Credentials, Database, initialize_shadow, run_shadow_child}
use swaylock.Backend.Plain.{Parent, Serving, droppable, shadow-IsPlain}
use swaylock.Lock.{Keysym}
use swaylock.Lock.Main.{pressed, modified, surfaces, Turn}
use swaylock.Tests.{watched, env, noon}
use swaylock.Tests.Events.{watched-IsInStep}

-- A loop, and the descriptors and masks that were reported so far.
abbrev Logged : Type 0
Logged = Loop FdCallback TimerCallback × List (ℕ × ℕ)

abbrev log : FdCallback → ℕ → ℕ → Logged → Logged
log f fd mask (l, reported) = (l, (fd, mask) ∷ reported)

-- The second descriptor has been closed at the other end: POLLHUP.
abbrev hung_up : ℕ → ℕ
hung_up zero = 0
hung_up (suc i) = 0x10

hung_up-few : (i : ℕ) → hung_up i < 64
hung_up-few zero = omega arith
hung_up-few (suc i) = omega arith

dispatch_fds_lem_example :
    dispatch_fds (λ s. s.0) log hung_up (watched, [])
    ≡ call_reported (λ s. s.0) log hung_up (entries watched) 0 (watched, [])
dispatch_fds_lem_example =
    dispatch_fds_lem (λ s. s.0) log (λ f fd mask s. refl) hung_up (watched, []) watched-IsInStep
      (refl, (refl, tt)) hung_up-few

-- A key, and then an answer of yes.
abbrev quiet_turn : Turn
quiet_turn = record {
  flush_failed = false;
  revents = λ i. 1;
  delivered =
      pressed (record { env = env; keysym = Keysym.other; codepoint = 0xe9 })
      ∷ modified (record { layout_same = true; caps_lock = true; control = false })
      ∷ surfaces []
      ∷ [];
  display_failed = false;
  reply = some (0 ∷ []);
  comm_env = env;
  timer_env = env;
  now = noon;
}

abbrev last_turn : Turn
last_turn = record quiet_turn { delivered = []; reply = some (1 ∷ []) }

-- The standard streams, and a descriptor that is closed.
abbrev streams : Table
streams = some (other 0) ∷ some (other 1) ∷ some (other 2) ∷ none ∷ some (other 4) ∷ []

no_read_end : (k : ℕ) → Lacks streams (read_end k)
no_read_end k zero e = cc
no_read_end k (suc zero) e = cc
no_read_end k (suc (suc zero)) e = cc
no_read_end k (suc (suc (suc zero))) e = cc
no_read_end k (suc (suc (suc (suc zero)))) e = cc
no_read_end k (suc (suc (suc (suc (suc j))))) e = cc

no_write_end : (k : ℕ) → Lacks streams (write_end k)
no_write_end k zero e = cc
no_write_end k (suc zero) e = cc
no_write_end k (suc (suc zero)) e = cc
no_write_end k (suc (suc (suc zero))) e = cc
no_write_end k (suc (suc (suc (suc zero)))) e = cc
no_write_end k (suc (suc (suc (suc (suc j))))) e = cc

streams-NewPipe : NewPipe 0 streams
streams-NewPipe k h = (no_read_end k, no_write_end k)

spawn_comm_child-Parts_example :
    Parts true 0 streams
      (spawn_comm_child (record { request_pipe = true; reply_pipe = true; fork = true }) 0 streams)
spawn_comm_child-Parts_example =
    spawn_comm_child-Parts (record { request_pipe = true; reply_pipe = true; fork = true }) 0
      streams streams-NewPipe

daemonize-Ending_example : Ending true streams (
    daemonize
      (record { pipe = true; fork = true; open_null = true; chdir = true; write = true })
      2
      9
      streams)
daemonize-Ending_example =
    daemonize-Ending
      (record { pipe = true; fork = true; open_null = true; chdir = true; write = true }) 2 9
      streams

-- A setuid program that the user 1000 runs.
abbrev setuid_root : Credentials
setuid_root = record {
  uid = record { real = 1000; effective = 0; saved = 0 };
  gid = record { real = 100; effective = 100; saved = 100 };
}

abbrev granted : Grants
granted = record { gid = true; uid = true }

-- One user, whose password stands in the shadow file.
abbrev users : Database
users = record {
  getpwuid = λ uid. some (record { pw_name = b'u' ∷ []; pw_passwd = b'x' ∷ [] });
  getspnam = λ name. some (b'$' ∷ b'6' ∷ []);
  crypt = λ text salt. some salt;
}

shadow-IsPlain_example :
    Parent
      (true && droppable granted setuid_root)
      setuid_root
      (initialize_shadow true granted setuid_root)
    × Serving users
        (droppable granted setuid_root)
        setuid_root
        []
        (run_shadow_child users granted setuid_root [])
shadow-IsPlain_example = shadow-IsPlain true granted granted users setuid_root [] refl

-- There is memory for buffers of less than a million bytes.
abbrev shm_answers : ShmAnswers
shm_answers = record {
  shm_open = true;
  ftruncate = λ size. ltb size 1000000;
  mmap = λ size. ltb size 1000000;
}

abbrev pool_answers : PoolAnswers
pool_answers = record {
  xdg_runtime_dir = some (b'/' ∷ b'r' ∷ []);
  malloc = true;
  mkstemp = true;
  fcntl = record { get_flags = some 0; set_flags = λ bits. bits == 1 };
  ftruncate = λ size. ltb size 1000000;
}

-- Two events in one dispatch, and the last in another.
abbrev deliveries : List (Option (List FrameEvent))
deliveries =
    some (announced shm_answers 9 1 80 60 320 ∷ flags 1 ∷ []) ∷ some [] ∷ some (ready ∷ []) ∷ []

wait_for_copy-Waited_example :
    Waited streams false deliveries (wait_for_copy (screenshot_start streams) deliveries)
wait_for_copy-Waited_example = wait_for_copy-Waited streams deliveries
