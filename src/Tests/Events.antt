-- ===== src/Tests/Events.antt =====
-- Examples for the event loop, the buffers and the surfaces.
use swaylock.Base.{◌≡◌, refl, true, List, [], ◌∷◌, ◌++◌, arith, if◌then◌else◌, All}
use swaylock.Loop.Sleep.{poll_timeout}
use swaylock.Loop.Sleep.Bounds.{IsInTime, IsDue, Any, poll_timeout_lem}
use swaylock.Loop.{Timespec, Timer, loop_add_fd, loop_remove_fd}
use swaylock.Loop.Time.{nanoseconds}
use swaylock.Loop.Fds.{IsInStep, entries, loop_add_fd_lem}
use swaylock.Loop.Remove.{Removes, loop_remove_fd_lem}
use swaylock.PoolBuffer.{zeroed, get_next_buffer}
use swaylock.PoolBuffer.Next.{IsWhole, IsHanded, get_next_buffer_lem}
use swaylock.State.{on_comm, TimerCallback}
use swaylock.Tests.{noon, clear_timer, password_timer, watched}

-- Three seconds after noon, less half a millisecond.
abbrev later_on : Timespec
later_on = record { tv_sec = 103; tv_nsec = 998500000 }

abbrev timers : List (Timer TimerCallback)
timers = record password_timer { expiry = record { tv_sec = 110; tv_nsec = 999000000 } } ∷ []

poll_timeout_lem_example :
    All
      (λ u.
        IsInTime
          (nanoseconds u.expiry)
          (nanoseconds noon)
          (poll_timeout (record clear_timer { expiry = later_on } ∷ timers) noon))
      (record clear_timer { expiry = later_on } ∷ timers)
    × Any
        (λ u.
          IsDue
            (nanoseconds u.expiry)
            (nanoseconds noon)
            (poll_timeout (record clear_timer { expiry = later_on } ∷ timers) noon))
        (record clear_timer { expiry = later_on } ∷ timers)
poll_timeout_lem_example =
    poll_timeout_lem (record clear_timer { expiry = later_on }) timers noon (omega arith)
      ((omega arith, omega arith, omega arith), ((omega arith, omega arith, omega arith), tt))

pub watched-IsInStep : IsInStep watched
watched-IsInStep = record { sized = refl; room = omega arith; paired = refl }

loop_add_fd_lem_example :
    IsInStep (loop_add_fd true watched 7 1 on_comm)
    × (entries (loop_add_fd true watched 7 1 on_comm) ≡ (
        if true
        then entries watched ++ (record { fd = 7; events = 1; revents = 0 }, on_comm) ∷ []
        else entries watched))
loop_add_fd_lem_example = loop_add_fd_lem true watched 7 1 on_comm watched-IsInStep

loop_remove_fd_lem_example : Removes watched 3 (loop_remove_fd watched 3)
loop_remove_fd_lem_example = loop_remove_fd_lem watched 3 watched-IsInStep

zeroed-IsWhole : IsWhole zeroed
zeroed-IsWhole = record { surface_set = refl; cairo_set = refl; mapped_set = refl; sized = λ h. cc }

get_next_buffer_lem_example :
    IsHanded (zeroed ∷ zeroed ∷ []) 800 600 (get_next_buffer (zeroed ∷ zeroed ∷ []) 800 600)
get_next_buffer_lem_example =
    get_next_buffer_lem zeroed zeroed 800 600 zeroed-IsWhole zeroed-IsWhole
