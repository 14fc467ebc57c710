-- ===== src/Lock/Main.antt =====
-- The main loop (main.c, the end of `main`) and a whole turn of it (loop.c, `loop_poll`): what `poll`
-- reports, what the display delivers, what the reply pipe holds and the clock are arguments. The display
-- delivers keys, modifiers, and what the listeners of outputs, surfaces and frames leave as the surfaces.
pub mod Turns
pub mod Leaves
use swaylock.Base.{ℕ, Bool, Option, List, [], ◌∷◌, if◌then◌else◌}
use swaylock.Loop.{Walk, done, use_after_free, out_of_fuel, Timespec}
use swaylock.Loop.Dispatch.{dispatch_fds}
use swaylock.Seat.{Modifiers, keyboard_modifiers}
use swaylock.State.{State, Surface, FdCallback, on_display, on_comm}
use swaylock.Lock.{Env, Keysym, swaylock_handle_key, display_in, comm_in, poll_timers}

-- A key that the display delivers, with what the system answers while it is handled.
pub record Key : Type 0 where
  pub env : Env
  pub keysym : Keysym
  pub codepoint : ℕ

-- A call of a listener by `wl_display_dispatch`.
pub data Delivery : Type 0 where
  pressed : Key → Delivery
  modified : Modifiers → Delivery
  surfaces : List Surface → Delivery

-- The first flag is `wl_display_flush(…) == -1 && errno != EAGAIN`; `display_failed` says whether
-- `wl_display_dispatch` returns -1.
pub record Turn : Type 0 where
  pub flush_failed : Bool
  pub revents : ℕ → ℕ
  pub delivered : List Delivery
  pub display_failed : Bool
  pub reply : Option (List ℕ)
  pub comm_env : Env
  pub timer_env : Env
  pub now : Timespec

unfoldable pub deliver : Delivery → State → State
deliver (pressed k) s = swaylock_handle_key k.env s k.keysym k.codepoint
deliver (modified m) s = keyboard_modifiers m s
deliver (surfaces os) s = record s { surfaces = os }

unfoldable pub deliver_all : List Delivery → State → State
unfolding deliver
deliver_all [] s = s
deliver_all (d ∷ ds) s = deliver_all ds (deliver d s)

-- The callbacks do not look at their descriptor and mask.
unfoldable pub call_fd : Turn → FdCallback → ℕ → ℕ → State → State
unfolding deliver_all
call_fd turn on_display fd mask s = display_in turn.display_failed (deliver_all turn.delivered s)
call_fd turn on_comm fd mask s = comm_in turn.comm_env turn.reply s

unfoldable pub loop_poll : Turn → State → Walk State
unfolding call_fd
loop_poll turn s =
    poll_timers turn.timer_env turn.now
      (dispatch_fds (λ s. s.eventloop) (call_fd turn) turn.revents s)

-- How the main loop stands after some turns: waiting for the next, left, or in one of the two ends of
-- the walk over the timers.
pub data Main : Type 0 where
  waits leaves : State → Main
  crashes : Main
  stuck : Main

-- `while (state.run_display)`
unfoldable pub main_loop : List Turn → State → Main
unfolding loop_poll
main_loop [] s = if s.run_display then waits s else leaves s
main_loop (t ∷ ts) s =
    let rest : Main = elim (loop_poll t s) [
      | done s' ↦ main_loop ts s'
      | use_after_free ↦ crashes
      | out_of_fuel ↦ stuck
    ] in
    if s.run_display then (if t.flush_failed then leaves s else rest) else leaves s
