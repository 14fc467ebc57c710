-- ===== src/State.antt =====
-- `struct swaylock_state` and what it holds (include/swaylock.h, include/seat.h). A Wayland object
-- is modelled by whether its pointer is set, an image by a number that stands for its pointer.
use swaylock.Base.{ℕ, Bool, Option, List}
use swaylock.Args.{Args}
use swaylock.Loop.{Loop}
use swaylock.Password.{Password}
use swaylock.PoolBuffer.{PoolBuffer}

pub data AuthState : Type 0 where
  idle clear input input_nop backspace validating invalid : AuthState

-- The callbacks that are given to the event loop: `display_in` and `comm_in`, `clear_indicator` and
-- `clear_password`.
pub data FdCallback : Type 0 where
  on_display on_comm : FdCallback

pub data TimerCallback : Type 0 where
  on_clear_indicator on_clear_password : TimerCallback

-- `requested` counts the frame callbacks that are asked for with the next commit of the surface,
-- `callbacks` those that the compositor still owes it.
pub record Surface : Type 0 where
  pub output_global_name : ℕ
  pub output_name : Option (List ℕ)
  pub image : Option ℕ
  pub layer_surface : Bool
  pub buffers : List PoolBuffer
  pub indicator_buffers : List PoolBuffer
  pub frame_pending : Bool
  pub dirty : Bool
  pub requested : ℕ
  pub callbacks : ℕ
  pub width : ℕ
  pub height : ℕ
  pub indicator_width : ℕ
  pub indicator_height : ℕ
  pub scale : ℕ
  pub subpixel : ℕ

pub record Xkb : Type 0 where
  pub caps_lock : Bool
  pub control : Bool

-- `request_pipe` is what has been written to comm.c's request pipe, oldest byte first. `failed_attempts` is
-- an `int`, whose overflow C leaves undefined: the model is that of the counts below 2 ^ 31.
pub record State : Type 0 where
  pub eventloop : Loop FdCallback TimerCallback
  pub clear_indicator_timer : Option ℕ
  pub clear_password_timer : Option ℕ
  pub surfaces : List Surface
  pub args : Args
  pub password : Password
  pub xkb : Xkb
  pub auth_state : AuthState
  pub failed_attempts : ℕ
  pub run_display : Bool
  pub request_pipe : List ℕ
