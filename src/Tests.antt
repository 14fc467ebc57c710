-- ===== src/Tests.antt =====
-- Concrete passwords, loops and locks for the examples.
pub mod Text
pub mod Events
pub mod Locks
pub mod Blurs
pub mod Frames
pub mod Seats
pub mod Checks
pub mod Settings
pub mod Pixels
pub mod Mains
pub mod Loads
use swaylock.Base.{◌≡◌, refl, true, false, none, some, [], ◌∷◌, arith, length, replicate}
use swaylock.Args.{Args, Colorset, BackgroundMode}
use swaylock.Loop.{System, Timespec, Loop, PollFd, Timer}
use swaylock.Password.{Password, IsValid, clear_password_buffer}
use swaylock.Password.Clear.{clear_password_buffer-IsValid}
use swaylock.PoolBuffer.{zeroed}
use swaylock.State.{
  State, Surface, AuthState, TimerCallback, FdCallback, on_clear_indicator, on_clear_password,
  on_display, on_comm,
}
use swaylock.Lock.{Env, EventLoop}
use swaylock.Lock.Invariant.{IsSound}

abbrev pub fresh : Password
fresh = record { len = 0; buffer = replicate 1024 0 }

pub fresh-sized : length fresh.buffer ≡ 1024
fresh-sized = refl

abbrev pub empty : Password
empty = clear_password_buffer fresh

pub empty-IsValid : IsValid empty
empty-IsValid = (clear_password_buffer-IsValid fresh fresh-sized).0

abbrev pub noon : Timespec
noon = record { tv_sec = 100; tv_nsec = 999000000 }

abbrev pub later : Timespec
later = record { tv_sec = 200; tv_nsec = 5 }

abbrev pub env : Env
env = record {
  sys = record { now = noon; has_memory = λ id. true };
  writes = some 8 ∷ some 1 ∷ some 9 ∷ [];
}

abbrev grey : Colorset
grey = record { input = 1; cleared = 2; caps_lock = 3; verifying = 4; wrong = 5 }

abbrev pub settings : Args
settings = record {
  colors = record {
    background = 1;
    bs_highlight = 2;
    key_highlight = 3;
    caps_lock_bs_highlight = 4;
    caps_lock_key_highlight = 5;
    separator = 6;
    layout_background = 7;
    layout_border = 8;
    layout_text = 9;
    inside = grey;
    line = grey;
    ring = grey;
    text = grey;
  };
  mode = BackgroundMode.fill;
  font = [];
  font_size = 0;
  radius = 75;
  thickness = 10;
  indicator_x_position = 0;
  indicator_y_position = 0;
  override_indicator_x_position = false;
  override_indicator_y_position = false;
  ignore_empty = false;
  show_indicator = true;
  show_caps_lock_text = true;
  show_caps_lock_indicator = false;
  show_keyboard_layout = false;
  hide_keyboard_layout = false;
  show_failed_attempts = false;
  daemonize = false;
  indicator_idle_visible = false;
}

abbrev pub screen : Surface
screen = record {
  output_global_name = 1;
  output_name = none;
  image = none;
  layer_surface = true;
  buffers = zeroed ∷ zeroed ∷ [];
  indicator_buffers = zeroed ∷ zeroed ∷ [];
  frame_pending = false;
  dirty = false;
  requested = 0;
  callbacks = 0;
  width = 800;
  height = 600;
  indicator_width = 0;
  indicator_height = 0;
  scale = 1;
  subpixel = 0;
}

abbrev pub watched : EventLoop
watched = record {
  fds =
      record { fd = 3; events = 1; revents = 0 } ∷ record { fd = 5; events = 1; revents = 0 } ∷ [];
  fd_length = 2;
  fd_capacity = 2;
  fd_events = on_display ∷ on_comm ∷ [];
  timers = [];
  next_id = 2;
}

abbrev pub clear_timer : Timer TimerCallback
clear_timer = record { id = 0; callback = on_clear_indicator; expiry = noon }

abbrev pub password_timer : Timer TimerCallback
password_timer = record { id = 1; callback = on_clear_password; expiry = noon }

abbrev pub locked : State
locked = record {
  eventloop = watched;
  clear_indicator_timer = none;
  clear_password_timer = none;
  surfaces = screen ∷ [];
  args = settings;
  password = empty;
  xkb = record { caps_lock = false; control = false };
  auth_state = AuthState.idle;
  failed_attempts = 0;
  run_display = true;
  request_pipe = [];
}

pub locked-IsSound : IsSound locked
locked-IsSound = record { timers = (refl, refl); password = empty-IsValid }

-- The indicator timer alone.
abbrev pub shown : State
shown = record locked {
  eventloop = record watched { timers = clear_timer ∷ [] };
  clear_indicator_timer = some 0;
}

pub shown-IsSound : IsSound shown
shown-IsSound = record { timers = ground arith; password = empty-IsValid }

-- Both timers, as a key press leaves them.
abbrev pub typing : State
typing = record locked {
  eventloop = record watched { timers = password_timer ∷ clear_timer ∷ [] };
  clear_indicator_timer = some 0;
  clear_password_timer = some 1;
}

pub typing-IsSound : IsSound typing
typing-IsSound = record { timers = ground arith; password = empty-IsValid }
