-- ===== src/Lib.antt =====
-- swaylock, a screen locker for Wayland, modelled after its C sources at the root of the repository.
--
-- The parts. The locker reads keys from the compositor and edits a password buffer (password.c,
-- unicode.c). Every key marks the indicator with an `auth_state`, damages the surfaces (main.c) and
-- starts two timers of the event loop (loop.c). A submitted password goes through a pipe to a child
-- process, which checks it and answers on another pipe (comm.c). An answer of yes ends the main loop
-- and with it the lock; any other answer is counted. Each output has a surface that covers it (main.c)
-- and that draws the indicator (render.c) into one of two buffers (pool-buffer.c) when its frame
-- callback comes; behind it stands a blurred screenshot (background-screenshot.c). Options come from a
-- file and from the command line (main.c).
--
-- The files.
--   Base: the numbers, lists and bytes that all parts use.
--   Unicode: unicode.c. Encode, Untouched and Size are about the encoder and the table of sizes,
--     Decode is a decoder that reads back what the encoder writes.
--   Password: the buffer of password.c, `clear_buffer`, `backspace` and `append_ch`.
--   Loop: loop.c, its descriptors (Fds, Remove) and their dispatch (Dispatch), clock arithmetic (Time),
--     how long `loop_poll` sleeps (Sleep), and the walk over the timers.
--   Comm: comm.c, both directions of both pipes.
--   PoolBuffer: pool-buffer.c, `get_next_buffer` and what it calls.
--   Args, State: the records of include/swaylock.h and include/seat.h.
--   Surface: `damage_surface` and `damage_state` of main.c (Frames), and `surface_frame_handle_done`
--     (Keeps, Done). Outputs has the listeners of the registry, of outputs and of layer surfaces, and Sound
--     what those of one surface keep; StartUp is the end of `main`.
--   Render: `set_color_for_state` (Picks), the texts of the indicator (Attempts), and `render_frame` of
--     render.c (Frame, Ends).
--   Lock: `swaylock_handle_key` and the timer callbacks of password.c, `comm_in` and `display_in` of
--     main.c. Timers, Invariant, Poll and Expiry carry the invariant through them, Late and Run are
--     about turns of the timers and whole runs, Text is about what a key does. Main is the main loop of
--     main.c with whole turns of `loop_poll`, as runs (Turns) and when it is left (Leaves).
--   Seat: `keyboard_key` and `keyboard_modifiers` of seat.c (Keys), and the pointer and keyboard of a seat
--     (Devices).
--   Image: `load_image` and `select_image` of main.c.
--   Color: `parse_color` of main.c (Parse), and what cairo.c hands to cairo for a colour (Channels).
--   Pixbuf: the conversion of a decoded image into a cairo surface (cairo.c): the premultiplied colours
--     (Premul), one pixel (Pixels), the loops (Rows), what the surface shows (Shows), and the failures
--     (Create), with `load_background_image` of background-image.c.
--   Descriptors: the table of descriptors of a process (Table), `spawn_comm_child` of comm.c (Spawn),
--     `daemonize` of main.c (Daemon), and the files behind buffers in pool-buffer.c and
--     background-screenshot.c (Shm, NoLeak).
--   Screenshot: `load_background_screenshot` of background-screenshot.c, the capture of an output up to
--     the end of the copy (Capture), and the background that is made of it (Load).
--   Log: log.c.
--   Options: the option tables and `parse_options` of main.c (Apply), `load_config`,
--     `get_config_path` and the first part of `main` (Defaults).
--   Blur: the box blur of background-screenshot.c and the flip before it (Flip). Window and Lines say
--     what one line and one pass do, Mean what both passes do together, Soften what all six do.
--     Threads is `pthread_blur` and the part of `load_background_screenshot` that works with it: Pieces
--     cuts the image up, Passes and Agree are about one pass, Phase, Order and Same about runs, Finish
--     about their end.
--   Backend: the checking process, `handle_conversation` and `run_pw_backend_child` of pam.c, and
--     `run_pw_backend_child` of shadow.c. Unlock puts it between the two ends of the pipes. Privileges
--     has `initialize_pw_backend` of both and the way of shadow.c to its loop, Plain is about the
--     credentials that are left.
--   Tests: examples at concrete inputs.
--
-- How state corresponds. A struct is a record with the fields of the struct that the modelled
-- functions use, a handler is a function from the state before to the state after. A C string is the
-- list of its bytes. A `uint32_t` is a number with `% 2 ^ 32` where the code can wrap. The calls to
-- `write`, `read`, `calloc` and `clock_gettime` take their results from arguments (Env, System, Writes,
-- Reads), for every result that they may have. A timer's address is a number used once, so a pointer
-- to a freed timer is never taken for another timer.
--
-- Fuel. The walk over the timers has one unit of fuel for each timer at its start and one more; the
-- walk never visits a timer twice. The loop that escapes spaces has as much fuel as the path has
-- bytes and one more; it makes one round for each space that another space follows.
--
-- The indicator. `render_frame` calls itself when its buffer has not the size of what it draws; it has
-- fuel for two rounds, and never needs more. A frame is the list of its calls, with colours, texts and
-- whole pixels; where cairo measures in fractions the model has them rounded down and up.
--
-- Threads. A step of the blur's threads is one whole pass of one of them, or one `sem_post`; a pass
-- of one thread touches no pixel of another thread's lines, so a finer grain has the same results.
-- `job_finished` is a plain `bool` that two threads use; the model takes the memory to be sequentially
-- consistent and every `pthread_create` to succeed.
--
-- The display. The main loop takes what `wl_display_dispatch` delivers from an argument: keys, modifiers,
-- and the surfaces that any other listener leaves. What those listeners do is in Surface; where one of
-- them crashes, there is no run. `load_background_screenshot` dispatches events of its own while a
-- surface is configured; Outputs takes whether it returns from an argument. `failed_attempts` and the
-- size of a screencopy buffer are of type `int`; theorems about them say where they stay below 2 ^ 31, or
-- count modulo 2 ^ 32.
--
-- The system. pipe, fork, open, dup2, close, setuid and setgid act on a table of descriptors or on
-- credentials as POSIX describes them, and whether a call succeeds is an argument. gdk-pixbuf's image,
-- a new surface of cairo's and the byte order of the machine are arguments, with the size of a new
-- surface's memory as a hypothesis, and nothing of what it holds.
--
-- Not modelled: coordinates of arcs and texts and the drawing of the background (render.c,
-- background-image.c), which are floating point and calls of cairo; keymaps and the empty listeners
-- of pointers (seat.c); mmap and the objects of Wayland; signals, SIGPIPE among them, so a `write`
-- that fails returns.
pub mod Args
pub mod Backend
pub mod Base
pub mod Blur
pub mod Color
pub mod Comm
pub mod Descriptors
pub mod Image
pub mod Lock
pub mod Log
pub mod Loop
pub mod Options
pub mod Password
pub mod Pixbuf
pub mod PoolBuffer
pub mod Render
pub mod Screenshot
pub mod Seat
pub mod State
pub mod Surface
pub mod Tests
pub mod Unicode
