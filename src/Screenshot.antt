-- ===== src/Screenshot.antt =====
-- The capture of an output (background-screenshot.c, the listeners of a frame and the first part of
-- `load_background_screenshot`). What the display delivers is an argument, and so is what the system
-- answers while a buffer is made.
pub mod Capture
pub mod Load
use swaylock.Base.{
  ℕ, Bool, true, false, not, Option, none, some, List, [], ◌∷◌, ◌==◌, if◌then◌else◌,
}
use Prim.Native.Nat.{bit_and}
use swaylock.Descriptors.{Table}
use swaylock.Descriptors.Shm.{ShmAnswers, ShmBuffer, create_shm_buffer}

-- `struct screenshot_state`, and the descriptors of the process; `none` is a buffer that no event has
-- set.
pub record ScreenshotState : Type 0 where
  pub buffer : Option ShmBuffer
  pub y_invert : Bool
  pub buffer_copy_done : Bool
  pub descriptors : Table

-- The events of a frame. With `announced`, what the system answers, and the number of the file.
pub data FrameEvent : Type 0 where
  announced : ShmAnswers → (file format width height stride : ℕ) → FrameEvent
  flags : ℕ → FrameEvent
  ready failed : FrameEvent

-- `none` is `exit(EXIT_FAILURE)`.
unfoldable pub frame_handle_buffer :
    ScreenshotState → ShmAnswers → ℕ → ℕ → ℕ → ℕ → ℕ → Option ScreenshotState
unfolding create_shm_buffer
frame_handle_buffer s answers file format width height stride =
    let (t, made) = create_shm_buffer answers file format width height stride s.descriptors in
    elim made [
      | none ↦ none
      | some buffer ↦ some (record s { buffer = some buffer; descriptors = t })
    ]

-- Y_INVERT is 1.
unfoldable pub frame_handle_flags : ScreenshotState → ℕ → ScreenshotState
frame_handle_flags s bits = record s { y_invert = not (bit_and bits 1 == 0) }

unfoldable pub frame_handle_ready : ScreenshotState → ScreenshotState
frame_handle_ready s = record s { buffer_copy_done = true }

unfoldable pub frame_event : ScreenshotState → FrameEvent → Option ScreenshotState
unfolding frame_handle_buffer frame_handle_flags frame_handle_ready
frame_event s (announced answers file format width height stride) =
    frame_handle_buffer s answers file format width height stride
frame_event s (flags bits) = some (frame_handle_flags s bits)
frame_event s ready = some (frame_handle_ready s)
frame_event s failed = none

unfoldable pub frame_events : ScreenshotState → List FrameEvent → Option ScreenshotState
unfolding frame_event
frame_events s [] = some s
frame_events s (e ∷ es) = elim (frame_event s e) [ none ↦ none | some s' ↦ frame_events s' es ]

-- How the wait for the copy stands: blocked in `wl_display_dispatch`, ended with the process, or over.
pub data Wait : Type 0 where
  blocked exited : Wait
  over : ScreenshotState → Wait

-- The loop; `none` is a dispatch that returns -1, the others deliver events of the frame.
unfoldable pub wait_for_copy : ScreenshotState → List (Option (List FrameEvent)) → Wait
unfolding frame_events
wait_for_copy s [] = if s.buffer_copy_done then over s else blocked
wait_for_copy s (none ∷ rest) = over s
wait_for_copy s (some es ∷ rest) =
    let next : Wait = elim (frame_events s es) [
      | none ↦ exited
      | some s' ↦ wait_for_copy s' rest
    ] in
    if s.buffer_copy_done then over s else next

-- The state that the capture starts from.
abbrev pub screenshot_start : Table → ScreenshotState
screenshot_start t = record {
  buffer = none;
  y_invert = false;
  buffer_copy_done = false;
  descriptors = t;
}
