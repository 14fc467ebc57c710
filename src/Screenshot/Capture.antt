-- ===== src/Screenshot/Capture.antt =====
-- What the wait for the copy ends with.
use swaylock.Base.{
  ◌*◌, ◌≡◌, refl, sym, ◌∙◌, subst, Bool, true, false, not, ◌||◌, Option, none, some, List, [], ◌∷◌,
  arith, if◌then◌else◌,
}
use swaylock.Base.Words.{u32}
use mathlib.Core.Option.{some-injective, none-ne-some}
use swaylock.Descriptors.{Table}
use swaylock.Descriptors.Daemon.{Same}
use swaylock.Descriptors.NoLeak.{Made, succeed, create_shm_buffer-Made}
use swaylock.Descriptors.Shm.{ShmBuffer, create_shm_buffer}
use swaylock.Screenshot.{
  ScreenshotState, FrameEvent, announced, flags, ready, failed, frame_handle_buffer,
  frame_handle_flags, frame_handle_ready, frame_event, frame_events, Wait, blocked, exited, over,
  wait_for_copy, screenshot_start,
}

-- Events that the program survives, and among which the frame was ready.
abbrev pub is_ready : FrameEvent → Bool
is_ready ready = true
is_ready _ = false

abbrev pub any_ready : List FrameEvent → Bool
any_ready [] = false
any_ready (e ∷ es) = is_ready e || any_ready es

-- A dispatch failed, or one delivered that the frame is ready.
abbrev pub any_end : List (Option (List FrameEvent)) → Bool
any_end [] = false
any_end (none ∷ rest) = true
any_end (some es ∷ rest) = any_ready es || any_end rest

-- An event that ends the process: a failed copy, or a buffer that cannot be made.
abbrev pub is_fatal : FrameEvent → Bool
is_fatal failed = true
is_fatal (announced answers file format width height stride) =
    not (succeed answers (u32 (stride * height)))
is_fatal _ = false

abbrev pub any_fatal : List FrameEvent → Bool
any_fatal [] = false
any_fatal (e ∷ es) = is_fatal e || any_fatal es

abbrev pub some_fatal : List (Option (List FrameEvent)) → Bool
some_fatal [] = false
some_fatal (none ∷ rest) = some_fatal rest
some_fatal (some es ∷ rest) = any_fatal es || some_fatal rest

abbrev pub HasRows : ShmBuffer → Type 0
HasRows b = b.size ≡ u32 (b.stride * b.height)

-- The descriptors are those of the table, and the buffer has the bytes of its rows, in 32 bits.
pub record IsTidy (t : Table) (s : ScreenshotState) : Type 0 where
  pub kept : Same t s.descriptors
  pub sized : (b : ShmBuffer) → s.buffer ≡ some b → HasRows b

-- After an event: tidy, and ready if it was or if the event says so; or the event was fatal.
abbrev After : Table → ScreenshotState → Bool → Bool → Option ScreenshotState → Type 0
After t s done fatal none = fatal ≡ true
After t s done fatal (some s') = IsTidy t s' × (s'.buffer_copy_done ≡ (s.buffer_copy_done || done))

frame_event-After :
    (t : Table) (s : ScreenshotState) (e : FrameEvent)
    → IsTidy t s
    → After t s (is_ready e) (is_fatal e) (frame_event s e)
unfolding frame_event frame_handle_buffer frame_handle_flags frame_handle_ready
frame_event-After t s (announced answers file format width height stride) v =
    go (create_shm_buffer answers file format width height stride s.descriptors)
      (create_shm_buffer-Made answers file format width height stride s.descriptors)
  where
    ok : Bool
    ok = succeed answers (u32 (stride * height))

    go :
        (made : Table × Option ShmBuffer)
        → Made s.descriptors ok format width height stride (u32 (stride * height)) made
        → After t s false (not ok) (elim made.1 [
          | none ↦ none
          | some buffer ↦ some (record s { buffer = some buffer; descriptors = made.0 })
        ])
    go (t', none) (same, e) = rw e refl
    go (t', some b) (same, e, shape) = (
      record {
        kept = λ j. same j ∙ v.kept j;
        sized = λ b' e'. subst HasRows (sym shape ∙ some-injective b b' e') refl;
      },
      ground arith,
    )
frame_event-After t s (flags bits) v = (record { kept = v.kept; sized = v.sized }, ground arith)
frame_event-After t s ready v = (record { kept = v.kept; sized = v.sized }, ground arith)
frame_event-After t s failed v = refl

After-trans :
    (t : Table) (s s' : ScreenshotState) (e : FrameEvent) (es : List FrameEvent)
    (r : Option ScreenshotState)
    → s'.buffer_copy_done ≡ (s.buffer_copy_done || is_ready e)
    → After t s' (any_ready es) (any_fatal es) r
    → After t s (any_ready (e ∷ es)) (any_fatal (e ∷ es)) r
After-trans t s s' e es none d h = ground (arith, h)
After-trans t s s' e es (some s'') d (v, d') = (v, ground (arith, d, d'))

frame_events-After :
    (t : Table) (s : ScreenshotState) (es : List FrameEvent)
    → IsTidy t s
    → After t s (any_ready es) (any_fatal es) (frame_events s es)
unfolding frame_events
frame_events-After t s [] v = (v, ground arith)
frame_events-After t s (e ∷ es) v =
    go (λ s' v'. frame_events-After t s' es v') (frame_event s e) (frame_event-After t s e v)
  where
    go :
        ((s' : ScreenshotState)
          → IsTidy t s'
          → After t s' (any_ready es) (any_fatal es) (frame_events s' es))
        → (r : Option ScreenshotState) → After t s (is_ready e) (is_fatal e) r
        → After t s
            (any_ready (e ∷ es))
            (any_fatal (e ∷ es))
            (elim r [ none ↦ none | some s' ↦ frame_events s' es ])
    go ih none h = ground (arith, h)
    go ih (some s') (v', d) = After-trans t s s' e es (frame_events s' es) d (ih s' v')

-- How the wait for the copy from a state with or without a copy can end.
abbrev pub Waited : Table → Bool → List (Option (List FrameEvent)) → Wait → Type 0
Waited t done dispatches blocked = (done || any_end dispatches) ≡ false
Waited t done dispatches exited = some_fatal dispatches ≡ true
Waited t done dispatches (over s) = IsTidy t s × ((done || any_end dispatches) ≡ true)

wait-Waited :
    (t : Table) (s : ScreenshotState) (dispatches : List (Option (List FrameEvent)))
    → IsTidy t s
    → Waited t s.buffer_copy_done dispatches (wait_for_copy s dispatches)
unfolding wait_for_copy
wait-Waited t s [] v = go s.buffer_copy_done refl
  where
    go :
        (done : Bool)
        → s.buffer_copy_done ≡ done
        → Waited t done [] (if done then over s else blocked)
    go true e = (v, refl)
    go false e = refl
wait-Waited t s (none ∷ rest) v = (v, ground arith)
wait-Waited t s (some es ∷ rest) v =
    go s.buffer_copy_done refl
      (next (λ s' v'. wait-Waited t s' rest v') (frame_events s es) (frame_events-After t s es v))
  where
    continued : Option ScreenshotState → Wait
    continued none = exited
    continued (some s') = wait_for_copy s' rest

    widen :
        (s' : ScreenshotState) (w : Wait)
        → s'.buffer_copy_done ≡ (s.buffer_copy_done || any_ready es)
        → Waited t s'.buffer_copy_done rest w
        → Waited t s.buffer_copy_done (some es ∷ rest) w
    widen s' blocked d h = ground (arith, d, h)
    widen s' exited d h = ground (arith, h)
    widen s' (over s'') d (v', h) = (v', ground (arith, d, h))

    next :
        ((s' : ScreenshotState)
          → IsTidy t s'
          → Waited t s'.buffer_copy_done rest (wait_for_copy s' rest))
        → (r : Option ScreenshotState) → After t s (any_ready es) (any_fatal es) r
        → Waited t s.buffer_copy_done (some es ∷ rest) (continued r)
    next ih none h = ground (arith, h)
    next ih (some s') (v', d) = widen s' (wait_for_copy s' rest) d (ih s' v')

    go :
        (done : Bool)
        → s.buffer_copy_done ≡ done
        → Waited t s.buffer_copy_done (some es ∷ rest) (continued (frame_events s es))
        → Waited t done (some es ∷ rest) (if done then over s else continued (frame_events s es))
    go true e h = (v, refl)
    go false e h = subst (λ d. Waited t d (some es ∷ rest) (continued (frame_events s es))) e h

-- The capture of an output, whatever events of its screencopy frame the display delivers and in whatever
-- order: the wait is still blocked only where no
-- dispatch failed and none delivered that the frame is ready, and is over only where one did; the
-- process exits only for a copy that failed or a buffer that could not be made; when the wait is
-- over, every descriptor is as it was, and the buffer, if there is one, has as many bytes as its rows,
-- modulo 2 ^ 32.
pub wait_for_copy-Waited :
    (t : Table) (dispatches : List (Option (List FrameEvent)))
    → Waited t false dispatches (wait_for_copy (screenshot_start t) dispatches)
wait_for_copy-Waited t dispatches =
    wait-Waited t (screenshot_start t) dispatches
      (record { kept = λ j. refl; sized = λ b e. absurd (none-ne-some b e) })
