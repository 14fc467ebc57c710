-- ===== src/Surface/StartUp.antt =====
-- The end of `main` (main.c): from the registry's first round trip to the main loop.
use swaylock.Base.{ℕ, ◌≡◌, ◌⊎◌, Bool, true, false, not, ◌&&◌, List, [], ◌∷◌, if◌then◌else◌, All}
use swaylock.State.{State, Surface, on_display, on_comm}
use swaylock.Loop.{loop_create, loop_add_fd}
use swaylock.Image.{Image}
use swaylock.Loop.Fds.{entries}
use swaylock.Surface.Outputs.{Globals, create_layer_surface}

-- A failed assertion, a crash, a return from `main` with its code, or the main loop.
pub data Start : Type 0 where
  aborted crashes : Start
  exits : ℕ → Start
  running : State → Start

unfoldable pub create_layer_surfaces : List Image → List Surface → List Surface
unfolding create_layer_surface
create_layer_surfaces images [] = []
create_layer_surfaces images (o ∷ os) =
    create_layer_surface images o ∷ create_layer_surfaces images os

abbrev pub has_outputs : List Surface → Bool
has_outputs [] = false
has_outputs (o ∷ os) = true

-- `inhibited` says whether the compositor grants the inhibition of input, so that no other program gets
-- the keys. What the round trips before the layer surfaces delivered is in the state given; `daemonize`
-- and the round trip before it are not part of this. `display_fd` and `reply_fd` are the descriptors of
-- the display and of the replies. `create_layer_surface` uses the subcompositor, which nothing has
-- looked at. `calloc` succeeds in `loop_create` and `loop_add_fd`.
unfoldable pub start_up : Globals → Bool → ℕ → ℕ → List Image → State → Start
unfolding create_layer_surfaces loop_create loop_add_fd
start_up g inhibited display_fd reply_fd images s =
    if not (g.compositor && g.layer_shell && g.shm)
    then aborted
    else if not g.input_inhibit_manager
    then exits 1
    else if not inhibited
    then exits 2
    else if has_outputs s.surfaces && not g.subcompositor
    then crashes
    else running (record s {
      surfaces = create_layer_surfaces images s.surfaces;
      eventloop =
          loop_add_fd true (loop_add_fd true loop_create display_fd 1 on_display) reply_fd 1
            on_comm;
      run_display = true;
    })

-- The surfaces that cover their outputs: each with a layer surface, and none left out.
abbrev pub IsCovered : Surface → Type 0
IsCovered o = o.layer_surface ≡ true

abbrev pub names : List Surface → List ℕ
names [] = []
names (o ∷ os) = o.output_global_name ∷ names os

-- Why `main` ends before the main loop, or what the main loop starts from.
abbrev pub Starts : Globals → Bool → ℕ → ℕ → State → Start → Type 0
Starts g inhibited display_fd reply_fd s aborted = (g.compositor && g.layer_shell && g.shm) ≡ false
Starts g inhibited display_fd reply_fd s crashes =
    ((g.compositor && g.layer_shell && g.shm) ≡ true)
    × (g.input_inhibit_manager ≡ true)
    × (inhibited ≡ true)
    × ((has_outputs s.surfaces && not g.subcompositor) ≡ true)
Starts g inhibited display_fd reply_fd s (exits code) =
    ((g.compositor && g.layer_shell && g.shm) ≡ true)
    × ((code ≡ 1) × (g.input_inhibit_manager ≡ false)
        ⊎ (code ≡ 2) × (g.input_inhibit_manager ≡ true) × (inhibited ≡ false))
Starts g inhibited display_fd reply_fd s (running s') =
    ((g.compositor && g.layer_shell && g.shm) ≡ true)
    × (g.input_inhibit_manager ≡ true)
    × (inhibited ≡ true)
    × ((has_outputs s.surfaces && not g.subcompositor) ≡ false)
    × (s'.run_display ≡ true)
    × All IsCovered s'.surfaces
    × (names s'.surfaces ≡ names s.surfaces)
    × (entries s'.eventloop
        ≡ (record { fd = display_fd; events = 1; revents = 0 }, on_display)
          ∷ (record { fd = reply_fd; events = 1; revents = 0 }, on_comm)
          ∷ [])
    × (s'.password ≡ s.password)
    × (s'.auth_state ≡ s.auth_state)
