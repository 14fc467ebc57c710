-- ===== src/Surface/Outputs.antt =====
-- Outputs and their surfaces (main.c): the registry's listeners, those of an output, and those of a
-- layer surface. Wayland's objects are modelled by whether they are bound; the events that a
-- `wl_display_roundtrip` reads are events of their own. Each output has a global name.
pub mod Sound
use swaylock.Base.{
  ℕ, ◌*◌, Bool, true, false, ◌||◌, Option, none, some, List, [], ◌∷◌, map, ltb, ◌==◌, if◌then◌else◌,
}
use swaylock.Base.Words.{u32}
use mathlib.Core.Option
use swaylock.State.{State, Surface}
use swaylock.Args.{BackgroundMode}
use swaylock.Image.{Image, select_image}
use swaylock.PoolBuffer.{PoolBuffer, zeroed, get_next_buffer}
use swaylock.Surface.{committed, damage_surface}
use swaylock.Surface.Done.{commits, surface_frame_handle_done}
use swaylock.Render.{Look}
use swaylock.Render.Frame.{
  Outcome, rendered, null_dereference, division_by_zero, out_of_fuel, render_frame,
}

-- The interfaces that `handle_global` looks for, and any other.
pub data Interface : Type 0 where
  compositor subcompositor shm seat layer_shell input_inhibit_manager output_manager wl_output
        screencopy_manager other :
      Interface

pub record Globals : Type 0 where
  pub compositor : Bool
  pub subcompositor : Bool
  pub shm : Bool
  pub layer_shell : Bool
  pub input_inhibit_manager : Bool
  pub zxdg_output_manager : Bool
  pub screencopy_manager : Bool

abbrev pub no_globals : Globals
no_globals = record {
  compositor = false;
  subcompositor = false;
  shm = false;
  layer_shell = false;
  input_inhibit_manager = false;
  zxdg_output_manager = false;
  screencopy_manager = false;
}

unfoldable pub bind_global : Interface → Globals → Globals
bind_global Interface.compositor g = record g { compositor = true }
bind_global Interface.subcompositor g = record g { subcompositor = true }
bind_global Interface.shm g = record g { shm = true }
bind_global Interface.layer_shell g = record g { layer_shell = true }
bind_global Interface.input_inhibit_manager g = record g { input_inhibit_manager = true }
bind_global Interface.output_manager g = record g { zxdg_output_manager = true }
bind_global Interface.screencopy_manager g = record g { screencopy_manager = true }
bind_global Interface.seat g = g
bind_global Interface.wl_output g = g
bind_global Interface.other g = g

-- `calloc`, with the name of the global.
unfoldable pub new_surface : ℕ → Surface
new_surface name = record {
  output_global_name = name;
  output_name = none;
  image = none;
  layer_surface = false;
  buffers = zeroed ∷ zeroed ∷ [];
  indicator_buffers = zeroed ∷ zeroed ∷ [];
  frame_pending = false;
  dirty = false;
  requested = 0;
  callbacks = 0;
  width = 0;
  height = 0;
  indicator_width = 0;
  indicator_height = 0;
  scale = 0;
  subpixel = 0;
}

-- The surface gets its image and its layer surface, and is committed; the assertions hold. The region
-- that is set opaque is not part of the model.
unfoldable pub create_layer_surface : List Image → Surface → Surface
unfolding committed
create_layer_surface images o =
    committed (record o { image = select_image images o.output_name; layer_surface = true })

-- With a buffer the background is drawn into it, and the surface committed. Into it goes the picture of
-- `load_background_screenshot`, of which `loads` says whether it returns; it may exit or wait forever.
unfoldable pub show_background : Bool → Surface → List PoolBuffer × Option ℕ → Option Surface
unfolding committed
show_background loads o (pool, none) = some (record o { buffers = pool })
show_background true o (pool, some i) = some (committed (record o { buffers = pool }))
show_background false o (pool, some i) = none

unfoldable pub render_frame_background : Bool → Surface → Option Surface
unfolding show_background
render_frame_background loads o =
    let width = u32 (o.width * o.scale) in
    let height = u32 (o.height * o.scale) in
    if width == 0 || height == 0
    then some o
    else show_background loads o (get_next_buffer o.buffers width height)

-- The surface after `render_frame`, unless the program would crash.
unfoldable pub surface_after : Outcome → Option Surface
unfolding commits
surface_after (rendered f) = some (commits f.calls f.surface)
surface_after null_dereference = none
surface_after division_by_zero = none
surface_after out_of_fuel = none

unfoldable pub layer_surface_configure : Look → State → Bool → ℕ → ℕ → Surface → Option Surface
unfolding render_frame_background surface_after Option.bind
layer_surface_configure k s loads width height o =
    let sized = record o {
      width = width;
      height = height;
      indicator_width = 1;
      indicator_height = 1;
    } in
    Option.bind (render_frame_background loads sized) (λ o'. surface_after (render_frame k s 2 o'))

unfoldable pub handle_wl_output_geometry : State → ℕ → Surface → Surface
unfolding damage_surface
handle_wl_output_geometry s subpixel o =
    let o' = record o { subpixel = subpixel } in if s.run_display then damage_surface o' else o'

unfoldable pub handle_wl_output_scale : State → ℕ → Surface → Surface
unfolding damage_surface
handle_wl_output_scale s factor o =
    let o' = record o { scale = factor } in if s.run_display then damage_surface o' else o'

unfoldable pub handle_xdg_output_name : List ℕ → Surface → Surface
handle_xdg_output_name name o = record o { output_name = some name }

-- `wl_list_remove` of the first surface whose output has the name; this is also the loop of
-- `handle_global_remove`.
unfoldable pub destroy_surface : ℕ → List Surface → List Surface
destroy_surface name [] = []
destroy_surface name (o ∷ os) =
    let rest = destroy_surface name os in if o.output_global_name == name then os else o ∷ rest

unfoldable pub handle_global : List Image → ℕ → Interface → Globals × State → Globals × State
unfolding bind_global new_surface create_layer_surface
handle_global images name Interface.wl_output (g, s) =
    let o = new_surface name in
    (
      g,
      record s {
        surfaces = (if s.run_display then create_layer_surface images o else o) ∷ s.surfaces;
      },
    )
handle_global images name interface (g, s) = (bind_global interface g, s)

-- A listener is called with its surface, the one of the output's name.
unfoldable pub on_surface : (Surface → Option Surface) → ℕ → List Surface → Option (List Surface)
on_surface f name [] = some []
on_surface f name (o ∷ os) =
    let rest = on_surface f name os in
    if o.output_global_name == name
    then Option.map (λ o'. o' ∷ os) (f o)
    else Option.map (λ os'. o ∷ os') rest

pub data Event : Type 0 where
  global : ℕ → Interface → Event
  global_remove closed frame_done : ℕ → Event
  geometry scale : ℕ → ℕ → Event
  xdg_name : ℕ → List ℕ → Event
  configure : ℕ → ℕ → ℕ → Bool → Event

abbrev pub has_surface : ℕ → List Surface → Bool
has_surface name [] = false
has_surface name (o ∷ os) = o.output_global_name == name || has_surface name os

-- `destroy_surface` leaves the frame callback and the `xdg_output` with their listeners, whose data it
-- has freed: an event of theirs for a surface that is gone reads freed memory.
abbrev pub on_listener : (Surface → Option Surface) → ℕ → List Surface → Option (List Surface)
on_listener f name os = if has_surface name os then on_surface f name os else none

-- The compositor ends only a frame whose callback it owes.
abbrev pub frame_ends : Look → State → Surface → Option Surface
frame_ends k s o = if ltb 0 o.callbacks then surface_frame_handle_done k s o else some o

-- What an event does to the surfaces of a state. The last argument of `configure` says whether
-- `load_background_screenshot` returns; the events that it dispatches come before or after.
unfoldable pub surface_event : Look → List Image → State → Event → Option (List Surface)
unfolding on_surface handle_wl_output_geometry handle_wl_output_scale handle_xdg_output_name
    layer_surface_configure surface_frame_handle_done destroy_surface handle_global
surface_event k images s (global name interface) =
    some (handle_global images name interface (no_globals, s)).1.surfaces
surface_event k images s (global_remove name) = some (destroy_surface name s.surfaces)
surface_event k images s (closed name) = some (destroy_surface name s.surfaces)
surface_event k images s (frame_done name) = on_listener (frame_ends k s) name s.surfaces
surface_event k images s (geometry name subpixel) =
    on_surface (λ o. some (handle_wl_output_geometry s subpixel o)) name s.surfaces
surface_event k images s (scale name factor) =
    on_surface (λ o. some (handle_wl_output_scale s factor o)) name s.surfaces
surface_event k images s (xdg_name name text) =
    on_listener (λ o. some (handle_xdg_output_name text o)) name s.surfaces
surface_event k images s (configure name width height loads) =
    on_surface (layer_surface_configure k s loads width height) name s.surfaces

-- A sequence of events.
unfoldable pub surface_events : Look → List Image → List Event → State → Option State
unfolding surface_event Option.bind
surface_events k images [] s = some s
surface_events k images (e ∷ es) s =
    Option.bind (surface_event k images s e)
      (λ os. surface_events k images es (record s { surfaces = os }))
