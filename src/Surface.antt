-- ===== src/Surface.antt =====
-- Damage to a surface (main.c): it is marked dirty and a frame callback is asked for, if none is on
-- its way.
pub mod Frames
pub mod Keeps
pub mod Done
pub mod Outputs
pub mod StartUp
use swaylock.Base.{◌+◌, true, List, [], ◌∷◌, if◌then◌else◌}
use swaylock.State.{Surface, State}

-- `wl_surface_frame` and `wl_callback_add_listener`: a callback is asked for.
unfoldable pub request_frame : Surface → Surface
request_frame s = record s { requested = s.requested + 1; frame_pending = true }

-- `wl_surface_commit`: the compositor learns of what was asked for.
unfoldable pub committed : Surface → Surface
committed s = record s { callbacks = s.callbacks + s.requested; requested = 0 }

unfoldable pub damage_surface : Surface → Surface
unfolding request_frame committed
damage_surface s =
    let d = record s { dirty = true } in if s.frame_pending then d else committed (request_frame d)

unfoldable pub damage_surfaces : List Surface → List Surface
unfolding damage_surface
damage_surfaces [] = []
damage_surfaces (s ∷ ss) = damage_surface s ∷ damage_surfaces ss

unfoldable pub damage_state : State → State
unfolding damage_surfaces
damage_state s = record s { surfaces = damage_surfaces s.surfaces }
