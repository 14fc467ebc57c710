-- ===== src/Surface/Frames.antt =====
-- Dirty surfaces and their frame callbacks (main.c, `damage_surface`).
use swaylock.Base.{◌≡◌, true, arith, if◌then◌else◌}
use swaylock.State.{Surface}
use swaylock.Surface.{damage_surface}

-- `frame_pending` says whether the one callback is on its way, and the compositor knows of it; a dirty
-- surface waits for it.
pub record HasFrame (s : Surface) : Type 0 where
  pub known : s.requested ≡ 0
  pub one : s.callbacks ≡ (if s.frame_pending then 1 else 0)
  pub awaited : s.dirty ≡ true → s.frame_pending ≡ true

-- `damage_surface` keeps at most one callback on its way, and leaves the surface dirty with a
-- callback that will draw it.
pub damage_surface-HasFrame :
    (s : Surface)
    → HasFrame s
    → HasFrame (damage_surface s)
      × ((damage_surface s).dirty ≡ true)
      × ((damage_surface s).callbacks ≡ 1)
unfolding damage_surface
damage_surface-HasFrame s h = ground arith
