-- ===== src/Lock/Main/Leaves.antt =====
-- When the main loop is left.
use swaylock.Base.{◌≡◌, true, List}
use swaylock.Loop.{done}
use swaylock.State.{State}
use swaylock.Lock.Invariant.{IsSound}
use swaylock.Lock.Run.{Event, run, ReachesLate}
use swaylock.Lock.Main.{Turn, Main, waits, leaves, crashes, stuck}
use swaylock.Lock.Main.Turns.{any_reason}

-- How the main loop stands after turns from a state, for the events that happened in them.
abbrev pub Stands : List Turn → State → List Event → Main → Type 0
Stands ts s es (waits s') = (run s es ≡ done s') × IsSound s' × (s'.run_display ≡ true)
Stands ts s es (leaves s') = (run s es ≡ done s') × IsSound s' × (any_reason ts ≡ true)
Stands ts s es crashes = ReachesLate s es
Stands ts s es stuck = ⊥
