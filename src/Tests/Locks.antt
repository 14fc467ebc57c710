-- ===== src/Tests/Locks.antt =====
-- Examples for the lock.
use swaylock.Base.{◌≡◌, refl, ◌≢◌, true, false, some, [], ◌∷◌, arith}
use swaylock.Loop.{use_after_free, has_expired}
use swaylock.State.{AuthState}
use swaylock.Lock.{swaylock_handle_key, poll_timers, action_of, other}
use swaylock.Lock.Late.{IsLate, poll_timers-IsLate}
use swaylock.Lock.Text.{Does, swaylock_handle_key-Does}
use swaylock.Lock.Run.{key, modifiers, outputs, answer, tick, run, Runs}
use swaylock.Comm.{read_comm_reply}
use swaylock.Lock.Run.Ends.{run-Runs}
use swaylock.Tests.{
  env, noon, later, locked, locked-IsSound, shown, typing, typing-IsSound, empty-IsValid,
  clear_timer, password_timer,
}

not-IsLate : ¬ IsLate later shown
not-IsLate (t, u, e, c, x) = cc

late : IsLate later typing
unfolding has_expired
late = (password_timer, clear_timer, refl, refl, refl)

poll_timers-IsLate_example : poll_timers env later typing ≡ use_after_free
poll_timers-IsLate_example = poll_timers-IsLate env later typing typing-IsSound late

swaylock_handle_key-Does_example :
    let s' = swaylock_handle_key env locked other 0xe9 in
    (AuthState.idle ≡ AuthState.validating → s' ≡ locked)
    × (AuthState.idle ≢ AuthState.validating
        → Does env locked (action_of other locked.xkb.control) 0xe9 s')
swaylock_handle_key-Does_example =
    swaylock_handle_key-Does env locked other 0xe9 (omega arith) empty-IsValid

run-Runs_example :
    Runs locked
      (key env other 0xe9
        ∷ modifiers (record { layout_same = false; caps_lock = true; control = true })
        ∷ outputs []
        ∷ tick env noon
        ∷ answer env (some (0 ∷ []))
        ∷ answer env (some (1 ∷ []))
        ∷ [])
      (run locked (
        key env other 0xe9
        ∷ modifiers (record { layout_same = false; caps_lock = true; control = true })
        ∷ outputs []
        ∷ tick env noon
        ∷ answer env (some (0 ∷ []))
        ∷ answer env (some (1 ∷ []))
        ∷ []))
unfolding read_comm_reply
run-Runs_example =
    run-Runs locked
      (key env other 0xe9
        ∷ modifiers (record { layout_same = false; caps_lock = true; control = true })
        ∷ outputs []
        ∷ tick env noon
        ∷ answer env (some (0 ∷ []))
        ∷ answer env (some (1 ∷ []))
        ∷ [])
      locked-IsSound (omega arith, (tt, (tt, (tt, (tt, (tt, tt)))))) (omega arith)
