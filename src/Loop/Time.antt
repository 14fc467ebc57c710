-- ===== src/Loop/Time.antt =====
-- The clock arithmetic of `loop_add_timer` and of the test for an expired timer, in nanoseconds.
use swaylock.Base.{ℕ, ◌+◌, ◌*◌, ◌<◌, ◌≡◌, ◌↔◌, true, arith}
use swaylock.Loop.{Timespec, expiry_after, has_expired}

abbrev pub IsNormal : Timespec → Type 0
IsNormal t = t.tv_nsec < 1000000000

abbrev pub nanoseconds : Timespec → ℕ
nanoseconds t = t.tv_sec * 1000000000 + t.tv_nsec

expiry_after_lem :
    (now : Timespec) (ms : ℕ)
    → IsNormal now
    → IsNormal (expiry_after now ms)
      × (nanoseconds (expiry_after now ms) ≡ nanoseconds now + ms * 1000000)
unfolding expiry_after
expiry_after_lem now ms h = ground arith

has_expired_iff :
    (expiry now : Timespec)
    → IsNormal expiry
    → IsNormal now
    → (has_expired expiry now ≡ true) ↔ (nanoseconds expiry < nanoseconds now)
unfolding has_expired
has_expired_iff expiry now h k = (λ e. ground arith, λ e. ground arith)

-- A timer of `ms` milliseconds that is started at a normal time gets a normal expiry, and at any normal
-- time the test of `loop_poll` finds it expired exactly if more than `ms` milliseconds have passed,
-- to the nanosecond.
has_expired-expiry_after :
    (start now : Timespec) (ms : ℕ)
    → IsNormal start
    → IsNormal now
    → IsNormal (expiry_after start ms)
      × ((has_expired (expiry_after start ms) now ≡ true)
          ↔ (nanoseconds start + ms * 1000000 < nanoseconds now))
has_expired-expiry_after start now ms h k =
    let (normal, e) = expiry_after_lem start ms h in
    let (there, back) = has_expired_iff (expiry_after start ms) now normal k in
    (normal, ((λ x. omega (arith, there x, e)), (λ x. back (omega (arith, e)))))
