-- ===== src/Surface/Done.antt =====
-- The end of a frame, `surface_frame_handle_done` (main.c).
use swaylock.Base.{
  ℕ, ◌+◌, ◌-◌, ◌<◌, ◌≡◌, refl, ap, ◌∙◌, ◌⊎◌, inl, inr, Bool, true, false, ◌&&◌, Option, none, some,
  List, [], ◌∷◌, ◌++◌, arith, if◌then◌else◌, Bool-cases, get_or,
}
use swaylock.State.{State, Surface}
use swaylock.Surface.{request_frame, committed, damage_surface}
use swaylock.Surface.Frames.{HasFrame}
use swaylock.PoolBuffer.{PoolBuffer, zeroed}
use swaylock.Render.{Look}
use swaylock.Render.Frame.{
  Call, commit_surface, Outcome, rendered, null_dereference, division_by_zero, out_of_fuel,
  render_frame,
}
use swaylock.Render.Ends.{OnScreen, shown_by, undrawn, scaled-Ends}
use swaylock.Surface.Keeps.{Keeps, render_frame-Keeps}

abbrev pub is_commit : Call → Bool
is_commit commit_surface = true
is_commit _ = false

-- What the calls of a frame do to the surface's frame callbacks.
unfoldable pub commits : List Call → Surface → Surface
unfolding committed
commits [] o = o
commits (c ∷ cs) o = commits cs (if is_commit c then committed o else o)

-- `render_frame` makes two rounds at most; no surface comes out where the program would crash.
unfoldable pub after_frame : Outcome → Option Surface
unfolding commits
after_frame (rendered f) = some (record (commits f.calls f.surface) { dirty = false })
after_frame null_dereference = none
after_frame division_by_zero = none
after_frame out_of_fuel = none

unfoldable pub surface_frame_handle_done : Look → State → Surface → Option Surface
unfolding request_frame after_frame
surface_frame_handle_done k s o =
    let ended = record o { callbacks = o.callbacks - 1; frame_pending = false } in
    if ended.dirty then after_frame (render_frame k s 2 (request_frame ended)) else some ended

-- The surface that a dirty one is drawn from: its callback has come, and the next is asked for.
abbrev pub asked_for : Surface → Surface
asked_for o = request_frame (record o { callbacks = o.callbacks - 1; frame_pending = false })

-- Before a commit the callbacks that are asked for wait; after it the compositor owes them.
pub commits-total :
    (cs : List Call) (o : Surface)
    → (commits cs o).callbacks + (commits cs o).requested ≡ o.callbacks + o.requested
unfolding commits
commits-total [] o = refl
commits-total (c ∷ cs) o =
    commits-total cs (if is_commit c then committed o else o) ∙ step (is_commit c)
  where
    step :
        (b : Bool)
        → (if b then committed o else o).callbacks + (if b then committed o else o).requested
          ≡ o.callbacks + o.requested
    step true = omega arith
    step false = refl

commits-shown :
    (cs : List Call) (i : ℕ) (b : PoolBuffer) (shown o : Surface)
    → (commits (cs ++ shown_by shown i b) o).requested ≡ 0
unfolding commits
commits-shown [] i b shown o = refl
commits-shown (c ∷ cs) i b shown o =
    commits-shown cs i b shown (if is_commit c then committed o else o)

commits-pending : (cs : List Call) (o : Surface) → (commits cs o).frame_pending ≡ o.frame_pending
unfolding commits
commits-pending [] o = refl
commits-pending (c ∷ cs) o =
    commits-pending cs (if is_commit c then committed o else o) ∙ step (is_commit c)
  where
    step : (b : Bool) → (if b then committed o else o).frame_pending ≡ o.frame_pending
    step true = refl
    step false = refl

-- A frame that gets on the screen has its callback committed.
OnScreen-HasFrame :
    (k : Look) (s : State) (o : Surface) (r : Outcome)
    → o.callbacks + o.requested ≡ 1
    → o.frame_pending ≡ true
    → OnScreen k s r
    → Keeps o r
    → (o' : Surface) × (after_frame r ≡ some o')
      × (o'.dirty ≡ false)
      × HasFrame o'
      × (o'.frame_pending ≡ true)
unfolding after_frame
OnScreen-HasFrame k s o (rendered f) one pending shown kept =
    let o' = record (commits f.calls f.surface) { dirty = false } in
    let before = shown.5.0 in
    let known : o'.requested ≡ 0 =
      ap (λ cs. (commits cs f.surface).requested) shown.5.1
      ∙ commits-shown before shown.0 (get_or f.surface.indicator_buffers shown.0 zeroed) f.surface
          f.surface in
    let awaited : o'.frame_pending ≡ true =
      commits-pending f.calls f.surface
      ∙ (ap (λ (z : Surface). z.frame_pending) kept.0 ∙ pending) in
    let total = commits-total f.calls f.surface in
    let same = ap (λ (z : Surface). z.callbacks + z.requested) kept.0 in
    let owed : o'.callbacks ≡ 1 = omega arith in
    (
      o',
      refl,
      refl,
      record { known = known; one = rw awaited owed; awaited = λ h. awaited },
      awaited,
    )
OnScreen-HasFrame k s o null_dereference one pending shown kept = absurd shown
OnScreen-HasFrame k s o division_by_zero one pending shown kept = absurd shown
OnScreen-HasFrame k s o out_of_fuel one pending shown kept = absurd shown

-- When the callback of a frame arrives for a surface whose scale is not 0, the surface is dirty no longer.
-- One that was not dirty waits for no callback. For a dirty one with a free buffer, `render_frame` puts
-- the frame on the screen, and the compositor knows of the next callback. For a dirty one with both
-- buffers busy, `render_frame` only moves the subsurface: nothing is drawn, the callback is asked for but
-- not committed, and damage to the surface does not commit it either.
pub surface_frame_handle_done_lem :
    (k : Look) (s : State) (o : Surface) (a b : PoolBuffer)
    → HasFrame o
    → o.frame_pending ≡ true
    → o.indicator_buffers ≡ a ∷ b ∷ []
    → 0 < o.scale
    → (o' : Surface) × (surface_frame_handle_done k s o ≡ some o')
      × (o'.dirty ≡ false)
      × (((o.dirty ≡ false) × HasFrame o' × (o'.frame_pending ≡ false))
          ⊎ ((o.dirty ≡ true)
              × ((a.busy && b.busy) ≡ false)
              × OnScreen k s (render_frame k s 2 (asked_for o))
              × HasFrame o'
              × (o'.frame_pending ≡ true))
          ⊎ ((o.dirty ≡ true)
              × ((a.busy && b.busy) ≡ true)
              × (render_frame k s 2 (asked_for o) ≡ undrawn k s (asked_for o))
              × (o'.requested ≡ 1)
              × ((damage_surface o').callbacks ≡ 0)))
unfolding surface_frame_handle_done after_frame damage_surface request_frame commits
surface_frame_handle_done_lem k s o a b frame pending pool scaled =
    let one = frame.one in
    let known = frame.known in
    let owed : o.callbacks ≡ 1 = one ∙ rw pending refl in
    let gone : o.callbacks - 1 ≡ 0 = omega arith in
    let ended = record o { callbacks = o.callbacks - 1; frame_pending = false } in
    let asked = request_frame ended in
    let draws : o.dirty ≡ true
        → surface_frame_handle_done k s o ≡ after_frame (render_frame k s 2 asked) =
      λ e. ap (λ t. if t then after_frame (render_frame k s 2 asked) else some ended) e in
    elim (Bool-cases o.dirty) [
      | inr e ↦ (
        ended,
        rw e refl,
        e,
        inl (e, record { known = known; one = gone; awaited = λ h. cc }, refl),
      )
      | inl e ↦ elim (scaled-Ends k s asked 0 a b scaled pool) [
        | inl (busy, none_drawn) ↦ (
          record asked { dirty = false },
          draws e ∙ ap after_frame none_drawn,
          refl,
          inr (inr (e, busy, none_drawn, omega arith, gone)),
        )
        | inr (free, shown) ↦
            let found =
              OnScreen-HasFrame k s asked (render_frame k s 2 asked) (omega arith) refl shown
                (render_frame-Keeps k s 2 asked) in
            (found.0, draws e ∙ found.1, found.2, inr (inl (e, free, shown, found.3, found.4)))
      ]
    ]
