-- ===== src/Surface/Outputs/Sound.antt =====
-- What a surface keeps when it is configured, damaged and drawn at a scale that is not 0.
use swaylock.Base.{
  ℕ, ◌+◌, ◌-◌, ◌*◌, ◌≤◌, ◌<◌, ◌≡◌, refl, sym, ap, ◌∙◌, subst, inl, inr, Bool, true, false, ◌||◌,
  Option, none, some, List, [], ◌∷◌, arith, ltb, ◌==◌, if◌then◌else◌, ltb→lt, Bool-cases, length,
  All,
}
use swaylock.Base.Words.{u32}
use mathlib.Core.Option
use swaylock.State.{State, Surface}
use swaylock.PoolBuffer.{PoolBuffer, get_next_buffer}
use swaylock.Surface.{committed, damage_surface, request_frame}
use swaylock.Surface.Keeps.{Keeps, render_frame-Keeps}
use swaylock.Surface.Done.{is_commit, commits, after_frame, surface_frame_handle_done}
use swaylock.Surface.Outputs.{
  surface_after, layer_surface_configure, render_frame_background, show_background, destroy_surface,
  frame_ends,
}
use swaylock.Render.{Look}
use swaylock.Render.Frame.{
  Call, set_position, position_x, position_y, Frame, Outcome, rendered, null_dereference,
  division_by_zero, out_of_fuel, render_frame,
}
use swaylock.Render.Ends.{OnScreen, scaled-Ends}

-- What holds of a surface: of the frame callback that `frame_pending` stands for, the compositor either
-- knows or is to learn with the next commit, and there is no other; a dirty surface waits for it; the
-- indicator has its two buffers; and while the display runs the surface covers its output.
pub record IsSound (running : Bool) (o : Surface) : Type 0 where
  pub one : o.callbacks + o.requested ≡ (if o.frame_pending then 1 else 0)
  pub awaited : o.dirty ≡ true → o.frame_pending ≡ true
  pub pair : length o.indicator_buffers ≡ 2
  pub covers : running ≡ true → o.layer_surface ≡ true

-- What a handler makes of a sound surface: it returns, with a sound one.
abbrev pub Stays : Bool → Option Surface → Type 0
Stays running r = (o' : Surface) × (r ≡ some o') × IsSound running o'

committed-IsSound :
    (running : Bool) (o : Surface) → IsSound running o → IsSound running (committed o)
unfolding committed
committed-IsSound running o v =
    let one = v.one in
    record { one = omega arith; awaited = v.awaited; pair = v.pair; covers = v.covers }

commits-IsSound :
    (running : Bool) (cs : List Call) (o : Surface)
    → IsSound running o
    → IsSound running (commits cs o)
unfolding commits
commits-IsSound running [] o v = v
commits-IsSound running (c ∷ cs) o v =
    commits-IsSound running cs (if is_commit c then committed o else o) (step (is_commit c))
  where
    step : (b : Bool) → IsSound running (if b then committed o else o)
    step true = committed-IsSound running o v
    step false = v

damage_surface-IsSound :
    (running : Bool) (o : Surface) → IsSound running o → IsSound running (damage_surface o)
unfolding damage_surface
damage_surface-IsSound running o v =
    let one = v.one in
    elim (Bool-cases o.frame_pending) [
      | inl e ↦
          rw e
            (record { one = ground arith; awaited = λ h. refl; pair = v.pair; covers = v.covers })
      | inr e ↦
          rw e
            (record { one = ground arith; awaited = λ h. refl; pair = v.pair; covers = v.covers })
    ]

pair_of :
    (pool : List PoolBuffer)
    → length pool ≡ 2
    → (a : PoolBuffer) × (b : PoolBuffer) × (pool ≡ a ∷ b ∷ [])
pair_of [] e = absurd (omega (arith, e))
pair_of (a ∷ []) e = absurd (omega (arith, e))
pair_of (a ∷ b ∷ []) e = (a, b, refl)
pair_of (a ∷ b ∷ c ∷ pool) e = absurd (omega (arith, e))

-- `render_frame` returns.
returns :
    (k : Look) (s : State) (o : Surface)
    → 0 < o.scale
    → length o.indicator_buffers ≡ 2
    → (f : Frame) × (render_frame k s 2 o ≡ rendered f)
returns k s o scaled e =
    let found = pair_of o.indicator_buffers e in
    elim (scaled-Ends k s o 0 found.0 found.1 scaled found.2) [
      | inl (busy, none_drawn) ↦ (
        record {
          surface = o;
          current_buffer = none;
          calls = set_position (position_x s o) (position_y s o) ∷ [];
        },
        none_drawn,
      )
      | inr (free, shown) ↦ outcome (render_frame k s 2 o) shown
    ]
  where
    outcome : (r : Outcome) → OnScreen k s r → (f : Frame) × (r ≡ rendered f)
    outcome (rendered f) h = (f, refl)
    outcome null_dereference h = absurd h
    outcome division_by_zero h = absurd h
    outcome out_of_fuel h = absurd h

kept-IsSound :
    (running : Bool) (o : Surface) (f : Frame)
    → IsSound running o
    → Keeps o (rendered f)
    → IsSound running f.surface
kept-IsSound running o f v kept =
    subst (IsSound running) (sym kept.0)
      (record { one = v.one; awaited = v.awaited; pair = kept.1 ∙ v.pair; covers = v.covers })

-- A frame of a sound surface leaves it sound.
framed :
    (running : Bool) (k : Look) (s : State) (o : Surface)
    → 0 < o.scale
    → IsSound running o
    → (f : Frame) × (render_frame k s 2 o ≡ rendered f)
      × IsSound running (commits f.calls f.surface)
framed running k s o scaled v =
    let found = returns k s o scaled v.pair in
    (
      found.0,
      found.1,
      commits-IsSound running found.0.calls found.0.surface
          (kept-IsSound running o found.0 v (subst (Keeps o) found.1 (render_frame-Keeps k s 2 o))),
    )

-- The background of a surface whose screenshot is loaded.
background-Stays :
    (running : Bool) (o : Surface)
    → IsSound running o
    → (o' : Surface) × (render_frame_background true o ≡ some o')
      × IsSound running o'
      × (o'.scale ≡ o.scale)
unfolding render_frame_background show_background committed
background-Stays running o v =
    let width = u32 (o.width * o.scale) in
    let height = u32 (o.height * o.scale) in
    drawn (width == 0 || height == 0) (get_next_buffer o.buffers width height)
  where
    with_buffers : (pool : List PoolBuffer) → IsSound running (record o { buffers = pool })
    with_buffers pool = record {
      one = v.one;
      awaited = v.awaited;
      pair = v.pair;
      covers = v.covers;
    }

    shown :
        (c : List PoolBuffer × Option ℕ)
        → (o' : Surface) × (show_background true o c ≡ some o')
          × IsSound running o'
          × (o'.scale ≡ o.scale)
    shown (pool, none) = (record o { buffers = pool }, refl, with_buffers pool, refl)
    shown (pool, some i) = (
      committed (record o { buffers = pool }),
      refl,
      committed-IsSound running (record o { buffers = pool }) (with_buffers pool),
      refl,
    )

    drawn :
        (b : Bool) (c : List PoolBuffer × Option ℕ)
        → (o' : Surface) × ((if b then some o else show_background true o c) ≡ some o')
          × IsSound running o'
          × (o'.scale ≡ o.scale)
    drawn true c = (o, refl, v, refl)
    drawn false c = shown c

-- A configure of a surface at a scale that is not 0, whose screenshot is loaded.
configure-Stays :
    (running : Bool) (k : Look) (s : State) (width height : ℕ) (o : Surface)
    → 0 < o.scale
    → IsSound running o
    → Stays running (layer_surface_configure k s true width height o)
unfolding layer_surface_configure surface_after Option.bind
configure-Stays running k s width height o scaled v =
    let sized = record o {
      width = width;
      height = height;
      indicator_width = 1;
      indicator_height = 1;
    } in
    let (o', r, v', same) =
      background-Stays running sized
        (record { one = v.one; awaited = v.awaited; pair = v.pair; covers = v.covers }) in
    let found = framed running k s o' (omega (arith, same, scaled)) v' in
    (commits found.0.calls found.0.surface, rw (r, found.1) refl, found.2)

-- The end of a frame of a surface at a scale that is not 0.
done-Stays :
    (running : Bool) (k : Look) (s : State) (o : Surface)
    → 0 < o.scale
    → IsSound running o
    → Stays running (frame_ends k s o)
unfolding surface_frame_handle_done after_frame request_frame
done-Stays running k s o scaled v =
    let one = v.one in
    let ended = record o { callbacks = o.callbacks - 1; frame_pending = false } in
    let asked = request_frame ended in
    let ends : ltb 0 o.callbacks ≡ true → frame_ends k s o ≡ surface_frame_handle_done k s o =
      λ e. ap (λ t. if t then surface_frame_handle_done k s o else some o) e in
    let draws : (b : Bool)
        → o.dirty ≡ b
        → surface_frame_handle_done k s o
          ≡ (if b then after_frame (render_frame k s 2 asked) else some ended) =
      λ b d. ap (λ t. if t then after_frame (render_frame k s 2 asked) else some ended) d in
    elim (Bool-cases (ltb 0 o.callbacks)) [
      | inr e ↦ (o, ap (λ t. if t then surface_frame_handle_done k s o else some o) e, v)
      | inl e ↦
          let owed = ltb→lt 0 o.callbacks e in
          let few : o.callbacks + o.requested ≤ 1 = ground arith in
          elim (Bool-cases o.dirty) [
            | inl d ↦
                let (f, drawn, w) = framed running k s asked scaled (record {
                  one = omega arith;
                  awaited = λ h. refl;
                  pair = v.pair;
                  covers = v.covers;
                }) in
                (
                  record (commits f.calls f.surface) { dirty = false },
                  ends e ∙ (draws true d ∙ ap after_frame drawn),
                  record { one = w.one; awaited = λ h. cc; pair = w.pair; covers = w.covers },
                )
            | inr d ↦ (
              ended,
              ends e ∙ draws false d,
              record { one = omega arith; awaited = λ h. cc; pair = v.pair; covers = v.covers },
            )
          ]
    ]

destroy_surface-All :
    (running : Bool) (name : ℕ) (os : List Surface)
    → All (IsSound running) os
    → All (IsSound running) (destroy_surface name os)
unfolding destroy_surface
destroy_surface-All running name [] all = tt
destroy_surface-All running name (o ∷ os) (v, all) =
    elim (Bool-cases (o.output_global_name == name)) [
      | inl e ↦ rw e all
      | inr e ↦ rw e (v, destroy_surface-All running name os all)
    ]
