-- ===== src/Render/Ends.antt =====
-- How a call of `render_frame` ends.
use swaylock.Base.{
  ℕ, suc, ◌<◌, ◌≡◌, refl, sym, ap₂, subst, ◌⊎◌, inl, inr, Bool, true, false, not, ◌&&◌, none, some,
  List, [], ◌∷◌, ◌++◌, arith, ◌==◌, if◌then◌else◌, ==_iff, ==_refl, Bool-cases, get_or,
}
use swaylock.State.{State, Surface}
use swaylock.PoolBuffer.{PoolBuffer, zeroed, prepare, get_next_buffer, destroy_buffer}
use swaylock.PoolBuffer.Next.{
  get_next_buffer-none, get_next_buffer-first, get_next_buffer-last, prepare-sized,
}
use swaylock.Render.{Look}
use swaylock.Render.Frame.{
  Call, set_position, commit_surface, set_scale, attach, damage, hide_child, clear_all,
  indicator_calls, commit_child, Frame, Outcome, rendered, null_dereference, division_by_zero,
  out_of_fuel, position_x, position_y, is_shown, has_size, resize, show_frame, show_again,
  draw_frame, render_frame, new_width, new_height,
}

-- The last calls for a frame in a buffer.
abbrev pub shown_by : Surface → ℕ → PoolBuffer → List Call
shown_by o i b =
    set_scale o.scale ∷ attach i ∷ damage b.width b.height ∷ commit_child ∷ commit_surface ∷ []

-- The frame is on its way to the screen: the buffer is attached at the surface's scale, all of it is
-- damaged, and the surface is committed last of all; the buffer has the size that the surface keeps for
-- the indicator, and that is the size of what is drawn, if anything is.
abbrev pub OnScreen : Look → State → Outcome → Type 0
OnScreen k s (rendered f) =
    (i : ℕ) × (f.current_buffer ≡ some i)
    × ((get_or f.surface.indicator_buffers i zeroed).width ≡ f.surface.indicator_width)
    × ((get_or f.surface.indicator_buffers i zeroed).height ≡ f.surface.indicator_height)
    × ((is_shown s && not (has_size k s f.surface)) ≡ false)
    × ((before : List Call) × (f.calls
          ≡ before ++ shown_by f.surface i (get_or f.surface.indicator_buffers i zeroed)))
OnScreen k s null_dereference = ⊥
OnScreen k s division_by_zero = ⊥
OnScreen k s out_of_fuel = ⊥

module _ (k : Look) (s : State) where
  show_frame-OnScreen :
      (before : List Call) (f : Frame) (i : ℕ)
      → f.current_buffer ≡ some i
      → (get_or f.surface.indicator_buffers i zeroed).width ≡ f.surface.indicator_width
      → (get_or f.surface.indicator_buffers i zeroed).height ≡ f.surface.indicator_height
      → (is_shown s && not (has_size k s f.surface)) ≡ false
      → OnScreen k s (show_frame before f)
  unfolding show_frame
  show_frame-OnScreen before f i e w h c = rw e (i, refl, w, h, c, (before ++ f.calls, refl))

  show_again-OnScreen :
      (before : List Call) (o : Outcome) → OnScreen k s o → OnScreen k s (show_again before o)
  unfolding show_again
  show_again-OnScreen before (rendered f) h = show_frame-OnScreen before f h.0 h.1 h.2 h.3 h.4
  show_again-OnScreen before null_dereference h = absurd h
  show_again-OnScreen before division_by_zero h = absurd h
  show_again-OnScreen before out_of_fuel h = absurd h

  resize-has_size : (o : Surface) (i : ℕ) → has_size k s (resize k s o i) ≡ true
  unfolding has_size resize new_width new_height
  resize-has_size o i = ap₂ ◌&&◌ (==_refl (new_width k s o)) (==_refl (new_height k s o))

  -- The pool `a`, `b` in place of the surface's.
  abbrev with_pool : Surface → List PoolBuffer → Surface
  with_pool o pool = record o { indicator_buffers = pool }

  abbrev pub drawn : Surface → List Call
  drawn o =
      let begun =
        set_position (position_x s o) (position_y s o)
        ∷ hide_child
        ∷ commit_child
        ∷ clear_all
        ∷ [] in
      if is_shown s then begun ++ indicator_calls k s else begun

  drawn-OnScreen :
      (o : Surface) (i : ℕ) (again : Surface → Outcome)
      → (get_or o.indicator_buffers i zeroed).width ≡ o.indicator_width
      → (get_or o.indicator_buffers i zeroed).height ≡ o.indicator_height
      → ((is_shown s && not (has_size k s o)) ≡ true → OnScreen k s (again (resize k s o i)))
      → OnScreen k s (draw_frame k s again o (some i))
  unfolding draw_frame
  drawn-OnScreen o i again w h later = elim (Bool-cases (is_shown s && not (has_size k s o))) [
    | inl e ↦ rw e (show_again-OnScreen (drawn o) (again (resize k s o i)) (later e))
    | inr e ↦ rw e (
        show_frame-OnScreen (drawn o) (record { surface = o; current_buffer = some i; calls = [] })
          i refl w h e)
  ]

  not_zero : (n : ℕ) → 0 < n → (n == 0) ≡ false
  not_zero n h = ground arith

  -- A call that gets the buffer `i`.
  chosen-OnScreen :
      (o : Surface) (fuel : ℕ) (pool pool' : List PoolBuffer) (i : ℕ)
      → 0 < o.scale
      → get_next_buffer pool o.indicator_width o.indicator_height ≡ (pool', some i)
      → (get_or pool' i zeroed).width ≡ o.indicator_width
      → (get_or pool' i zeroed).height ≡ o.indicator_height
      → ((is_shown s && not (has_size k s (with_pool o pool'))) ≡ true
          → OnScreen k s (render_frame k s fuel (resize k s (with_pool o pool') i)))
      → OnScreen k s (render_frame k s (suc fuel) (with_pool o pool))
  unfolding render_frame
  chosen-OnScreen o fuel pool pool' i some_scale e w h later =
      rw (not_zero o.scale some_scale, e)
        (drawn-OnScreen (with_pool o pool') i (λ o'. render_frame k s fuel o') w h later)

  -- One that finds the size right needs no second round.
  no_second : (shown sized : Bool) → sized ≡ true → (shown && not sized) ≡ true → ⊥
  no_second shown sized e h = ground arith

  free-OnScreen :
      (o : Surface) (fuel : ℕ) (a b : PoolBuffer)
      → 0 < o.scale
      → (a.busy && b.busy) ≡ false
      → ((pool' : List PoolBuffer) (i : ℕ)
          → (i ≡ 0)
              × (pool' ≡ prepare a o.indicator_width o.indicator_height ∷ b ∷ [])
              × (b.busy ≡ true)
            ⊎ (i ≡ 1) × (pool' ≡ a ∷ prepare b o.indicator_width o.indicator_height ∷ [])
          → (is_shown s && not (has_size k s (with_pool o pool'))) ≡ true
          → OnScreen k s (render_frame k s fuel (resize k s (with_pool o pool') i)))
      → OnScreen k s (render_frame k s (suc fuel) (with_pool o (a ∷ b ∷ [])))
  free-OnScreen o fuel a b some_scale free later =
      let width = o.indicator_width in
      let height = o.indicator_height in
      elim (Bool-cases b.busy) [
        | inl e ↦
            let sized = prepare-sized a width height in
            let pool' = prepare a width height ∷ b ∷ [] in
            chosen-OnScreen o fuel (a ∷ b ∷ []) pool' 0 some_scale
              (get_next_buffer-first a b width height (ground arith) e) sized.0 sized.1
              (later pool' 0 (inl (refl, refl, e)))
        | inr e ↦
            let sized = prepare-sized b width height in
            let pool' = a ∷ prepare b width height ∷ [] in
            chosen-OnScreen o fuel (a ∷ b ∷ []) pool' 1 some_scale
              (get_next_buffer-last a b width height e) sized.0 sized.1
              (later pool' 1 (inr (refl, refl)))
      ]

  once-OnScreen :
      (o : Surface) (fuel : ℕ) (a b : PoolBuffer)
      → 0 < o.scale
      → (a.busy && b.busy) ≡ false
      → has_size k s o ≡ true
      → OnScreen k s (render_frame k s (suc fuel) (with_pool o (a ∷ b ∷ [])))
  unfolding has_size new_width new_height
  once-OnScreen o fuel a b some_scale free right =
      free-OnScreen o fuel a b some_scale free
        (λ pool' i choice wrong. absurd (no_second (is_shown s) (has_size k s o) right wrong))

  twice-OnScreen :
      (o : Surface) (fuel : ℕ) (a b : PoolBuffer)
      → 0 < o.scale
      → (a.busy && b.busy) ≡ false
      → OnScreen k s (render_frame k s (suc (suc fuel)) (with_pool o (a ∷ b ∷ [])))
  unfolding resize destroy_buffer
  twice-OnScreen o fuel a b some_scale free = free-OnScreen o (suc fuel) a b some_scale free second
    where
      second :
          (pool' : List PoolBuffer) (i : ℕ)
          → (i ≡ 0)
              × (pool' ≡ prepare a o.indicator_width o.indicator_height ∷ b ∷ [])
              × (b.busy ≡ true)
            ⊎ (i ≡ 1) × (pool' ≡ a ∷ prepare b o.indicator_width o.indicator_height ∷ [])
          → (is_shown s && not (has_size k s (with_pool o pool'))) ≡ true
          → OnScreen k s (render_frame k s (suc fuel) (resize k s (with_pool o pool') i))
      second pool' i (inl (e, q, t)) wrong =
          let o' = with_pool o (prepare a o.indicator_width o.indicator_height ∷ b ∷ []) in
          subst (λ z. OnScreen k s (render_frame k s (suc fuel) (resize k s (with_pool o z) i)))
            (sym q)
            (subst (λ j. OnScreen k s (render_frame k s (suc fuel) (resize k s o' j))) (sym e)
              (once-OnScreen (resize k s o' 0) fuel zeroed b some_scale refl
                (resize-has_size o' 0)))
      second pool' i (inr (e, q)) wrong =
          let o' = with_pool o (a ∷ prepare b o.indicator_width o.indicator_height ∷ []) in
          subst (λ z. OnScreen k s (render_frame k s (suc fuel) (resize k s (with_pool o z) i)))
            (sym q)
            (subst (λ j. OnScreen k s (render_frame k s (suc fuel) (resize k s o' j))) (sym e)
              (once-OnScreen (resize k s o' 1) fuel a zeroed some_scale (ground arith)
                (resize-has_size o' 1)))

  -- What is left of a frame without a buffer.
  abbrev pub undrawn : Surface → Outcome
  undrawn o = rendered (record {
    surface = o;
    current_buffer = none;
    calls = set_position (position_x s o) (position_y s o) ∷ [];
  })

  busy-undrawn :
      (o : Surface) (fuel : ℕ) (a b : PoolBuffer)
      → 0 < o.scale
      → (a.busy && b.busy) ≡ true
      → render_frame k s (suc fuel) (with_pool o (a ∷ b ∷ [])) ≡ undrawn (with_pool o (a ∷ b ∷ []))
  unfolding render_frame draw_frame
  busy-undrawn o fuel a b some_scale e =
      rw
        (
          not_zero o.scale some_scale,
          get_next_buffer-none a b o.indicator_width o.indicator_height (ground arith)
              (ground arith),
        )
        refl

pub scaled-Ends :
    (k : Look) (s : State) (o : Surface) (fuel : ℕ) (a b : PoolBuffer)
    → 0 < o.scale
    → o.indicator_buffers ≡ a ∷ b ∷ []
    → ((a.busy && b.busy) ≡ true) × (render_frame k s (suc (suc fuel)) o ≡ undrawn k s o)
      ⊎ ((a.busy && b.busy) ≡ false) × OnScreen k s (render_frame k s (suc (suc fuel)) o)
scaled-Ends k s o fuel a b some_scale pool = elim (Bool-cases (a.busy && b.busy)) [
  | inl e ↦ inl (
    e,
    subst
        (λ p.
          render_frame k s (suc (suc fuel)) (with_pool k s o p) ≡ undrawn k s (with_pool k s o p))
        (sym pool) (busy-undrawn k s o (suc fuel) a b some_scale e),
  )
  | inr e ↦ inr (
    e,
    subst (λ p. OnScreen k s (render_frame k s (suc (suc fuel)) (with_pool k s o p))) (sym pool)
        (twice-OnScreen k s o fuel a b some_scale e),
  )
]

-- Where the scale of the surface is 0, `render_frame` divides by zero. Otherwise, where both buffers of
-- the indicator are busy, it moves the subsurface and returns: it draws and commits nothing. With a free
-- buffer it needs two rounds at most, never draws without a buffer, and ends with a buffer attached,
-- damaged and committed that has the size of what is drawn.
pub render_frame_lem :
    (k : Look) (s : State) (o : Surface) (fuel : ℕ) (a b : PoolBuffer)
    → o.indicator_buffers ≡ a ∷ b ∷ []
    → (o.scale ≡ 0) × (render_frame k s (suc (suc fuel)) o ≡ division_by_zero)
      ⊎ (0 < o.scale)
        × (((a.busy && b.busy) ≡ true) × (render_frame k s (suc (suc fuel)) o ≡ undrawn k s o)
            ⊎ ((a.busy && b.busy) ≡ false) × OnScreen k s (render_frame k s (suc (suc fuel)) o))
unfolding render_frame
render_frame_lem k s o fuel a b pool = elim (Bool-cases (o.scale == 0)) [
  | inl e ↦ inl ((==_iff o.scale 0).0 e, rw e refl)
  | inr e ↦
      let some_scale : 0 < o.scale = ground arith in
      inr (some_scale, scaled-Ends k s o fuel a b some_scale pool)
]
