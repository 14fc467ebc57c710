-- ===== src/Surface/Keeps.antt =====
-- `render_frame` changes of a surface only the buffers and the size of its indicator.
use swaylock.Base.{
  ℕ, zero, suc, ◌≡◌, refl, ◌∙◌, inl, inr, Bool, true, false, not, ◌&&◌, Option, none, some, List,
  [], ◌==◌, if◌then◌else◌, Bool-cases, length, get_or, length-set,
}
use swaylock.State.{State, Surface}
use swaylock.PoolBuffer.{PoolBuffer, zeroed, get_next_buffer, destroy_buffer}
use swaylock.PoolBuffer.Next.{length-get_next_buffer}
use swaylock.Render.{Look}
use swaylock.Render.Frame.{
  Call, Frame, Outcome, rendered, null_dereference, division_by_zero, out_of_fuel, render_frame,
  draw_frame, show_frame, show_again, resize, is_shown, has_size,
}
use swaylock.Render.Ends.{drawn}

-- What a frame leaves of a surface: all but the indicator's buffers and their size.
abbrev pub Keeps : Surface → Outcome → Type 0
Keeps o (rendered f) =
    (f.surface ≡ record o {
      indicator_buffers = f.surface.indicator_buffers;
      indicator_width = f.surface.indicator_width;
      indicator_height = f.surface.indicator_height;
    })
    × (length f.surface.indicator_buffers ≡ length o.indicator_buffers)
Keeps o null_dereference = Unit
Keeps o division_by_zero = Unit
Keeps o out_of_fuel = Unit

show_frame-Keeps :
    (before : List Call) (o : Surface) (f : Frame)
    → Keeps o (rendered f)
    → Keeps o (show_frame before f)
unfolding show_frame
show_frame-Keeps before o f h = go f.current_buffer refl
  where
    go : (c : Option ℕ) → f.current_buffer ≡ c → Keeps o (show_frame before f)
    go none e = rw e tt
    go (some i) e = rw e h

show_again-Keeps :
    (before : List Call) (o : Surface) (r : Outcome) → Keeps o r → Keeps o (show_again before r)
unfolding show_again
show_again-Keeps before o (rendered f) h = show_frame-Keeps before o f h
show_again-Keeps before o null_dereference h = tt
show_again-Keeps before o division_by_zero h = tt
show_again-Keeps before o out_of_fuel h = tt

module _ (k : Look) (s : State) where
  draw_frame-Keeps :
      (o : Surface) (again : Surface → Outcome) (chosen : Option ℕ)
      → ((i : ℕ) → Keeps o (again (resize k s o i)))
      → Keeps o (draw_frame k s again o chosen)
  unfolding draw_frame
  draw_frame-Keeps o again none h = (refl, refl)
  draw_frame-Keeps o again (some i) h = elim (Bool-cases (is_shown s && not (has_size k s o))) [
    | inl e ↦ rw e (show_again-Keeps (drawn k s o) o (again (resize k s o i)) (h i))
    | inr e ↦ rw e (
        show_frame-Keeps (drawn k s o) o
          (record { surface = o; current_buffer = some i; calls = [] }) (refl, refl))
  ]

  pooled-Keeps :
      (o : Surface) (pool : List PoolBuffer) (r : Outcome)
      → length pool ≡ length o.indicator_buffers
      → Keeps (record o { indicator_buffers = pool }) r
      → Keeps o r
  pooled-Keeps o pool (rendered f) e h = (h.0, h.1 ∙ e)
  pooled-Keeps o pool null_dereference e h = tt
  pooled-Keeps o pool division_by_zero e h = tt
  pooled-Keeps o pool out_of_fuel e h = tt

  resized-Keeps : (o : Surface) (i : ℕ) (r : Outcome) → Keeps (resize k s o i) r → Keeps o r
  unfolding resize
  resized-Keeps o i (rendered f) h = (
    h.0,
    h.1 ∙ length-set o.indicator_buffers i (destroy_buffer (get_or o.indicator_buffers i zeroed)),
  )
  resized-Keeps o i null_dereference h = tt
  resized-Keeps o i division_by_zero h = tt
  resized-Keeps o i out_of_fuel h = tt

  pub render_frame-Keeps : (fuel : ℕ) (o : Surface) → Keeps o (render_frame k s fuel o)
  unfolding render_frame
  render_frame-Keeps zero o = tt
  render_frame-Keeps (suc fuel) o =
      let chosen = get_next_buffer o.indicator_buffers o.indicator_width o.indicator_height in
      let o' = record o { indicator_buffers = chosen.0 } in
      divided (o.scale == 0) (draw_frame k s (λ o''. render_frame k s fuel o'') o' chosen.1) (
        pooled-Keeps o chosen.0 (draw_frame k s (λ o''. render_frame k s fuel o'') o' chosen.1)
          (length-get_next_buffer o.indicator_buffers o.indicator_width o.indicator_height)
          (draw_frame-Keeps o' (λ o''. render_frame k s fuel o'') chosen.1
            (λ i.
              resized-Keeps o' i (render_frame k s fuel (resize k s o' i))
                (render_frame-Keeps fuel (resize k s o' i)))))
    where
      divided : (b : Bool) (r : Outcome) → Keeps o r → Keeps o (if b then division_by_zero else r)
      divided true r h = tt
      divided false r h = h
