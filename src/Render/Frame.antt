-- ===== src/Render/Frame.antt =====
-- `render_frame` (render.c): the position and the size of the indicator, what is drawn, and the second
-- round in a buffer of the right size.
use swaylock.Base.{
  ℕ, zero, suc, ◌+◌, ◌-◌, ◌*◌, ◌/◌, ◌^◌, Bool, true, false, not, ◌&&◌, ◌||◌, Option, none, some,
  List, [], ◌∷◌, ◌++◌, ltb, ◌==◌, if◌then◌else◌, get_or, set,
}
use swaylock.Base.Words.{u32}
use swaylock.State.{State, AuthState, Surface}
use swaylock.PoolBuffer.{zeroed, get_next_buffer, destroy_buffer}
use swaylock.Render.{Look, Part, set_color_for_state, texts}

-- The calls of cairo and of Wayland that can be seen. A `source` is a colour 0xRRGGBBAA; `attach` has
-- the number of an indicator's buffer, with its width and height in `damage`.
pub data Call : Type 0 where
  set_position : ℕ → ℕ → Call
  hide_child commit_child clear_all fill stroke commit_surface : Call
  source : ℕ → Call
  show_text : List ℕ → Call
  set_scale : ℕ → Call
  attach : ℕ → Call
  damage : ℕ → ℕ → Call

-- `buffer_width / (2 * scale)` is taken off half of the surface, or off the position asked for. The scale is
-- not 0 here: `render_frame` below does not come to it then.
unfoldable pub position_x : State → Surface → ℕ
position_x s o =
    let middle =
      if s.args.override_indicator_x_position then s.args.indicator_x_position else o.width / 2 in
    u32 (middle + 2 ^ 32 - o.indicator_width / (2 * o.scale) + 2 / o.scale)

unfoldable pub position_y : State → Surface → ℕ
position_y s o =
    let middle =
      if s.args.override_indicator_y_position then s.args.indicator_y_position else o.height / 2 in
    u32 (middle + 2 ^ 32 - u32 (s.args.radius + s.args.thickness))

unfoldable pub buffer_diameter : State → Surface → ℕ
buffer_diameter s o = u32 ((u32 (s.args.radius * o.scale) + u32 (s.args.thickness * o.scale)) * 2)

unfoldable pub is_shown : State → Bool
is_shown s = s.args.show_indicator && (not (is_idle s.auth_state) || s.args.indicator_idle_visible)
  where
    is_idle : AuthState → Bool
    is_idle AuthState.idle = true
    is_idle _ = false

-- A width that is less than a text's becomes the text's, cut to whole pixels.
abbrev pub widened : Look → ℕ → Option (List ℕ) → ℕ → ℕ
widened k padding none width = width
widened k padding (some text) width =
    if ltb width (k.width_ceil text + padding) then k.width_floor text + padding else width

-- `2.0 * box_padding`
abbrev pub box_padding : Surface → ℕ
box_padding o = 8 * o.scale

unfoldable pub new_width : Look → State → Surface → ℕ
unfolding buffer_diameter texts
new_width k s o =
    let (text, layout_text) = texts s.auth_state k s in
    widened k (box_padding o) layout_text (widened k 0 text (buffer_diameter s o))

unfoldable pub new_height : Look → State → Surface → ℕ
unfolding buffer_diameter texts
new_height k s o = elim (texts s.auth_state k s).1 [
  | none ↦ buffer_diameter s o
  | some layout_text ↦ buffer_diameter s o + k.height_floor + box_padding o
]

abbrev pub text_calls : Option (List ℕ) → List Call
text_calls none = []
text_calls (some text) = show_text text ∷ []

-- The colour of the highlight, which is drawn after a key that typed or erased.
unfoldable pub highlight : AuthState → State → Option ℕ
highlight AuthState.input s = some (
    if s.xkb.caps_lock && s.args.show_caps_lock_indicator
    then s.args.colors.caps_lock_key_highlight
    else s.args.colors.key_highlight)
highlight AuthState.backspace s = some (
    if s.xkb.caps_lock && s.args.show_caps_lock_indicator
    then s.args.colors.caps_lock_bs_highlight
    else s.args.colors.bs_highlight)
highlight _ s = none

abbrev pub highlight_calls : State → Option ℕ → List Call
highlight_calls s none = []
highlight_calls s (some color) =
    source color ∷ stroke ∷ source s.args.colors.separator ∷ stroke ∷ stroke ∷ []

abbrev pub layout_calls : State → Option (List ℕ) → List Call
layout_calls s none = []
layout_calls s (some layout_text) =
    source s.args.colors.layout_background
    ∷ fill
    ∷ source s.args.colors.layout_border
    ∷ stroke
    ∷ source s.args.colors.layout_text
    ∷ show_text layout_text
    ∷ []

-- What is drawn of the indicator.
unfoldable pub indicator_calls : Look → State → List Call
unfolding set_color_for_state texts highlight
indicator_calls k s =
    let (s₁, inside) = set_color_for_state s Part.inside in
    let (s₂, ring) = set_color_for_state s₁ Part.ring in
    let (s₃, text) = set_color_for_state s₂ Part.text in
    let (message, layout_text) = texts s₃.auth_state k s₃ in
    let (s₄, line) = set_color_for_state s₃ Part.line in
    (source inside ∷ fill ∷ source ring ∷ stroke ∷ source text ∷ [])
    ++ text_calls message
    ++ highlight_calls s₃ (highlight s₃.auth_state s₃)
    ++ (source line ∷ stroke ∷ stroke ∷ [])
    ++ layout_calls s₄ layout_text

-- The surface after the call, its `current_buffer`, and the calls in their order.
pub record Frame : Type 0 where
  pub surface : Surface
  pub current_buffer : Option ℕ
  pub calls : List Call

pub data Outcome : Type 0 where
  rendered : Frame → Outcome
  null_dereference division_by_zero out_of_fuel : Outcome

-- The end of `render_frame`, which uses the buffer that the field points to by then.
unfoldable pub show_frame : List Call → Frame → Outcome
show_frame before f = elim f.current_buffer [
  | none ↦ null_dereference
  | some i ↦
      let b = get_or f.surface.indicator_buffers i zeroed in
      rendered (record f {
        calls =
            before
            ++ f.calls
            ++ (set_scale f.surface.scale
                ∷ attach i
                ∷ damage b.width b.height
                ∷ commit_child
                ∷ commit_surface
                ∷ []);
      })
]

unfoldable pub show_again : List Call → Outcome → Outcome
unfolding show_frame
show_again before (rendered f) = show_frame before f
show_again before null_dereference = null_dereference
show_again before division_by_zero = division_by_zero
show_again before out_of_fuel = out_of_fuel

-- The buffer in hand is destroyed, and the new size is kept for the next one.
unfoldable pub resize : Look → State → Surface → ℕ → Surface
unfolding new_width new_height destroy_buffer
resize k s o i = record o {
  indicator_buffers =
      set o.indicator_buffers i (destroy_buffer (get_or o.indicator_buffers i zeroed));
  indicator_width = new_width k s o;
  indicator_height = new_height k s o;
}

unfoldable pub has_size : Look → State → Surface → Bool
unfolding new_width new_height
has_size k s o = o.indicator_width == new_width k s o && o.indicator_height == new_height k s o

-- What follows `get_next_buffer`; `render_again` is the recursive call.
unfoldable pub draw_frame : Look → State → (Surface → Outcome) → Surface → Option ℕ → Outcome
unfolding position_x position_y is_shown indicator_calls has_size resize show_frame show_again
draw_frame k s render_again o none = rendered (record {
  surface = o;
  current_buffer = none;
  calls = set_position (position_x s o) (position_y s o) ∷ [];
})
draw_frame k s render_again o (some i) =
    let begun =
      set_position (position_x s o) (position_y s o) ∷ hide_child ∷ commit_child ∷ clear_all ∷ [] in
    let drawn = if is_shown s then begun ++ indicator_calls k s else begun in
    if is_shown s && not (has_size k s o)
    then show_again drawn (render_again (resize k s o i))
    else show_frame drawn (record { surface = o; current_buffer = some i; calls = [] })

-- Each round divides by the scale before all else.
unfoldable pub render_frame : Look → State → ℕ → Surface → Outcome
unfolding draw_frame
render_frame k s zero o = out_of_fuel
render_frame k s (suc fuel) o =
    let (pool, chosen) = get_next_buffer o.indicator_buffers o.indicator_width o.indicator_height in
    let drawn =
      draw_frame k s (λ o'. render_frame k s fuel o') (record o { indicator_buffers = pool })
        chosen in
    if o.scale == 0 then division_by_zero else drawn
