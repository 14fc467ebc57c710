-- ===== src/Render.antt =====
-- The indicator of render.c: its colours, its texts and the frame. What cairo draws where is output; the
-- model keeps the order of the calls, their colours and texts, and every size in pixels. Sizes stay
-- below 2 ^ 31. Text sizes and the keyboard's layouts are arguments.
pub mod Frame
pub mod Ends
pub mod Picks
pub mod Attempts
use swaylock.Base.{
  ℕ, zero, suc, ◌+◌, ◌/◌, ◌%◌, Bool, not, ◌&&◌, ◌||◌, Option, none, some, List, [], ◌∷◌, ◌++◌, ltb,
  if◌then◌else◌, codes, take,
}
use swaylock.Args.{Colorset, Colors}
use swaylock.State.{State, AuthState, Surface}
use swaylock.PoolBuffer.{zeroed, get_next_buffer, destroy_buffer}

-- What cairo says of a text's width and of a font's height, rounded down or up to whole pixels, and
-- what xkbcommon says of the layouts.
pub record Look : Type 0 where
  pub width_floor : List ℕ → ℕ
  pub width_ceil : List ℕ → ℕ
  pub height_floor : ℕ
  pub num_layouts : ℕ
  pub layout_is_active : ℕ → Bool
  pub layout_get_name : ℕ → Option (List ℕ)

-- The colour sets of `struct swaylock_colors`, for a pointer to one of them.
pub data Part : Type 0 where
  inside line ring text : Part

abbrev pub colorset : Colors → Part → Colorset
colorset c Part.inside = c.inside
colorset c Part.line = c.line
colorset c Part.ring = c.ring
colorset c Part.text = c.text

-- `state->args.colors.text.input = color`
abbrev pub put_text_input : ℕ → State → State
put_text_input color s = record s {
  args = record s.args {
    colors = record s.args.colors { text = record s.args.colors.text { input = color } };
  };
}

-- With Caps Lock on and only its text shown, the colour for texts is exchanged while the source is set,
-- and `colorset` may point to it.
unfoldable pub caps_lock_color : State → Part → State × ℕ
caps_lock_color s part =
    let inputtextcolor = s.args.colors.text.input in
    let exchanged = put_text_input s.args.colors.text.caps_lock s in
    (put_text_input inputtextcolor exchanged, (colorset exchanged.args.colors part).input)

-- The state after the call, and the colour that is given to `cairo_set_source_u32`.
unfoldable pub pick_color : AuthState → State → Part → State × ℕ
unfolding caps_lock_color
pick_color AuthState.validating s part = (s, (colorset s.args.colors part).verifying)
pick_color AuthState.invalid s part = (s, (colorset s.args.colors part).wrong)
pick_color AuthState.clear s part = (s, (colorset s.args.colors part).cleared)
pick_color _ s part =
    if s.xkb.caps_lock && s.args.show_caps_lock_indicator
    then (s, (colorset s.args.colors part).caps_lock)
    else if s.xkb.caps_lock && not s.args.show_caps_lock_indicator && s.args.show_caps_lock_text
    then caps_lock_color s part
    else (s, (colorset s.args.colors part).input)

unfoldable pub set_color_for_state : State → Part → State × ℕ
unfolding pick_color
set_color_for_state s part = pick_color s.auth_state s part

-- The decimal digits of an `int`, which has at most ten.
unfoldable pub decimal : ℕ → ℕ → List ℕ
decimal zero n = []
decimal (suc fuel) n =
    let front = decimal fuel (n / 10) in
    if ltb n 10 then (b'0' + n) ∷ [] else front ++ (b'0' + n % 10) ∷ []

-- snprintf(attempts, sizeof(attempts), "%d", failed_attempts), without the terminator.
unfoldable pub attempts : ℕ → List ℕ
unfolding decimal
attempts failed_attempts =
    if ltb 999 failed_attempts then codes "999+" else take 3 (decimal 10 failed_attempts)

unfoldable pub typing_text : State → Option (List ℕ)
unfolding attempts
typing_text s =
    if s.xkb.caps_lock && s.args.show_caps_lock_text
    then some (codes "Caps Lock")
    else if s.args.show_failed_attempts && ltb 0 s.failed_attempts
    then some (attempts s.failed_attempts)
    else none

-- The loop that advances to the first active layout, over the `n` that are left.
unfoldable pub active_layout : Look → ℕ → ℕ → ℕ
active_layout k curr_layout zero = curr_layout
active_layout k curr_layout (suc n) =
    let later = active_layout k (suc curr_layout) n in
    if k.layout_is_active curr_layout then curr_layout else later

unfoldable pub typing_layout : Look → State → Option (List ℕ)
unfolding active_layout
typing_layout k s =
    if not s.args.hide_keyboard_layout && (s.args.show_keyboard_layout || ltb 1 k.num_layouts)
    then k.layout_get_name (active_layout k 0 k.num_layouts)
    else none

-- The `switch` over `auth_state`: the text, and the text for the layout.
unfoldable pub texts : AuthState → Look → State → Option (List ℕ) × Option (List ℕ)
unfolding typing_text typing_layout
texts AuthState.validating k s = (some (codes "verifying"), none)
texts AuthState.invalid k s = (some (codes "wrong"), none)
texts AuthState.clear k s = (some (codes "cleared"), none)
texts AuthState.input k s = (typing_text s, typing_layout k s)
texts AuthState.input_nop k s = (typing_text s, typing_layout k s)
texts AuthState.backspace k s = (typing_text s, typing_layout k s)
texts AuthState.idle k s = (none, none)
