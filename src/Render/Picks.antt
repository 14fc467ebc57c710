-- ===== src/Render/Picks.antt =====
-- Which colour `set_color_for_state` sets.
use swaylock.Base.{ℕ, ◌≡◌, refl, ap, ap₂, ◌∙◌, Bool, true, false, not, ◌&&◌, if◌then◌else◌}
use swaylock.State.{State, AuthState}
use swaylock.Render.{Part, colorset, set_color_for_state, pick_color, caps_lock_color}

abbrev pub is_text : Part → Bool
is_text Part.text = true
is_text _ = false

-- While somebody types, Caps Lock has its own colour for all parts if its indicator is shown, and for
-- the text alone if only its text is.
abbrev pub typing_color : State → Part → ℕ
typing_color s part =
    let caps = s.xkb.caps_lock in
    let set = colorset s.args.colors part in
    if caps && s.args.show_caps_lock_indicator
    then set.caps_lock
    else if caps && s.args.show_caps_lock_text && is_text part
    then set.caps_lock
    else set.input

abbrev pub meant_color : AuthState → State → Part → ℕ
meant_color AuthState.validating s part = (colorset s.args.colors part).verifying
meant_color AuthState.invalid s part = (colorset s.args.colors part).wrong
meant_color AuthState.clear s part = (colorset s.args.colors part).cleared
meant_color _ s part = typing_color s part

-- The colours are as before the call, whichever part it is for.
caps_lock_color-keeps : (s : State) (part : Part) → (caps_lock_color s part).0 ≡ s
unfolding caps_lock_color
caps_lock_color-keeps s part = refl

caps_lock_color-picks :
    (s : State) (part : Part)
    → (caps_lock_color s part).1 ≡ (
        if is_text part
        then (colorset s.args.colors part).caps_lock
        else (colorset s.args.colors part).input)
unfolding caps_lock_color
caps_lock_color-picks s Part.inside = refl
caps_lock_color-picks s Part.line = refl
caps_lock_color-picks s Part.ring = refl
caps_lock_color-picks s Part.text = refl

-- The tests of the code against those of `typing_color`.
chosen :
    (caps indicator shown text : Bool) (s : State) (a b : ℕ)
    → ◌≡◌ {A = State × ℕ}
        (if caps && indicator
          then (s, a)
          else if caps && not indicator && shown
          then (s, if text then a else b)
          else (s, b))
        (s, if caps && indicator then a else if caps && shown && text then a else b)
chosen false indicator shown text s a b = refl
chosen true true shown text s a b = refl
chosen true false false text s a b = refl
chosen true false true true s a b = refl
chosen true false true false s a b = refl

typing-picks :
    (s : State) (part : Part) → pick_color AuthState.idle s part ≡ (s, typing_color s part)
unfolding pick_color
typing-picks s part =
    let caps = s.xkb.caps_lock in
    let indicator = s.args.show_caps_lock_indicator in
    let shown = s.args.show_caps_lock_text in
    let set = colorset s.args.colors part in
    ap
      (λ (t : State × ℕ).
        if caps && indicator
        then (s, set.caps_lock)
        else if caps && not indicator && shown
        then t
        else (s, set.input))
      (ap₂ (λ t c. (t, c)) (caps_lock_color-keeps s part) (caps_lock_color-picks s part))
    ∙ chosen caps indicator shown (is_text part) s set.caps_lock set.input

-- For every state of the lock and every part, the call leaves the whole state as it was, although it
-- writes a colour meanwhile, and sets the colour that the settings mean for that state and part.
pub set_color_for_state_lem :
    (s : State) (part : Part) → set_color_for_state s part ≡ (s, meant_color s.auth_state s part)
unfolding set_color_for_state pick_color
set_color_for_state_lem s part = picked s.auth_state
  where
    picked : (auth : AuthState) → pick_color auth s part ≡ (s, meant_color auth s part)
    picked AuthState.validating = refl
    picked AuthState.invalid = refl
    picked AuthState.clear = refl
    picked AuthState.idle = typing-picks s part
    picked AuthState.input = typing-picks s part
    picked AuthState.input_nop = typing-picks s part
    picked AuthState.backspace = typing-picks s part
