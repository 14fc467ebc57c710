-- ===== src/Seat.antt =====
-- The keyboard (seat.c, `keyboard_key` and `keyboard_modifiers`). What xkbcommon makes of a key and
-- of a change of modifiers is an argument.
pub mod Devices
pub mod Keys
use swaylock.Base.{ℕ, ◌+◌, sym, Bool, true, false, not, if◌then◌else◌}
use swaylock.State.{State}
use swaylock.Surface.{damage_state}
use swaylock.Lock.{Env, Keysym, swaylock_handle_key}

-- `xkb_state_key_get_one_sym` and `xkb_state_key_get_utf32`, by key code.
pub record Keymap : Type 0 where
  pub get_one_sym : ℕ → Keysym
  pub get_utf32 : ℕ → ℕ

-- The flag is `key_state == WL_KEYBOARD_KEY_STATE_PRESSED`.
unfoldable pub keyboard_key : Env → Keymap → ℕ → Bool → State → State
keyboard_key env keymap key pressed s =
    let sym = keymap.get_one_sym (key + 8) in
    let keycode = if pressed then key + 8 else 0 in
    let codepoint = keymap.get_utf32 keycode in
    if pressed then swaylock_handle_key env s sym codepoint else s

-- What xkbcommon says of the layout before the update, and of the two modifiers after it.
pub record Modifiers : Type 0 where
  pub layout_same : Bool
  pub caps_lock : Bool
  pub control : Bool

abbrev pub same : Bool → Bool → Bool
same true b = b
same false b = not b

-- `if (caps_lock != state->xkb.caps_lock)`
unfoldable pub update_caps_lock : Bool → State → State
update_caps_lock caps_lock s =
    if same caps_lock s.xkb.caps_lock
    then s
    else damage_state (record s { xkb = record s.xkb { caps_lock = caps_lock } })

unfoldable pub keyboard_modifiers : Modifiers → State → State
unfolding update_caps_lock
keyboard_modifiers m s =
    let redrawn = if m.layout_same then s else damage_state s in
    let updated = update_caps_lock m.caps_lock redrawn in
    record updated { xkb = record updated.xkb { control = m.control } }
