-- ===== src/Seat/Keys.antt =====
-- Keys and modifiers against the invariant of the lock (seat.c).
use swaylock.Base.{ℕ, ◌+◌, ◌^◌, ◌<◌, ◌≡◌, refl, ◌∙◌, Bool, true, false, if◌then◌else◌}
use swaylock.State.{State}
use swaylock.Surface.{damage_state}
use swaylock.Lock.{Env}
use swaylock.Lock.Invariant.{IsSound, swaylock_handle_key-IsSound, damage_state-IsSound}
use swaylock.Seat.{Keymap, Modifiers, keyboard_key, keyboard_modifiers, update_caps_lock, same}

-- With a keymap whose code points are below 2^21, pressing or releasing a key keeps the lock sound.
keyboard_key-IsSound :
    (env : Env) (keymap : Keymap) (key : ℕ) (pressed : Bool) (s : State)
    → ((keycode : ℕ) → keymap.get_utf32 keycode < 2 ^ 21)
    → IsSound s
    → IsSound (keyboard_key env keymap key pressed s)
unfolding keyboard_key
keyboard_key-IsSound env keymap key true s small v =
    swaylock_handle_key-IsSound env s (keymap.get_one_sym (key + 8)) (keymap.get_utf32 (key + 8))
      (small (key + 8)) v
keyboard_key-IsSound env keymap key false s small v = v

-- What an update of the modifiers keeps.
record Keeps (s s' : State) : Type 0 where
  sound : IsSound s'
  password : s'.password ≡ s.password
  mark : s'.auth_state ≡ s.auth_state
  display : s'.run_display ≡ s.run_display

damage_state-Keeps : (s : State) → IsSound s → Keeps s (damage_state s)
unfolding damage_state
damage_state-Keeps s v = record {
  sound = damage_state-IsSound s v;
  password = refl;
  mark = refl;
  display = refl;
}

layout-Keeps : (b : Bool) (s : State) → IsSound s → Keeps s (if b then s else damage_state s)
layout-Keeps true s v = record { sound = v; password = refl; mark = refl; display = refl }
layout-Keeps false s v = damage_state-Keeps s v

abbrev Updates : Bool → State → State → Type 0
Updates b s s' = Keeps s s' × (s'.xkb.caps_lock ≡ b)

caps-IsSound :
    (b : Bool) (s : State) → IsSound s → IsSound (record s { xkb = record s.xkb { caps_lock = b } })
caps-IsSound b s v = record { timers = v.timers; password = v.password }

changed :
    (b : Bool) (s : State)
    → IsSound s
    → Updates b s (damage_state (record s { xkb = record s.xkb { caps_lock = b } }))
unfolding damage_state
changed b s v =
    let s' = record s { xkb = record s.xkb { caps_lock = b } } in
    let k = damage_state-Keeps s' (caps-IsSound b s v) in
    (record { sound = k.sound; password = refl; mark = refl; display = refl }, refl)

kept : (b : Bool) (s : State) → IsSound s → s.xkb.caps_lock ≡ b → Updates b s s
kept b s v e = (record { sound = v; password = refl; mark = refl; display = refl }, e)

chosen-Updates :
    (b c : Bool) (s : State)
    → IsSound s
    → s.xkb.caps_lock ≡ c
    → Updates b s
        (if same b c then s else damage_state (record s { xkb = record s.xkb { caps_lock = b } }))
chosen-Updates true true s v e = kept true s v e
chosen-Updates true false s v e = changed true s v
chosen-Updates false true s v e = changed false s v
chosen-Updates false false s v e = kept false s v e

update_caps_lock-Updates : (b : Bool) (s : State) → IsSound s → Updates b s (update_caps_lock b s)
unfolding update_caps_lock
update_caps_lock-Updates b s v = chosen-Updates b s.xkb.caps_lock s v refl

-- After a change of modifiers the lock is still sound and remembers what xkbcommon says of Caps Lock
-- and Control, and the password, the mark and the display flag are as they were.
pub keyboard_modifiers-IsSound :
    (m : Modifiers) (s : State)
    → IsSound s
    → let s' = keyboard_modifiers m s in
      IsSound s'
      × (s'.xkb.caps_lock ≡ m.caps_lock)
      × (s'.xkb.control ≡ m.control)
      × (s'.password ≡ s.password)
      × (s'.auth_state ≡ s.auth_state)
      × (s'.run_display ≡ s.run_display)
unfolding keyboard_modifiers
keyboard_modifiers-IsSound m s v =
    let k = layout-Keeps m.layout_same s v in
    let (u, caps) =
      update_caps_lock-Updates m.caps_lock (if m.layout_same then s else damage_state s) k.sound in
    (
      record { timers = u.sound.timers; password = u.sound.password },
      caps,
      refl,
      u.password ∙ k.password,
      u.mark ∙ k.mark,
      u.display ∙ k.display,
    )
