-- ===== src/Tests/Frames.antt =====
-- Examples for the indicator and its frames.
use swaylock.Base.{
  ℕ, ◌-◌, ◌*◌, ◌<◌, ◌≡◌, refl, ◌⊎◌, true, false, ◌&&◌, some, List, [], ◌∷◌, arith, ◌==◌, length,
}
use swaylock.State.{State, Surface, AuthState}
use swaylock.PoolBuffer.{zeroed}
use swaylock.Surface.{damage_surface}
use swaylock.Surface.Frames.{HasFrame}
use swaylock.Surface.Done.{asked_for, surface_frame_handle_done, surface_frame_handle_done_lem}
use swaylock.Render.{Look, Part, set_color_for_state, typing_text}
use swaylock.Render.Picks.{meant_color, set_color_for_state_lem}
use swaylock.Render.Attempts.{Reads, typing_text_lem}
use swaylock.Render.Frame.{division_by_zero, render_frame}
use swaylock.Render.Ends.{OnScreen, undrawn, render_frame_lem}
use swaylock.Surface.Outputs.{Globals, no_globals}
use swaylock.Tests.{screen, locked}

-- Texts of eight pixels for each byte, less a little, and two layouts, of which the second is active.
abbrev look : Look
look = record {
  width_floor = λ text. 8 * length text - 1;
  width_ceil = λ text. 8 * length text;
  height_floor = 12;
  num_layouts = 2;
  layout_is_active = λ n. n == 1;
  layout_get_name = λ n. some (b'u' ∷ b's' ∷ []);
}

-- Somebody types with Caps Lock on, after 42 failed attempts.
abbrev typing : State
typing = record locked {
  auth_state = AuthState.input;
  xkb = record { caps_lock = true; control = false };
  failed_attempts = 42;
  args = record locked.args {
    show_indicator = true;
    show_caps_lock_indicator = true;
    show_caps_lock_text = false;
    show_failed_attempts = true;
  };
}

set_color_for_state_lem_example :
    set_color_for_state typing Part.ring ≡ (typing, meant_color AuthState.input typing Part.ring)
set_color_for_state_lem_example = set_color_for_state_lem typing Part.ring

typing_text_lem_example : (text : List ℕ) × (typing_text typing ≡ some text) × Reads 42 text
typing_text_lem_example = typing_text_lem typing refl refl (omega arith) (omega arith)

render_frame_lem_example :
    (screen.scale ≡ 0) × (render_frame look typing 2 screen ≡ division_by_zero)
    ⊎ (0 < screen.scale)
      × (((zeroed.busy && zeroed.busy) ≡ true)
            × (render_frame look typing 2 screen ≡ undrawn look typing screen)
          ⊎ ((zeroed.busy && zeroed.busy) ≡ false)
            × OnScreen look typing (render_frame look typing 2 screen))
render_frame_lem_example = render_frame_lem look typing screen 0 zeroed zeroed refl

-- The surface waits for its callback and has been damaged meanwhile.
abbrev damaged : Surface
damaged = record screen { dirty = true; frame_pending = true; callbacks = 1 }

damaged-HasFrame : HasFrame damaged
damaged-HasFrame = record { known = refl; one = refl; awaited = λ h. refl }

surface_frame_handle_done_lem_example :
    (o' : Surface) × (surface_frame_handle_done look typing damaged ≡ some o')
    × (o'.dirty ≡ false)
    × (((damaged.dirty ≡ false) × HasFrame o' × (o'.frame_pending ≡ false))
        ⊎ ((damaged.dirty ≡ true)
            × ((zeroed.busy && zeroed.busy) ≡ false)
            × OnScreen look typing (render_frame look typing 2 (asked_for damaged))
            × HasFrame o'
            × (o'.frame_pending ≡ true))
        ⊎ ((damaged.dirty ≡ true)
            × ((zeroed.busy && zeroed.busy) ≡ true)
            × (render_frame look typing 2 (asked_for damaged)
                ≡ undrawn look typing (asked_for damaged))
            × (o'.requested ≡ 1)
            × ((damage_surface o').callbacks ≡ 0)))
surface_frame_handle_done_lem_example =
    surface_frame_handle_done_lem look typing damaged zeroed zeroed damaged-HasFrame refl refl
      (omega arith)

-- The compositor has announced one output when the locker starts.
abbrev announced : State
announced = record typing {
  surfaces = record screen { layer_surface = false } ∷ [];
  run_display = false;
}

abbrev globals : Globals
globals = record no_globals {
  compositor = true;
  subcompositor = true;
  layer_shell = true;
  shm = true;
  input_inhibit_manager = true;
}
