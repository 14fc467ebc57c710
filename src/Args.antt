-- ===== src/Args.antt =====
-- The settings of include/swaylock.h: colours as 0xRRGGBBAA words, texts as their bytes.
use swaylock.Base.{ℕ, Bool, List}

pub record Colorset : Type 0 where
  pub input : ℕ
  pub cleared : ℕ
  pub caps_lock : ℕ
  pub verifying : ℕ
  pub wrong : ℕ

pub record Colors : Type 0 where
  pub background : ℕ
  pub bs_highlight : ℕ
  pub key_highlight : ℕ
  pub caps_lock_bs_highlight : ℕ
  pub caps_lock_key_highlight : ℕ
  pub separator : ℕ
  pub layout_background : ℕ
  pub layout_border : ℕ
  pub layout_text : ℕ
  pub inside : Colorset
  pub line : Colorset
  pub ring : Colorset
  pub text : Colorset

-- `enum background_mode` (include/background-image.h).
pub data BackgroundMode : Type 0 where
  stretch fill fit center tile solid_color invalid : BackgroundMode

pub record Args : Type 0 where
  pub colors : Colors
  pub mode : BackgroundMode
  pub font : List ℕ
  pub font_size : ℕ
  pub radius : ℕ
  pub thickness : ℕ
  pub indicator_x_position : ℕ
  pub indicator_y_position : ℕ
  pub override_indicator_x_position : Bool
  pub override_indicator_y_position : Bool
  pub ignore_empty : Bool
  pub show_indicator : Bool
  pub show_caps_lock_text : Bool
  pub show_caps_lock_indicator : Bool
  pub show_keyboard_layout : Bool
  pub hide_keyboard_layout : Bool
  pub show_failed_attempts : Bool
  pub daemonize : Bool
  pub indicator_idle_visible : Bool
