-- ===== src/Options/Colors.antt =====
-- The colours as a list, and the place of each colour option in it (main.c, `parse_options`).
use swaylock.Base.{ℕ, ◌≡◌, refl, List, [], ◌∷◌, ◌++◌, set}
use swaylock.Args.{Colors, Colorset}
use swaylock.Options.{ColorOption}
use swaylock.Options.Apply.{set_color}

abbrev colorset_list : Colorset → List ℕ
colorset_list c = c.input ∷ c.cleared ∷ c.caps_lock ∷ c.verifying ∷ c.wrong ∷ []

-- All colours, in the order of the struct.
abbrev pub colors_list : Colors → List ℕ
colors_list cs =
    cs.background
      ∷ cs.bs_highlight
      ∷ cs.key_highlight
      ∷ cs.caps_lock_bs_highlight
      ∷ cs.caps_lock_key_highlight
      ∷ cs.separator
      ∷ cs.layout_background
      ∷ cs.layout_border
      ∷ cs.layout_text
      ∷ colorset_list cs.inside
    ++ (colorset_list cs.line ++ (colorset_list cs.ring ++ colorset_list cs.text))

-- The place of an option's colour among them.
unfoldable pub place : ColorOption → ℕ
place ColorOption.background = 0
place ColorOption.bs_hl_color = 1
place ColorOption.key_hl_color = 2
place ColorOption.caps_lock_bs_hl_color = 3
place ColorOption.caps_lock_key_hl_color = 4
place ColorOption.sep_color = 5
place ColorOption.layout_bg_color = 6
place ColorOption.layout_border_color = 7
place ColorOption.layout_txt_color = 8
place ColorOption.inside_color = 9
place ColorOption.inside_clear_color = 10
place ColorOption.inside_caps_lock_color = 11
place ColorOption.inside_ver_color = 12
place ColorOption.inside_wrong_color = 13
place ColorOption.line_color = 14
place ColorOption.line_clear_color = 15
place ColorOption.line_caps_lock_color = 16
place ColorOption.line_ver_color = 17
place ColorOption.line_wrong_color = 18
place ColorOption.ring_color = 19
place ColorOption.ring_clear_color = 20
place ColorOption.ring_caps_lock_color = 21
place ColorOption.ring_ver_color = 22
place ColorOption.ring_wrong_color = 23
place ColorOption.text_color = 24
place ColorOption.text_clear_color = 25
place ColorOption.text_caps_lock_color = 26
place ColorOption.text_ver_color = 27
place ColorOption.text_wrong_color = 28

-- `set_color` of an option replaces the colour at the option's place and keeps all others.
pub set_color_lem :
    (c : ColorOption) (v : ℕ) (cs : Colors)
    → colors_list (set_color c v cs) ≡ set (colors_list cs) (place c) v
unfolding set_color place
set_color_lem ColorOption.background v cs = refl
set_color_lem ColorOption.bs_hl_color v cs = refl
set_color_lem ColorOption.key_hl_color v cs = refl
set_color_lem ColorOption.caps_lock_bs_hl_color v cs = refl
set_color_lem ColorOption.caps_lock_key_hl_color v cs = refl
set_color_lem ColorOption.sep_color v cs = refl
set_color_lem ColorOption.layout_bg_color v cs = refl
set_color_lem ColorOption.layout_border_color v cs = refl
set_color_lem ColorOption.layout_txt_color v cs = refl
set_color_lem ColorOption.inside_color v cs = refl
set_color_lem ColorOption.inside_clear_color v cs = refl
set_color_lem ColorOption.inside_caps_lock_color v cs = refl
set_color_lem ColorOption.inside_ver_color v cs = refl
set_color_lem ColorOption.inside_wrong_color v cs = refl
set_color_lem ColorOption.line_color v cs = refl
set_color_lem ColorOption.line_clear_color v cs = refl
set_color_lem ColorOption.line_caps_lock_color v cs = refl
set_color_lem ColorOption.line_ver_color v cs = refl
set_color_lem ColorOption.line_wrong_color v cs = refl
set_color_lem ColorOption.ring_color v cs = refl
set_color_lem ColorOption.ring_clear_color v cs = refl
set_color_lem ColorOption.ring_caps_lock_color v cs = refl
set_color_lem ColorOption.ring_ver_color v cs = refl
set_color_lem ColorOption.ring_wrong_color v cs = refl
set_color_lem ColorOption.text_color v cs = refl
set_color_lem ColorOption.text_clear_color v cs = refl
set_color_lem ColorOption.text_caps_lock_color v cs = refl
set_color_lem ColorOption.text_ver_color v cs = refl
set_color_lem ColorOption.text_wrong_color v cs = refl
