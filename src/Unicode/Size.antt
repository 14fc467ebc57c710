-- ===== src/Unicode/Size.antt =====
-- The sizes that a lead byte announces against the sizes that the encoder uses.
use swaylock.Base.{
  ℕ, ◌^◌, ◌≤◌, ◌<◌, ◌≡◌, refl, ap, ◌∙◌, ◌≢◌, Bool, true, false, Option, none, some, arith, ltb,
  ◌==◌, if◌then◌else◌, ==_iff, get_or,
}
use swaylock.Base.Words.{all_below, all_below_sound}
use swaylock.Unicode.{utf8_chsize, utf8_size}
use swaylock.Unicode.Encode.{encoding}

-- The first byte of an encoding.
abbrev pub lead : ℕ → ℕ
lead ch = get_or (encoding ch) 0 0

opt_eq : Option ℕ → Option ℕ → Bool
opt_eq none none = true
opt_eq (some a) (some b) = a == b
opt_eq _ _ = false

opt_eq→eq : (a b : Option ℕ) → opt_eq a b ≡ true → a ≡ b
unfolding opt_eq
opt_eq→eq none none h = refl
opt_eq→eq none (some b) h = cc
opt_eq→eq (some a) none h = cc
opt_eq→eq (some a) (some b) h = ap some ((==_iff a b).0 h)

-- The size that a lead byte announces, by the range of the byte.
size_of_range : ℕ → Option ℕ
size_of_range c =
    if ltb c 0x80
    then some 1
    else if ltb c 0xc0
    then none
    else if ltb c 0xe0
    then some 2
    else if ltb c 0xf0
    then some 3
    else if ltb c 0xf8
    then some 4
    else if ltb c 0xfc
    then some 5
    else none

size_table : all_below 256 (λ c. opt_eq (utf8_size c) (size_of_range c)) ≡ true
unfolding all_below opt_eq utf8_size size_of_range
size_table = refl

utf8_size-eq-range : (c : ℕ) → c < 256 → utf8_size c ≡ size_of_range c
utf8_size-eq-range c h =
    opt_eq→eq (utf8_size c) (size_of_range c)
      (all_below_sound 256 (λ c. opt_eq (utf8_size c) (size_of_range c)) c size_table h)

-- For a code point below 2^21, the size that `utf8_size` reads off the first byte of its encoding
-- is the size that `utf8_chsize` gives for it.
pub utf8_size-lead : (ch : ℕ) → ch < 2 ^ 21 → utf8_size (lead ch) ≡ some (utf8_chsize ch)
unfolding size_of_range encoding utf8_chsize
utf8_size-lead ch h = ground (arith, utf8_size-eq-range (lead ch))

-- No byte announces six octets, although `sizes` has a row for six; the bytes 0xfc and 0xfd, which
-- six octets would start with, are refused like 0xfe and 0xff.
pub utf8_size-ne-six : (c : ℕ) → c < 256 → (utf8_size c ≢ some 6) × (0xfc ≤ c → utf8_size c ≡ none)
unfolding size_of_range
utf8_size-ne-six c h =
    (ground (arith, utf8_size-eq-range c h), λ big. utf8_size-eq-range c h ∙ ground arith)
