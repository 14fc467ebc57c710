-- ===== src/Render/Attempts.antt =====
-- The count of failed attempts that the indicator shows.
use swaylock.Base.{
  ℕ, ◌+◌, ◌-◌, ◌*◌, ◌/◌, ◌%◌, ◌≤◌, ◌<◌, ◌≡◌, refl, true, false, ◌&&◌, some, List, [], ◌∷◌, arith,
  dec_lt, ltb, lt→ltb, le→ltb, length, All,
}
use swaylock.State.{State}
use swaylock.Render.{decimal, attempts, typing_text}

-- The number that decimal digits stand for, after the digits read so far.
abbrev pub value : ℕ → List ℕ → ℕ
value sum [] = sum
value sum (d ∷ ds) = value (sum * 10 + (d - b'0')) ds

abbrev pub IsDigit : ℕ → Type 0
IsDigit d = (b'0' ≤ d) × (d ≤ b'9')

-- What an observer can make of the text: digits `0` to `9` only, three at most, and at least one.
abbrev pub Reads : ℕ → List ℕ → Type 0
Reads n text = All IsDigit text × (value 0 text ≡ n) × (1 ≤ length text) × (length text ≤ 3)

one_digit : (n : ℕ) → n < 10 → decimal 10 n ≡ (b'0' + n) ∷ []
unfolding decimal
one_digit n h = rw (lt→ltb n 10 h) refl

two_digits : (n : ℕ) → 10 ≤ n → n < 100 → decimal 10 n ≡ (b'0' + n / 10) ∷ (b'0' + n % 10) ∷ []
unfolding decimal
two_digits n low high = rw (le→ltb n 10 low, lt→ltb (n / 10) 10 (omega arith)) refl

three_digits :
    (n : ℕ)
    → 100 ≤ n
    → n < 1000
    → decimal 10 n ≡ (b'0' + n / 10 / 10) ∷ (b'0' + n / 10 % 10) ∷ (b'0' + n % 10) ∷ []
unfolding decimal
three_digits n low high =
    rw
      (
        le→ltb n 10 (omega arith),
        le→ltb (n / 10) 10 (omega arith),
        lt→ltb (n / 10 / 10) 10 (omega arith),
      )
      refl

one-Reads : (n : ℕ) → n < 10 → Reads n ((b'0' + n) ∷ [])
one-Reads n h = (((omega arith, omega arith), tt), omega arith, omega arith, omega arith)

two-Reads : (n : ℕ) → n < 100 → Reads n ((b'0' + n / 10) ∷ (b'0' + n % 10) ∷ [])
two-Reads n h = (
  ((omega arith, omega arith), ((omega arith, omega arith), tt)),
  omega arith,
  omega arith,
  omega arith,
)

three-Reads :
    (n : ℕ)
    → n < 1000
    → Reads n ((b'0' + n / 10 / 10) ∷ (b'0' + n / 10 % 10) ∷ (b'0' + n % 10) ∷ [])
three-Reads n h = (
  ((omega arith, omega arith), ((omega arith, omega arith), ((omega arith, omega arith), tt))),
  omega arith,
  omega arith,
  omega arith,
)

attempts-Reads : (n : ℕ) → n ≤ 999 → Reads n (attempts n)
unfolding attempts
attempts-Reads n h =
    let small : ltb 999 n ≡ false = le→ltb 999 n h in
    elim (dec_lt n 10) [
      | yes a ↦ rw (small, one_digit n a) (one-Reads n a)
      | no a ↦ elim (dec_lt n 100) [
        | yes b ↦ rw (small, two_digits n (omega (arith, a)) b) (two-Reads n b)
        | no b ↦
            rw (small, three_digits n (omega (arith, b)) (omega arith))
              (three-Reads n (omega arith))
      ]
    ]

-- While somebody types after 1 to 999 failed attempts, with attempts shown and Caps Lock's text not, the
-- text is one to three decimal digits that stand for the number of attempts, so it fits the four bytes
-- of `attempts` with its terminator.
pub typing_text_lem :
    (s : State)
    → (s.xkb.caps_lock && s.args.show_caps_lock_text) ≡ false
    → s.args.show_failed_attempts ≡ true
    → 0 < s.failed_attempts
    → s.failed_attempts ≤ 999
    → (text : List ℕ) × (typing_text s ≡ some text) × Reads s.failed_attempts text
unfolding typing_text
typing_text_lem s caps shown some_failed few = (
  attempts s.failed_attempts,
  rw (caps, shown, lt→ltb 0 s.failed_attempts some_failed) refl,
  attempts-Reads s.failed_attempts few,
)
