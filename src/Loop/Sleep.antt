-- ===== src/Loop/Sleep.antt =====
-- How long `loop_poll` lets `poll` wait (loop.c).
pub mod Bounds
use swaylock.Base.{
  ℕ, zero, suc, ◌+◌, ◌-◌, ◌*◌, ◌/◌, ◌%◌, ◌≤◌, ◌<◌, ◌≡◌, refl, ap, ◌∙◌, ◌⊎◌, inl, inr, Bool, true,
  false, List, [], ◌∷◌, arith, dec_lt, ltb, leb, if◌then◌else◌,
}
use swaylock.Loop.{Timespec, Timer}
use swaylock.Loop.Time.{IsNormal, nanoseconds}

pub data ℤ : Type 0 where
  pos : ℕ → ℤ
  negsuc : ℕ → ℤ

-- The difference of two numbers.
infixl 65 ◌⊖◌
abbrev pub ◌⊖◌ : ℕ → ℕ → ℤ
a ⊖ b = if leb b a then pos (a - b) else negsuc (b - a - 1)

infixl 65 ◌+ℤ◌
abbrev pub ◌+ℤ◌ : ℤ → ℤ → ℤ
pos a +ℤ pos b = pos (a + b)
pos a +ℤ negsuc b = a ⊖ suc b
negsuc a +ℤ pos b = b ⊖ suc a
negsuc a +ℤ negsuc b = negsuc (suc (a + b))

abbrev pub times : ℤ → ℕ → ℤ
times (pos a) n = pos (a * n)
times (negsuc a) n = 0 ⊖ suc a * n

-- Division in C, towards zero.
abbrev pub quotient : ℤ → ℕ → ℤ
quotient (pos a) n = pos (a / n)
quotient (negsuc a) n = 0 ⊖ suc a / n

-- What an `int` keeps of a number.
abbrev pub signed : ℕ → ℤ
signed w = if ltb w 2147483648 then pos w else negsuc (4294967295 - w)

abbrev pub to_int : ℤ → ℤ
to_int (pos a) = signed (a % 4294967296)
to_int (negsuc a) = signed (4294967295 - a % 4294967296)

abbrev pub less : ℤ → ℤ → Bool
less (pos a) (pos b) = ltb a b
less (pos a) (negsuc b) = false
less (negsuc a) (pos b) = true
less (negsuc a) (negsuc b) = ltb b a

-- timer_ms
unfoldable pub timer_ms : Timespec → Timespec → ℤ
timer_ms expiry now =
    let seconds = to_int (times (expiry.tv_sec ⊖ now.tv_sec) 1000) in
    to_int (seconds +ℤ quotient (expiry.tv_nsec ⊖ now.tv_nsec) 1000000)

-- The loop over the timers, from the `ms` found so far.
unfoldable pub least_ms : {C : Type 0} → List (Timer C) → Timespec → ℤ → ℤ
unfolding timer_ms
least_ms [] now ms = ms
least_ms (t ∷ ts) now ms =
    let t_ms = timer_ms t.expiry now in least_ms ts now (if less t_ms ms then t_ms else ms)

abbrev pub at_least_zero : ℤ → ℕ
at_least_zero (pos a) = a
at_least_zero (negsuc a) = 0

-- The timeout that is given to `poll`, in milliseconds.
unfoldable pub poll_timeout : {C : Type 0} → List (Timer C) → Timespec → ℕ
unfolding least_ms
poll_timeout ts now = at_least_zero (least_ms ts now (pos 2147483647))

-- Timers and the clock are less than 2 ^ 20 seconds apart.
abbrev pub IsNear : Timespec → Timespec → Type 0
IsNear expiry now =
    IsNormal expiry
    × (expiry.tv_sec ≤ now.tv_sec + 1048576)
    × (now.tv_sec ≤ expiry.tv_sec + 1048576)

-- What a number of milliseconds says of the time that is left.
abbrev pub Left : ℕ → ℕ → ℤ → Type 0
Left expiry now (pos m) =
    (now + m * 1000000 < expiry + 1000000) × (expiry < now + m * 1000000 + 1000000)
Left expiry now (negsuc m) = expiry < now

to_int-pos : (n : ℕ) → n < 2147483648 → to_int (pos n) ≡ pos n
to_int-pos n h = ground arith

to_int-negsuc : (n : ℕ) → n < 2147483648 → to_int (negsuc n) ≡ negsuc n
to_int-negsuc n h =
    let e : n % 4294967296 ≡ n = omega arith in
    let big : ltb (4294967295 - n) 2147483648 ≡ false = ground arith in
    rw (e, big) (ap negsuc (omega arith))

later : (a b : ℕ) → b ≤ a → a ⊖ b ≡ pos (a - b)
later a b h = ground arith

earlier : (a b : ℕ) → a < b → a ⊖ b ≡ negsuc (b - a - 1)
earlier a b h = ground arith

-- The two summands of `timer_ms`.
whole_seconds :
    (a b : ℕ)
    → a ≤ b + 1048576
    → b ≤ a + 1048576
    → to_int (times (a ⊖ b) 1000) ≡ a * 1000 ⊖ b * 1000
whole_seconds a b h k = elim (dec_lt a b) [
  | yes l ↦
      rw
        (
          earlier a b l,
          earlier (a * 1000) (b * 1000) (omega arith),
          earlier 0 (suc (b - a - 1) * 1000) (omega arith),
        )
        (to_int-negsuc (suc (b - a - 1) * 1000 - 0 - 1) (omega arith) ∙ ap negsuc (omega arith))
  | no g ↦
      rw (later a b (omega (arith, g)), later (a * 1000) (b * 1000) (omega (arith, g)))
        (to_int-pos ((a - b) * 1000) (omega arith) ∙ ap pos (omega arith))
]

within_second :
    (a b : ℕ)
    → a < 1000000000
    → b < 1000000000
    → (q : ℕ) × ((quotient (a ⊖ b) 1000000 ≡ pos q)
          × (b + q * 1000000 ≤ a)
          × (a < b + q * 1000000 + 1000000)
        ⊎ (quotient (a ⊖ b) 1000000 ≡ 0 ⊖ q)
          × (a + q * 1000000 ≤ b)
          × (b < a + q * 1000000 + 1000000))
within_second a b h k = elim (dec_lt a b) [
  | yes l ↦ (
    (b - a) / 1000000,
    inr (rw (earlier a b l) (ap (λ z. 0 ⊖ z / 1000000) (omega arith)), omega arith, omega arith),
  )
  | no g ↦ (
    (a - b) / 1000000,
    inl (rw (later a b (omega (arith, g))) refl, omega (arith, g), omega (arith, g)),
  )
]

same_difference : (a b c d : ℕ) → a + d ≡ c + b → a ⊖ b ≡ c ⊖ d
same_difference a b c d e = elim (dec_lt a b) [
  | yes l ↦ rw (earlier a b l, earlier c d (omega (arith, e, l))) (ap negsuc (omega (arith, e, l)))
  | no g ↦
      rw (later a b (omega (arith, g)), later c d (omega (arith, e, g)))
        (ap pos (omega (arith, e, g)))
]

add_later : (a b q : ℕ) → (a ⊖ b) +ℤ pos q ≡ (a + q) ⊖ b
add_later a b q = elim (dec_lt a b) [
  | yes l ↦ rw (earlier a b l) (same_difference q (suc (b - a - 1)) (a + q) b (omega arith))
  | no g ↦
      rw (later a b (omega (arith, g)), later (a + q) b (omega (arith, g)))
        (ap pos (omega (arith, g)))
]

add_earlier : (a b q : ℕ) → (a ⊖ b) +ℤ (0 ⊖ q) ≡ a ⊖ (b + q)
add_earlier a b zero =
    rw (later 0 0 (omega arith))
      (add_later a b 0 ∙ same_difference (a + 0) b a (b + 0) (omega arith))
add_earlier a b (suc p) = rw (earlier 0 (suc p) (omega arith)) (elim (dec_lt a b) [
  | yes l ↦ rw (earlier a b l, earlier a (b + suc p) (omega arith)) (ap negsuc (omega arith))
  | no g ↦
      rw (later a b (omega (arith, g)))
        (same_difference (a - b) (suc (suc p - 0 - 1)) a (b + suc p) (omega (arith, g)))
])

small : (a b : ℕ) → a < b + 2147483648 → b < a + 2147483648 → to_int (a ⊖ b) ≡ a ⊖ b
small a b h k = elim (dec_lt a b) [
  | yes l ↦ rw (earlier a b l) (to_int-negsuc (b - a - 1) (omega arith))
  | no g ↦ rw (later a b (omega (arith, g))) (to_int-pos (a - b) (omega (arith, g)))
]

Left-difference :
    (expiry now a b : ℕ)
    → now + a * 1000000 < expiry + b * 1000000 + 1000000
    → expiry + b * 1000000 < now + a * 1000000 + 1000000
    → Left expiry now (a ⊖ b)
Left-difference expiry now a b h k = elim (dec_lt a b) [
  | yes l ↦ rw (earlier a b l) (omega arith)
  | no g ↦ rw (later a b (omega (arith, g))) (omega (arith, g), omega (arith, g))
]

timer_ms-Left :
    (expiry now : Timespec)
    → IsNear expiry now
    → IsNormal now
    → Left (nanoseconds expiry) (nanoseconds now) (timer_ms expiry now)
unfolding timer_ms
timer_ms-Left expiry now (normal, late, early) normal' =
    let a = expiry.tv_sec in
    let b = now.tv_sec in
    let (q, found) = within_second expiry.tv_nsec now.tv_nsec normal normal' in
    let seconds = whole_seconds a b late early in
    elim found [
      | inl (e, low, high) ↦
          rw
            (
              seconds,
              e,
              add_later (a * 1000) (b * 1000) q,
              small (a * 1000 + q) (b * 1000) (omega arith) (omega arith),
            )
            (Left-difference (nanoseconds expiry) (nanoseconds now) (a * 1000 + q) (b * 1000)
              (omega arith) (omega arith))
      | inr (e, low, high) ↦
          rw
            (
              seconds,
              e,
              add_earlier (a * 1000) (b * 1000) q,
              small (a * 1000) (b * 1000 + q) (omega arith) (omega arith),
            )
            (Left-difference (nanoseconds expiry) (nanoseconds now) (a * 1000) (b * 1000 + q)
              (omega arith) (omega arith))
    ]
