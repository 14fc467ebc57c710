-- ===== src/Pixbuf/Premul.antt =====
-- The premultiplication of a colour by its alpha.
use swaylock.Base.{ℕ, ◌+◌, ◌*◌, ◌/◌, ◌^◌, ◌≤◌, ◌<◌, ◌≡◌, arith}
use native.Mathlib.Nat.{mul-le-mul}
use swaylock.Pixbuf.{premul_alpha}

-- The quotient by 255, rounded to the nearest number: 255 is odd, so there are no ties.
abbrev pub over_255 : ℕ → ℕ
over_255 z = (2 * z + 255) / 510

-- For every product of two bytes, and as far as the comment in the source says.
rounds : (z : ℕ) → z ≤ 0xfe02 → (z + 0x80 + (z + 0x80) / 2 ^ 8) / 2 ^ 8 ≡ over_255 z
rounds z h = omega arith

pub premul_alpha_lem : (a b : ℕ) → a < 256 → b < 256 → premul_alpha a b ≡ over_255 (a * b)
unfolding premul_alpha
premul_alpha_lem a b ha hb = rounds (a * b) (omega (arith, below))
  where
    below : a * b ≤ 255 * 255
    below = mul-le-mul {n₂ = 255} {m₂ = 255} (omega arith) (omega arith)
