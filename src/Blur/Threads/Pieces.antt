-- ===== src/Blur/Threads/Pieces.antt =====
-- The pieces of the threads cut the columns (or rows) into consecutive parts.
use swaylock.Base.{
  ℕ, zero, suc, ◌*◌, ◌/◌, ◌≤◌, ◌<◌, ◌≡◌, refl, sym, ap, ◌∙◌, true, false, arith, dec_lt, ℕ_discrete,
  ◌==◌,
}
use native.Mathlib.Nat.{
  le-div_iff_mul-le, div-mul-le_self, mul-div_cancel, mul-zero, zero-div, mul-le-mul_left,
}
use swaylock.Blur.Threads.{piece_start, piece_end}

module _ (total n : ℕ) (some_thread : 0 < n) where
  pub ends_at : (t : ℕ) → piece_end total n t ≡ piece_start total n (suc t)
  unfolding piece_start piece_end
  ends_at t = elim (ℕ_discrete (suc t) n) [
    | yes e ↦
        let b : (suc t == n) ≡ true = ground arith in
        rw b (sym (ap (λ u. total * u / n) e ∙ mul-div_cancel total some_thread))
    | no ne ↦ let b : (suc t == n) ≡ false = ground arith in rw b refl
  ]

  starts_in_order : (t u : ℕ) → t ≤ u → piece_start total n t ≤ piece_start total n u
  unfolding piece_start
  starts_in_order t u h = (le-div_iff_mul-le some_thread).1 (
      let below = div-mul-le_self (total * t) n in
      let grows : total * t ≤ total * u = mul-le-mul_left total h in omega arith)

  starts_at_zero : piece_start total n 0 ≡ 0
  unfolding piece_start
  starts_at_zero = simp (mul-zero total) (zero-div n)

  last_end : piece_start total n n ≡ total
  unfolding piece_start
  last_end = mul-div_cancel total some_thread

  -- The piece of one thread ends before that of a later one starts.
  pub pieces_apart : (t u : ℕ) → t < u → piece_end total n t ≤ piece_start total n u
  pieces_apart t u h = omega (arith, ends_at t, starts_in_order (suc t) u (omega arith))

  pub start-le_end : (t : ℕ) → piece_start total n t ≤ piece_end total n t
  start-le_end t = omega (arith, ends_at t, starts_in_order t (suc t) (omega arith))

  pub piece_end-le : (t : ℕ) → t < n → piece_end total n t ≤ total
  piece_end-le t h = omega (arith, ends_at t, starts_in_order (suc t) n (omega arith), last_end)

  piece_before :
      (bound i : ℕ)
      → i < piece_start total n bound
      → (t : ℕ) × (t < bound) × (piece_start total n t ≤ i) × (i < piece_end total n t)
  piece_before zero i h = absurd (omega (arith, starts_at_zero))
  piece_before (suc t) i h = elim (dec_lt i (piece_start total n t)) [
    | yes l ↦ let found = piece_before t i l in (found.0, omega (arith, found.1), found.2, found.3)
    | no g ↦ (t, omega arith, omega (arith, g), omega (arith, ends_at t))
  ]

  -- Every column (or row) is in the piece of a thread.
  pub piece_of :
      (i : ℕ)
      → i < total
      → (t : ℕ) × (t < n) × (piece_start total n t ≤ i) × (i < piece_end total n t)
  piece_of i h = piece_before n i (omega (arith, last_end))
