-- ===== src/Base/Words.antt =====
-- Machine words as native numbers, and the bit operations of the source by tables: the operations
-- compute at numerals only, so a law over a small range is checked value by value.
use Prim.Native.Nat.{ℕ, zero, suc, ◌+◌, ◌<◌, ◌≤◌, ◌^◌, ◌%◌}
use mathlib.Core.Path.{◌≡◌, ap}
use mathlib.Core.Bool.{Bool, true, ◌&&◌}
use mathlib.Core.Logic.{inl, inr}
use native.Mathlib.Omega.{arith}
use swaylock.Base.Tests.{◌==◌, ==_iff, Bool-cases}

abbrev pub u32 : ℕ → ℕ
u32 n = n % 2 ^ 32

-- A test on `count` numbers in a row.
passes : (ℕ → Bool) → ℕ → ℕ → Bool
passes test zero start = true
passes test (suc count) start = test start && passes test count (suc start)

passes-at :
    (test : ℕ → Bool) (count start x : ℕ)
    → start ≤ x
    → x < start + count
    → passes test count start ≡ true
    → test x ≡ true
unfolding passes
passes-at test zero start x low high ok = absurd (omega arith)
passes-at test (suc count) start x low high ok = elim (Bool-cases (x == start)) [
  | inl e ↦ ground (arith, ap (λ k. test k) ((==_iff x start).0 e))
  | inr e ↦ passes-at test count (suc start) x (ground arith) (omega arith) (ground arith)
]

unfoldable pub all_below : ℕ → (ℕ → Bool) → Bool
unfolding passes
all_below n test = passes test n 0

pub all_below_sound :
    (n : ℕ) (test : ℕ → Bool) (x : ℕ) → all_below n test ≡ true → x < n → test x ≡ true
unfolding all_below
all_below_sound n test x ok below = passes-at test n 0 x (omega arith) (omega arith) ok

-- Two functions agree below a bound if a run over all arguments finds no difference.
pub table_eq :
    (n : ℕ) (f g : ℕ → ℕ) (x : ℕ) → all_below n (λ y. f y == g y) ≡ true → x < n → f x ≡ g x
table_eq n f g x h lt = (==_iff (f x) (g x)).0 (all_below_sound n (λ y. f y == g y) x h lt)
