-- ===== src/Base/Bits.antt =====
-- `&` with a low mask and `|` of disjoint fields, as arithmetic at every width. Both are read off
-- the digit recursion that the native operations stand for, at any sufficient fuel.
use Prim.Native.Nat.{
  ℕ, zero, suc, ◌+◌, ◌*◌, ◌/◌, ◌%◌, ◌^◌, ◌≤◌, ◌<◌, min, max, digits, bit_and, bit_or,
  bit_and-bitwise, bit_or-bitwise,
}
use mathlib.Core.Path.{◌≡◌, refl, ap, ◌∙◌}
use native.Mathlib.Nat.{pow-succ', one-le-pow, div-add-mod', mod-lt}
use native.Mathlib.Omega.{arith}

abbrev and_digits : ℕ → ℕ → ℕ → ℕ
and_digits = digits (λ _. 0) min

abbrev or_digits : ℕ → ℕ → ℕ → ℕ
or_digits = digits (λ b. b) max

and_digits-zero : (n a : ℕ) → a ≤ n → and_digits n a 0 ≡ 0
and_digits-zero zero zero h = refl
and_digits-zero zero (suc a) h = absurd (omega arith)
and_digits-zero (suc n) zero h = refl
and_digits-zero (suc n) (suc a) h = omega (arith, and_digits-zero n (suc a / 2) (omega arith))

double_shift : (q k : ℕ) → q * 2 ^ suc k ≡ 2 * (q * 2 ^ k)
double_shift q k = omega (arith, ap (λ (t : ℕ). q * t) (pow-succ' 2 k))

and_digits-mask :
    (k n a q r m : ℕ) → a ≤ n → a ≡ q * 2 ^ k + r → r < 2 ^ k → m + 1 ≡ 2 ^ k → and_digits n a m ≡ r
and_digits-mask zero n a q r zero h e lt w = omega (arith, and_digits-zero n a h)
and_digits-mask zero n a q r (suc m) h e lt w = absurd (omega arith)
and_digits-mask (suc k) zero zero q r m h e lt w = omega arith
and_digits-mask (suc k) zero (suc a) q r m h e lt w = absurd (omega arith)
and_digits-mask (suc k) (suc n) zero q r m h e lt w = omega arith
and_digits-mask (suc k) (suc n) (suc a) q r m h e lt w =
    let d = double_shift q k in
    let p = pow-succ' 2 k in
    omega (
      arith,
      one-le-pow k 2,
      and_digits-mask k n (suc a / 2) q (r / 2) (m / 2) (omega arith) (omega arith) (omega arith)
          (omega (arith, one-le-pow k 2)),
    )

pub bit_and-mask : (k a m : ℕ) → m + 1 ≡ 2 ^ k → bit_and a m ≡ a % 2 ^ k
bit_and-mask k a m e =
    bit_and-bitwise a m
    ∙ and_digits-mask k a a (a / 2 ^ k) (a % 2 ^ k) m (omega arith)
        (omega (arith, div-add-mod' a (2 ^ k))) (mod-lt a (omega (arith, one-le-pow k 2))) e

or_digits-zero : (n a : ℕ) → a ≤ n → or_digits n a 0 ≡ a
or_digits-zero zero zero h = refl
or_digits-zero zero (suc a) h = absurd (omega arith)
or_digits-zero (suc n) zero h = refl
or_digits-zero (suc n) (suc a) h = omega (arith, or_digits-zero n (suc a / 2) (omega arith))

or_digits-fields : (k n a q r : ℕ) → a ≤ n → a ≡ q * 2 ^ k → r < 2 ^ k → or_digits n a r ≡ a + r
or_digits-fields zero n a q zero h e lt = omega (arith, or_digits-zero n a h)
or_digits-fields zero n a q (suc r) h e lt = absurd (omega arith)
or_digits-fields (suc k) zero zero q r h e lt = omega arith
or_digits-fields (suc k) zero (suc a) q r h e lt = absurd (omega arith)
or_digits-fields (suc k) (suc n) zero q r h e lt = omega arith
or_digits-fields (suc k) (suc n) (suc a) q r h e lt = ground (
  arith,
  double_shift q k,
  or_digits-fields k n (suc a / 2) q (r / 2) (omega arith) (omega (arith, double_shift q k))
      (omega (arith, pow-succ' 2 k)),
)

-- A multiple of 2 ^ k and a number below 2 ^ k have no bit in common.
pub bit_or-fields : (k a q r : ℕ) → a ≡ q * 2 ^ k → r < 2 ^ k → bit_or a r ≡ a + r
bit_or-fields k a q r e lt = bit_or-bitwise a r ∙ or_digits-fields k a a q r (omega arith) e lt
