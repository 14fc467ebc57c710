-- ===== src/Color/Parse.antt =====
-- What `parse_color` makes of a colour.
use swaylock.Base.{
  ℕ, ◌+◌, ◌-◌, ◌*◌, ◌^◌, ◌≤◌, ◌<◌, ◌≡◌, refl, ap, ◌∙◌, ◌⊎◌, inl, inr, Bool, true, false, not, ◌&&◌,
  Option, none, some, List, [], ◌∷◌, arith, ltb, leb, ◌==◌, if◌then◌else◌, lt→ltb, length, All,
}
use swaylock.Base.Words.{u32}
use swaylock.Base.Bits.{bit_or-fields}
use Prim.Native.Nat.{bit_or}
use native.Mathlib.Nat.{pow-succ', mul-le-mul_right}
use swaylock.Color.{
  digit_value, digits_from, skip_spaces, read_sign, strtol_u32, magnitude, skip_hex_prefix,
  skip_hash, parse_color,
}

-- A hexadecimal digit, of either case.
abbrev pub IsDigit : ℕ → Type 0
IsDigit c = (b'0' ≤ c) × (c ≤ b'9') ⊎ (b'a' ≤ c) × (c ≤ b'f') ⊎ (b'A' ≤ c) × (c ≤ b'F')

abbrev pub hex_value : ℕ → ℕ
hex_value c = if leb c b'9' then c - b'0' else if leb c b'F' then c - b'A' + 10 else c - b'a' + 10

pub hex_value-lt : (c : ℕ) → IsDigit c → hex_value c < 16
hex_value-lt c h = ground arith

-- The number that the digits stand for, after those that gave `acc`.
abbrev pub number : ℕ → List ℕ → ℕ
number acc [] = acc
number acc (d ∷ ds) = number (acc * 16 + hex_value d) ds

digit_value-digit : (d : ℕ) → IsDigit d → digit_value d ≡ some (hex_value d)
unfolding digit_value
digit_value-digit d h = ground arith

digits_from-digits :
    (acc : ℕ) (ds : List ℕ) → All IsDigit ds → digits_from 16 acc ds ≡ number acc ds
unfolding digits_from
digits_from-digits acc [] h = refl
digits_from-digits acc (d ∷ ds) (h, hs) =
    ap (λ r. result r) (digit_value-digit d h)
    ∙ (ap (λ t. bounded (hex_value d) t) (lt→ltb (hex_value d) 16 (hex_value-lt d h))
        ∙ digits_from-digits (acc * 16 + hex_value d) ds hs)
  where
    bounded : ℕ → Bool → ℕ
    bounded e true = digits_from 16 (acc * 16 + e) ds
    bounded e false = acc

    result : Option ℕ → ℕ
    result none = acc
    result (some e) = bounded e (ltb e 16)

skip_spaces-digit : (d : ℕ) (s : List ℕ) → IsDigit d → skip_spaces (d ∷ s) ≡ d ∷ s
unfolding skip_spaces
skip_spaces-digit d s h = ground arith

read_sign-digit : (d : ℕ) (s : List ℕ) → IsDigit d → read_sign (d ∷ s) ≡ (false, d ∷ s)
unfolding read_sign
read_sign-digit d s h = ground arith

skip_hash-digit : (d : ℕ) (s : List ℕ) → IsDigit d → skip_hash (d ∷ s) ≡ d ∷ s
unfolding skip_hash
skip_hash-digit d s h = ground arith

skip_hex_prefix-digit : (a b : ℕ) (s : List ℕ) → IsDigit b → skip_hex_prefix (a ∷ b ∷ s) ≡ none
unfolding skip_hex_prefix
skip_hex_prefix-digit a b [] h = refl
skip_hex_prefix-digit a b (c ∷ s) h = ground arith

magnitude-digits :
    (a b : ℕ) (ds : List ℕ)
    → All IsDigit (a ∷ b ∷ ds)
    → magnitude 16 (a ∷ b ∷ ds) ≡ number 0 (a ∷ b ∷ ds)
unfolding magnitude
magnitude-digits a b ds h =
    rw (skip_hex_prefix-digit a b ds h.1.0) (digits_from-digits 0 (a ∷ b ∷ ds) h)

-- A word of at least two digits has no space, sign or prefix before its number.
strtol_u32-digits :
    (a b : ℕ) (ds : List ℕ)
    → All IsDigit (a ∷ b ∷ ds)
    → strtol_u32 16 (a ∷ b ∷ ds) ≡ u32 (number 0 (a ∷ b ∷ ds))
unfolding strtol_u32
strtol_u32-digits a b ds h =
    let s = b ∷ ds in
    ap (λ r. result r) (ap (λ t. read_sign t) (skip_spaces-digit a s h.0) ∙ read_sign-digit a s h.0)
    ∙ ap (λ n. u32 n) (magnitude-digits a b ds h)
  where
    result : Bool × List ℕ → ℕ
    result (negative, s) =
        if negative then u32 (2 ^ 32 - u32 (magnitude 16 s)) else u32 (magnitude 16 s)

number-lt : (acc : ℕ) (ds : List ℕ) → All IsDigit ds → number acc ds < (acc + 1) * 16 ^ length ds
number-lt acc [] h = omega arith
number-lt acc (d ∷ ds) (h, hs) = omega (
  arith,
  number-lt (acc * 16 + hex_value d) ds hs,
  ap (λ (t : ℕ). (acc + 1) * t) (pow-succ' 16 (length ds)),
  mul-le-mul_right (16 ^ length ds) below,
)
  where
    below : acc * 16 + hex_value d + 1 ≤ (acc + 1) * 16
    below = omega (arith, hex_value-lt d h)

-- A colour with or without a leading hash.
abbrev pub hashed : Bool → List ℕ → List ℕ
hashed true s = b'#' ∷ s
hashed false s = s

skip_hash-hashed :
    (hash : Bool) (d : ℕ) (s : List ℕ) → IsDigit d → skip_hash (hashed hash (d ∷ s)) ≡ d ∷ s
unfolding skip_hash
skip_hash-hashed true d s h = refl
skip_hash-hashed false d s h = skip_hash-digit d s h

-- What `parse_color` returns for a text of a length and its number.
abbrev made : ℕ → ℕ → ℕ
made len res =
    if not (len == 6) && not (len == 8)
    then 0xFFFFFFFF
    else if len == 6
    then bit_or (u32 (res * 2 ^ 8)) 0xFF
    else res

made-six : (n : ℕ) → n < 16 ^ 6 → made 6 (u32 n) ≡ n * 256 + 255
made-six n h = bit_or-fields 8 (u32 (u32 n * 2 ^ 8)) n 255 (omega arith) (omega arith) ∙ omega arith

made-eight : (n : ℕ) → n < 16 ^ 8 → made 8 (u32 n) ≡ n
made-eight n h = omega arith

-- The colour that six or eight digits stand for: six are made opaque.
abbrev pub color_of : List ℕ → ℕ
color_of ds = if length ds == 6 then number 0 ds * 256 + 255 else number 0 ds

-- With or without a leading hash, eight hexadecimal digits are the colour that they stand for, and
-- six are the colour that they stand for, made opaque.
pub parse_color-digits :
    (hash : Bool) (a b : ℕ) (ds : List ℕ)
    → All IsDigit (a ∷ b ∷ ds)
    → length ds ≡ 4 ⊎ length ds ≡ 6
    → parse_color (hashed hash (a ∷ b ∷ ds)) ≡ color_of (a ∷ b ∷ ds)
unfolding parse_color
parse_color-digits hash a b ds h len =
    let n = number 0 (a ∷ b ∷ ds) in
    let plain = skip_hash-hashed hash a (b ∷ ds) h.0 in
    let read = strtol_u32-digits a b ds h in
    let below = number-lt 0 (a ∷ b ∷ ds) h in
    ap (λ t. made (length t) (strtol_u32 16 t)) plain
    ∙ (ap (λ n. made (length (a ∷ b ∷ ds)) n) read ∙ elim len [
      | inl e ↦ rw e (made-six n (rw e at below))
      | inr e ↦ rw e (made-eight n (rw e at below))
    ])
