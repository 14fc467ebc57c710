-- ===== src/Color.antt =====
-- Colour arguments (main.c) and numbers in them: `strtol` and `strtoul` of the C library, as far as
-- the program uses them.
pub mod Parse
pub mod Channels
use swaylock.Base.{
  ℕ, ◌+◌, ◌-◌, ◌*◌, ◌^◌, Bool, true, false, not, ◌&&◌, ◌||◌, Option, none, some, List, [], ◌∷◌, ltb,
  leb, ◌==◌, if◌then◌else◌, length,
}
use swaylock.Base.Words.{u32}
use Prim.Native.Nat.{bit_or}

-- isspace, in the C locale.
unfoldable pub is_space : ℕ → Bool
is_space c = c == b' ' || leb 9 c && leb c 13

unfoldable pub skip_spaces : List ℕ → List ℕ
unfolding is_space
skip_spaces [] = []
skip_spaces (c ∷ s) = let rest = skip_spaces s in if is_space c then rest else c ∷ s

-- The value of a digit in any base up to 36.
unfoldable pub digit_value : ℕ → Option ℕ
digit_value c =
    if leb b'0' c && leb c b'9'
    then some (c - b'0')
    else if leb b'a' c && leb c b'z'
    then some (c - b'a' + 10)
    else if leb b'A' c && leb c b'Z'
    then some (c - b'A' + 10)
    else none

-- The value of the digits that a text starts with.
unfoldable pub digits_from : ℕ → ℕ → List ℕ → ℕ
unfolding digit_value
digits_from base acc [] = acc
digits_from base acc (c ∷ s) = elim (digit_value c) [
  | none ↦ acc
  | some d ↦ elim (ltb d base) [ true ↦ digits_from base (acc * base + d) s | false ↦ acc ]
]

-- An optional sign: whether it is a minus, and what follows.
unfoldable pub read_sign : List ℕ → Bool × List ℕ
read_sign [] = (false, [])
read_sign (c ∷ s) =
    if c == b'-' then (true, s) else if c == b'+' then (false, s) else (false, c ∷ s)

abbrev pub is_x : ℕ → Bool
is_x c = c == b'x' || c == b'X'

abbrev pub is_hex_digit : ℕ → Bool
is_hex_digit c = leb b'0' c && leb c b'9' || leb b'a' c && leb c b'f' || leb b'A' c && leb c b'F'

-- The prefix 0x counts only before a hexadecimal digit.
unfoldable pub skip_hex_prefix : List ℕ → Option (List ℕ)
skip_hex_prefix (z ∷ x ∷ d ∷ s) =
    if z == b'0' && is_x x && is_hex_digit d then some (d ∷ s) else none
skip_hex_prefix _ = none

-- Base 0 without a hexadecimal prefix: a leading zero means octal.
unfoldable pub unprefixed : List ℕ → ℕ
unfolding digits_from
unprefixed [] = 0
unprefixed (c ∷ s) = if c == b'0' then digits_from 8 0 (c ∷ s) else digits_from 10 0 (c ∷ s)

-- The magnitude that `strtol` reads in base 16, in base 10, or, for base 0, in the base of its prefix.
unfoldable pub magnitude : ℕ → List ℕ → ℕ
unfolding skip_hex_prefix digits_from unprefixed
magnitude base s = if base == 10 then digits_from 10 0 s else elim (skip_hex_prefix s) [
  | some rest ↦ digits_from 16 0 rest
  | none ↦ if base == 16 then digits_from 16 0 s else unprefixed s
]

-- The result as a `uint32_t`, for a number within the range of a `long`.
unfoldable pub strtol_u32 : ℕ → List ℕ → ℕ
unfolding read_sign skip_spaces magnitude
strtol_u32 base text =
    let (negative, s) = read_sign (skip_spaces text) in
    let m = magnitude base s in if negative then u32 (2 ^ 32 - u32 m) else u32 m

-- A text without a leading '#'.
unfoldable pub skip_hash : List ℕ → List ℕ
skip_hash [] = []
skip_hash (c ∷ s) = if c == b'#' then s else c ∷ s

unfoldable pub parse_color : List ℕ → ℕ
unfolding skip_hash strtol_u32
parse_color text =
    let color = skip_hash text in
    if not (length color == 6) && not (length color == 8)
    then 0xFFFFFFFF
    else (let res = strtol_u32 16 color in
        if length color == 6 then bit_or (u32 (res * 2 ^ 8)) 0xFF else res)
