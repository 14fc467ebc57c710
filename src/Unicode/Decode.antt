-- ===== src/Unicode/Decode.antt =====
-- A UTF-8 decoder, written from the standard, that reads back what `utf8_encode` writes.
use swaylock.Base.{
  ℕ, zero, suc, ◌+◌, ◌-◌, ◌*◌, ◌^◌, ◌≤◌, ◌<◌, ◌≡◌, refl, ap, ◌∙◌, Bool, ◌&&◌, Option, none, some,
  List, [], ◌∷◌, ◌++◌, arith, ltb, leb, if◌then◌else◌, length, take, drop,
}
use swaylock.Unicode.{utf8_chsize, utf8_encode}
use swaylock.Unicode.Encode.{encoding, utf8_encode_lem}

is_tail : ℕ → Bool
is_tail b = leb 128 b && ltb b 192

-- The payload of a continuation byte joins the bits read so far.
abbrev joined : ℕ → ℕ → ℕ
joined acc b = acc * 64 + (b - 128)

-- `n` continuation bytes.
unfoldable pub decode_tail : ℕ → ℕ → List ℕ → Option (ℕ × List ℕ)
unfolding is_tail
decode_tail zero acc bytes = some (acc, bytes)
decode_tail (suc n) acc [] = none
decode_tail (suc n) acc (b ∷ bytes) =
    let rest = decode_tail n (joined acc b) bytes in if is_tail b then rest else none

-- One code point and the bytes after it.
unfoldable pub decode : List ℕ → Option (ℕ × List ℕ)
unfolding decode_tail
decode [] = none
decode (b ∷ bytes) =
    if ltb b 0x80
    then some (b, bytes)
    else if ltb b 0xc0
    then none
    else if ltb b 0xe0
    then decode_tail 1 (b - 0xc0) bytes
    else if ltb b 0xf0
    then decode_tail 2 (b - 0xe0) bytes
    else if ltb b 0xf8
    then decode_tail 3 (b - 0xf0) bytes
    else none

decode-encoding :
    (ch : ℕ) (rest : List ℕ) → ch < 2 ^ 21 → decode (encoding ch ++ rest) ≡ some (ch, rest)
unfolding decode encoding
decode-encoding ch rest h = ground arith

drop-prefix : (n : ℕ) (xs ys : List ℕ) → n ≤ length xs → drop n (take n xs ++ ys) ≡ ys
drop-prefix zero xs ys h = refl
drop-prefix (suc n) [] ys h = absurd (omega arith)
drop-prefix (suc n) (x ∷ xs) ys h = drop-prefix n xs ys (omega arith)

-- Let `utf8_encode` write a code point below 2^21 at an offset of a buffer with room for it. Then the
-- bytes from the offset on, as many as the size that it returns, decode to the code point, whatever
-- follows them; and the size is that of `utf8_chsize`.
pub decode-utf8_encode :
    (buf : List ℕ) (off ch : ℕ) (rest : List ℕ)
    → ch < 2 ^ 21
    → off + utf8_chsize ch ≤ length buf
    → let (buf', size) = utf8_encode buf off ch in
      (decode (drop off (take (off + size) buf') ++ rest) ≡ some (ch, rest))
      × (size ≡ utf8_chsize ch)
decode-utf8_encode buf off ch rest small room =
    let (bytes, size) = utf8_encode_lem buf off ch small room in
    let written : drop off (take (off + (utf8_encode buf off ch).1) (utf8_encode buf off ch).0)
        ≡ encoding ch =
      ap (λ n. drop off (take (off + n) (utf8_encode buf off ch).0)) size
      ∙ (ap (λ t. drop off t) bytes ∙ drop-prefix off buf (encoding ch) (omega arith)) in
    (ap (λ t. decode (t ++ rest)) written ∙ decode-encoding ch rest small, size)
