-- ===== src/Unicode.antt =====
-- unicode.c: the size of a code point in UTF-8, the encoder, which writes into a buffer, and the
-- size that a lead byte announces. A `char` holds a byte, 0 to 255.
pub mod Encode
pub mod Untouched
pub mod Decode
pub mod Size
use swaylock.Base.{
  ℕ, zero, suc, ◌+◌, ◌-◌, ◌/◌, ◌%◌, ◌^◌, Option, none, some, List, [], ◌∷◌, ltb, ◌==◌,
  if◌then◌else◌, set,
}
use Prim.Native.Nat.{bit_and, bit_or}

unfoldable pub utf8_chsize : ℕ → ℕ
utf8_chsize ch =
    if ltb ch 0x80 then 1 else if ltb ch 0x800 then 2 else if ltb ch 0x10000 then 3 else 4

-- `first` and `len` of `utf8_encode`.
unfoldable pub lead_mark : ℕ → ℕ
lead_mark ch =
    if ltb ch 0x80 then 0 else if ltb ch 0x800 then 0xc0 else if ltb ch 0x10000 then 0xe0 else 0xf0

unfoldable pub encoded_len : ℕ → ℕ
encoded_len ch =
    if ltb ch 0x80 then 1 else if ltb ch 0x800 then 2 else if ltb ch 0x10000 then 3 else 4

-- for (i = len - 1; i > 0; --i): the buffer and what is left of `ch`. The string starts at `off`.
unfoldable pub encode_tail : ℕ → ℕ → List ℕ → ℕ → List ℕ × ℕ
encode_tail zero off buf ch = (buf, ch)
encode_tail (suc i) off buf ch =
    encode_tail i off (set buf (off + suc i) (bit_or (bit_and ch 0x3f) 0x80 % 256)) (ch / 2 ^ 6)

-- The buffer after the call, and the length returned.
unfoldable pub utf8_encode : List ℕ → ℕ → ℕ → List ℕ × ℕ
unfolding lead_mark encoded_len encode_tail
utf8_encode buf off ch =
    let (tailed, rest) = encode_tail (encoded_len ch - 1) off buf ch in
    (set tailed off (bit_or rest (lead_mark ch) % 256), encoded_len ch)

-- A row of `sizes`; `none` stands for the octets -1.
pub record SizeRow : Type 0 where
  pub mask : ℕ
  pub result : ℕ
  pub octets : Option ℕ

abbrev size_row : ℕ → ℕ → Option ℕ → SizeRow
size_row m r o = record { mask = m; result = r; octets = o }

unfoldable pub sizes : List SizeRow
sizes =
    size_row 0x80 0x00 (some 1)
    ∷ size_row 0xE0 0xC0 (some 2)
    ∷ size_row 0xF0 0xE0 (some 3)
    ∷ size_row 0xF8 0xF0 (some 4)
    ∷ size_row 0xFC 0xF8 (some 5)
    ∷ size_row 0xFE 0xF8 (some 6)
    ∷ size_row 0x80 0x80 none
    ∷ []

unfoldable pub find_size : List SizeRow → ℕ → Option ℕ
find_size [] c = none
find_size (row ∷ rows) c = if bit_and c row.mask == row.result then row.octets else find_size rows c

-- `utf8_size` reads only the first byte of its string; `none` is -1.
unfoldable pub utf8_size : ℕ → Option ℕ
unfolding sizes find_size
utf8_size c = find_size sizes c
