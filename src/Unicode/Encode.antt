-- ===== src/Unicode/Encode.antt =====
-- The bytes that the encoder writes, and an independent decoder that reads them back.
use swaylock.Base.{
  ℕ, zero, suc, ◌+◌, ◌/◌, ◌%◌, ◌^◌, ◌≤◌, ◌<◌, ◌≡◌, refl, ap, ◌∙◌, inl, inr, true, List, [], ◌∷◌,
  ◌++◌, arith, ltb, ◌==◌, if◌then◌else◌, ltb→lt, lt→ltb, le→ltb, Bool-cases, length, set, take,
}
use swaylock.Base.Words.{all_below, table_eq}
use swaylock.Base.Bits.{bit_and-mask}
use Prim.Native.Nat.{bit_and, bit_or}
use native.Mathlib.Nat.{suc-add}
use swaylock.Unicode.{utf8_chsize, encoded_len, encode_tail, utf8_encode}

-- A continuation byte: the six bits of `x` above the tag 10.
abbrev pub continuation : ℕ → ℕ
continuation x = 128 + x % 64

-- The UTF-8 bytes of a code point, as the standard states them.
unfoldable pub encoding : ℕ → List ℕ
encoding ch =
    if ltb ch 0x80
    then ch ∷ []
    else if ltb ch 0x800
    then (192 + ch / 64) ∷ continuation ch ∷ []
    else if ltb ch 0x10000
    then (224 + ch / 4096) ∷ continuation (ch / 64) ∷ continuation ch ∷ []
    else (240 + ch / 262144)
      ∷ continuation (ch / 4096)
      ∷ continuation (ch / 64)
      ∷ continuation ch
      ∷ []

continuation_table : all_below 64 (λ y. bit_or y 0x80 % 256 == 128 + y) ≡ true
unfolding all_below
continuation_table = refl

tail_byte : (ch : ℕ) → bit_or (bit_and ch 0x3f) 0x80 % 256 ≡ continuation ch
tail_byte ch =
    ap (λ t. bit_or t 0x80 % 256) (bit_and-mask 6 ch 63 refl)
    ∙ table_eq 64 (λ y. bit_or y 0x80 % 256) (λ y. 128 + y) (ch % 64) continuation_table
        (omega arith)

lead_table_two : all_below 32 (λ y. bit_or y 0xc0 % 256 == 192 + y) ≡ true
unfolding all_below
lead_table_two = refl

lead_table_three : all_below 16 (λ y. bit_or y 0xe0 % 256 == 224 + y) ≡ true
unfolding all_below
lead_table_three = refl

lead_table_four : all_below 8 (λ y. bit_or y 0xf0 % 256 == 240 + y) ≡ true
unfolding all_below
lead_table_four = refl

lead_table_one : all_below 128 (λ y. bit_or y 0 % 256 == y) ≡ true
unfolding all_below
lead_table_one = refl

-- Writes of up to four neighbouring bytes from the last to the first replace what follows a prefix.
write_two :
    (xs : List ℕ) (off a b : ℕ)
    → off + 2 ≤ length xs
    → take (off + 2) (set (set xs (off + 1) b) off a) ≡ take off xs ++ a ∷ b ∷ []
write_two [] off a b h = absurd (omega arith)
write_two (x ∷ []) zero a b h = absurd (omega arith)
write_two (x ∷ y ∷ xs) zero a b h = refl
write_two (x ∷ xs) (suc off) a b h =
    simp suc-add (ap (λ t. x ∷ t) (write_two xs off a b (omega arith)))

write_three :
    (xs : List ℕ) (off a b c : ℕ)
    → off + 3 ≤ length xs
    → take (off + 3) (set (set (set xs (off + 2) c) (off + 1) b) off a)
      ≡ take off xs ++ a ∷ b ∷ c ∷ []
write_three [] off a b c h = absurd (omega arith)
write_three (x ∷ []) zero a b c h = absurd (omega arith)
write_three (x ∷ y ∷ []) zero a b c h = absurd (omega arith)
write_three (x ∷ y ∷ z ∷ xs) zero a b c h = refl
write_three (x ∷ xs) (suc off) a b c h =
    simp suc-add (ap (λ t. x ∷ t) (write_three xs off a b c (omega arith)))

write_four :
    (xs : List ℕ) (off a b c d : ℕ)
    → off + 4 ≤ length xs
    → take (off + 4) (set (set (set (set xs (off + 3) d) (off + 2) c) (off + 1) b) off a)
      ≡ take off xs ++ a ∷ b ∷ c ∷ d ∷ []
write_four [] off a b c d h = absurd (omega arith)
write_four (x ∷ []) zero a b c d h = absurd (omega arith)
write_four (x ∷ y ∷ []) zero a b c d h = absurd (omega arith)
write_four (x ∷ y ∷ z ∷ []) zero a b c d h = absurd (omega arith)
write_four (x ∷ y ∷ z ∷ w ∷ xs) zero a b c d h = refl
write_four (x ∷ xs) (suc off) a b c d h =
    simp suc-add (ap (λ t. x ∷ t) (write_four xs off a b c d (omega arith)))

write_one :
    (xs : List ℕ) (off a : ℕ)
    → off + 1 ≤ length xs
    → take (off + 1) (set xs off a) ≡ take off xs ++ a ∷ []
write_one [] off a h = absurd (omega arith)
write_one (x ∷ xs) zero a h = refl
write_one (x ∷ xs) (suc off) a h = simp suc-add (ap (λ t. x ∷ t) (write_one xs off a (omega arith)))

module _ (buf : List ℕ) (off ch : ℕ) where
  -- The statement of `utf8_encode_lem` with the branch's length and bytes.
  abbrev Writes : ℕ → List ℕ → Type 0
  Writes n bytes =
      (take (off + n) (utf8_encode buf off ch).0 ≡ take off buf ++ bytes)
      × ((utf8_encode buf off ch).1 ≡ n)

  encode_one : ch < 0x80 → off + 1 ≤ length buf → Writes 1 (ch ∷ [])
  unfolding utf8_encode
  encode_one h room =
      rw
        (
          lt→ltb ch 0x80 h,
          encode_tail,
          table_eq 128 (λ y. bit_or y 0 % 256) (λ y. y) ch lead_table_one h,
        )
        (write_one buf off ch room, refl)

  encode_two :
      0x80 ≤ ch
      → ch < 0x800
      → off + 2 ≤ length buf
      → Writes 2 ((192 + ch / 64) ∷ continuation ch ∷ [])
  unfolding utf8_encode
  encode_two l h room =
      rw
        (
          le→ltb ch 0x80 l,
          lt→ltb ch 0x800 h,
          tail_byte ch,
          table_eq 32 (λ y. bit_or y 0xc0 % 256) (λ y. 192 + y) (ch / 64) lead_table_two
              (omega arith),
        )
        (write_two buf off (192 + ch / 64) (continuation ch) room, refl)

  encode_three :
      0x800 ≤ ch
      → ch < 0x10000
      → off + 3 ≤ length buf
      → Writes 3 ((224 + ch / 4096) ∷ continuation (ch / 64) ∷ continuation ch ∷ [])
  unfolding utf8_encode
  encode_three l h room =
      let e : ch / 64 / 64 ≡ ch / 4096 = omega arith in
      rw
        (
          le→ltb ch 0x80 (omega arith),
          le→ltb ch 0x800 l,
          lt→ltb ch 0x10000 h,
          tail_byte ch,
          tail_byte (ch / 64),
          e,
          table_eq 16 (λ y. bit_or y 0xe0 % 256) (λ y. 224 + y) (ch / 4096) lead_table_three
              (omega arith),
        )
        (
          write_three buf off (224 + ch / 4096) (continuation (ch / 64)) (continuation ch) room,
          refl,
        )

  encode_four :
      0x10000 ≤ ch
      → ch < 2 ^ 21
      → off + 4 ≤ length buf
      → Writes 4 (
          (240 + ch / 262144)
          ∷ continuation (ch / 4096)
          ∷ continuation (ch / 64)
          ∷ continuation ch
          ∷ [])
  unfolding utf8_encode
  encode_four l h room =
      let e : ch / 64 / 64 ≡ ch / 4096 = omega arith in
      let e' : ch / 4096 / 64 ≡ ch / 262144 = omega arith in
      rw
        (
          le→ltb ch 0x80 (omega arith),
          le→ltb ch 0x800 (omega arith),
          le→ltb ch 0x10000 l,
          tail_byte ch,
          tail_byte (ch / 64),
          e,
          tail_byte (ch / 4096),
          e',
          table_eq 8 (λ y. bit_or y 0xf0 % 256) (λ y. 240 + y) (ch / 262144) lead_table_four
              (omega arith),
        )
        (
          write_four buf off (240 + ch / 262144) (continuation (ch / 4096)) (continuation (ch / 64))
              (continuation ch) room,
          refl,
        )

pub utf8_chsize-eq : (ch : ℕ) → utf8_chsize ch ≡ encoded_len ch
unfolding utf8_chsize encoded_len
utf8_chsize-eq ch = refl

pub utf8_chsize_bounds : (ch : ℕ) → (1 ≤ utf8_chsize ch) × (utf8_chsize ch ≤ 4)
unfolding utf8_chsize
utf8_chsize_bounds ch = ground arith

pub length-encoding : (ch : ℕ) → length (encoding ch) ≡ utf8_chsize ch
unfolding encoding utf8_chsize
length-encoding ch = ground arith

-- For a code point below 2^21 and a buffer with room, `utf8_encode` leaves the bytes before the
-- offset, writes the UTF-8 bytes of the code point after them, and returns `utf8_chsize` of it.
pub utf8_encode_lem :
    (buf : List ℕ) (off ch : ℕ)
    → ch < 2 ^ 21
    → off + utf8_chsize ch ≤ length buf
    → (take (off + utf8_chsize ch) (utf8_encode buf off ch).0 ≡ take off buf ++ encoding ch)
      × ((utf8_encode buf off ch).1 ≡ utf8_chsize ch)
unfolding encoding utf8_chsize
utf8_encode_lem buf off ch small room = elim (Bool-cases (ltb ch 0x80)) [
  | inl a ↦ rw a (encode_one buf off ch (ltb→lt ch 0x80 a) (rw a at room))
  | inr a ↦ elim (Bool-cases (ltb ch 0x800)) [
    | inl b ↦
        rw (a, b) (encode_two buf off ch (ground arith) (ltb→lt ch 0x800 b) (rw (a, b) at room))
    | inr b ↦ elim (Bool-cases (ltb ch 0x10000)) [
      | inl c ↦
          rw (a, b, c)
            (encode_three buf off ch (ground arith) (ltb→lt ch 0x10000 c) (rw (a, b, c) at room))
      | inr c ↦ rw (a, b, c) (encode_four buf off ch (ground arith) small (rw (a, b, c) at room))
    ]
  ]
]
