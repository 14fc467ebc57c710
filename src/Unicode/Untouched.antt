-- ===== src/Unicode/Untouched.antt =====
-- What the encoder leaves alone: the size of the buffer, and every byte past the encoding.
use swaylock.Base.{
  ℕ, zero, suc, ◌+◌, ◌-◌, ◌/◌, ◌%◌, ◌^◌, ◌≤◌, ◌<◌, ◌≡◌, refl, ◌∙◌, List, arith, length, get_or, set,
  length-set, get_or-set_ne,
}
use Prim.Native.Nat.{bit_and, bit_or}
use swaylock.Unicode.{utf8_chsize, lead_mark, encoded_len, encode_tail, utf8_encode}
use swaylock.Unicode.Encode.{utf8_chsize-eq, utf8_chsize_bounds}

length-encode_tail :
    (i off : ℕ) (buf : List ℕ) (ch : ℕ) → length (encode_tail i off buf ch).0 ≡ length buf
unfolding encode_tail
length-encode_tail zero off buf ch = refl
length-encode_tail (suc i) off buf ch =
    length-encode_tail i off (set buf (off + suc i) (bit_or (bit_and ch 0x3f) 0x80 % 256))
      (ch / 2 ^ 6)
    ∙ length-set buf (off + suc i) (bit_or (bit_and ch 0x3f) 0x80 % 256)

pub length-utf8_encode :
    (buf : List ℕ) (off ch : ℕ) → length (utf8_encode buf off ch).0 ≡ length buf
unfolding utf8_encode
length-utf8_encode buf off ch =
    let (tailed, rest) = encode_tail (encoded_len ch - 1) off buf ch in
    length-set tailed off (bit_or rest (lead_mark ch) % 256)
    ∙ length-encode_tail (encoded_len ch - 1) off buf ch

get_or-encode_tail :
    (i off : ℕ) (buf : List ℕ) (ch j : ℕ)
    → off + i < j
    → get_or (encode_tail i off buf ch).0 j 0 ≡ get_or buf j 0
unfolding encode_tail
get_or-encode_tail zero off buf ch j h = refl
get_or-encode_tail (suc i) off buf ch j h =
    let byte = bit_or (bit_and ch 0x3f) 0x80 % 256 in
    get_or-encode_tail i off (set buf (off + suc i) byte) (ch / 2 ^ 6) j (omega arith)
    ∙ get_or-set_ne buf (off + suc i) j byte 0 (omega arith)

-- Nothing past the encoded bytes is written.
pub get_or-utf8_encode :
    (buf : List ℕ) (off ch j : ℕ)
    → off + utf8_chsize ch ≤ j
    → get_or (utf8_encode buf off ch).0 j 0 ≡ get_or buf j 0
unfolding utf8_encode
get_or-utf8_encode buf off ch j h =
    let (tailed, rest) = encode_tail (encoded_len ch - 1) off buf ch in
    let b = utf8_chsize_bounds ch in
    let e = utf8_chsize-eq ch in
    get_or-set_ne tailed off j (bit_or rest (lead_mark ch) % 256) 0 (omega arith)
    ∙ get_or-encode_tail (encoded_len ch - 1) off buf ch j (omega arith)
