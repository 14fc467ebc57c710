-- ===== src/Tests/Text.antt =====
-- Examples for the encoder, the password buffer and the pipe.
use swaylock.Base.{
  ℕ, ◌+◌, ◌-◌, ◌≤◌, ◌≡◌, refl, ◌≢◌, ◌⊎◌, true, false, none, some, List, [], ◌∷◌, ◌++◌, arith,
  length, get_or, take, drop,
}
use swaylock.Unicode.{utf8_chsize, utf8_encode, utf8_size}
use swaylock.Unicode.Encode.{encoding}
use swaylock.Unicode.Decode.{decode, decode-utf8_encode}
use swaylock.Unicode.Size.{lead, utf8_size-lead, utf8_size-ne-six}
use swaylock.Password.{Password, IsValid, typed, fits, clear_password_buffer, backspace, append_ch}
use swaylock.Password.Edit.{append_ch_lem, backspace-IsValid}
use swaylock.Comm.{Writes, size_bytes, bytes_of, received, read_comm_request, write_comm_request}
use swaylock.Comm.Write.{message, write_comm_request_lem}
use swaylock.Comm.RoundTrip.{chunks, read_comm_request-write_comm_request}
use swaylock.Image.{escape_spaces}
use swaylock.Image.Escape.{escaped, doubles, escape_spaces_lem}
use swaylock.Tests.{empty, empty-IsValid}

abbrev eight_bytes : List ℕ
eight_bytes = 65 ∷ 0 ∷ 0 ∷ 0 ∷ 0 ∷ 0 ∷ 0 ∷ 0 ∷ []

decode-utf8_encode_example :
    let (buf', size) = utf8_encode eight_bytes 1 0x20ac in
    (decode (drop 1 (take (1 + size) buf') ++ 65 ∷ []) ≡ some (0x20ac, 65 ∷ []))
    × (size ≡ utf8_chsize 0x20ac)
unfolding utf8_chsize
decode-utf8_encode_example =
    decode-utf8_encode eight_bytes 1 0x20ac (65 ∷ []) (omega arith) (omega arith)

utf8_size-lead_example : utf8_size (lead 0x20ac) ≡ some (utf8_chsize 0x20ac)
utf8_size-lead_example = utf8_size-lead 0x20ac (omega arith)

utf8_size-ne-six_example : (utf8_size 0xfc ≢ some 6) × (0xfc ≤ 0xfc → utf8_size 0xfc ≡ none)
utf8_size-ne-six_example = utf8_size-ne-six 0xfc (omega arith)

append_ch_lem_example :
    IsValid (append_ch empty 0xe9)
    × ((fits empty 0xe9 ≡ true) × (typed (append_ch empty 0xe9) ≡ typed empty ++ encoding 0xe9)
        ⊎ (fits empty 0xe9 ≡ false) × (append_ch empty 0xe9 ≡ empty))
append_ch_lem_example = append_ch_lem empty 0xe9 empty-IsValid (omega arith)

-- One letter typed.
abbrev one : Password
one = append_ch empty 0x61

one-IsValid : IsValid one
one-IsValid = (append_ch_lem empty 0x61 empty-IsValid (omega arith)).0

backspace-IsValid_example :
    IsValid (backspace one).0
    × (((backspace one).1 ≡ false) × (typed one ≡ []) × ((backspace one).0 ≡ one)
        ⊎ ((backspace one).1 ≡ true)
          × (typed one ≡ typed (backspace one).0 ++ get_or one.buffer (one.len - 1) 0 ∷ []))
backspace-IsValid_example = backspace-IsValid one one-IsValid

abbrev three_writes : Writes
three_writes = some size_bytes ∷ some 1 ∷ some 1 ∷ []

write_comm_request_lem_example :
    let (result, pw', sent) = write_comm_request three_writes one in
    ((later : Writes) → three_writes ≡ some size_bytes ∷ later → result ≡ true → sent ≡ message one)
    × IsValid pw'
    × (typed pw' ≡ [])
    × ((j : ℕ) → get_or pw'.buffer j 0 ≡ 0)
write_comm_request_lem_example = write_comm_request_lem three_writes one one-IsValid

read_comm_request-write_comm_request_example :
    read_comm_request (some (bytes_of size_bytes (empty.len + 1)) ∷ chunks ((0 ∷ []) ∷ [])) true
    ≡ received (typed empty ++ 0 ∷ [])
unfolding write_comm_request clear_password_buffer bytes_of
read_comm_request-write_comm_request_example =
    read_comm_request-write_comm_request (some 1 ∷ []) empty ((0 ∷ []) ∷ []) empty-IsValid
      (omega arith, tt) refl refl

abbrev spaced : List ℕ
spaced = 32 ∷ 32 ∷ 97 ∷ []

escape_spaces_lem_example :
    (escape_spaces (length spaced + 1) spaced ≡ some (escaped spaced))
    × (doubles (escaped spaced) ≡ 0)
escape_spaces_lem_example = escape_spaces_lem spaced
