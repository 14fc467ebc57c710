-- ===== src/Password.antt =====
-- The password buffer of password.c: `struct swaylock_password` (include/swaylock.h) and the
-- functions that wipe it, shorten it and extend it. A byte of the buffer is a number below 256.
pub mod Clear
pub mod Edit
use swaylock.Base.{
  ℕ, zero, suc, ◌+◌, ◌-◌, ◌≤◌, ◌≡◌, Bool, true, false, List, ltb, ◌==◌, if◌then◌else◌, length,
  get_or, set, take,
}
use swaylock.Unicode.{utf8_chsize, utf8_encode}

pub record Password : Type 0 where
  pub len : ℕ
  pub buffer : List ℕ

-- sizeof(pw->buffer)
abbrev pub buffer_size : ℕ
buffer_size = 1024

-- The loop of `clear_buffer` from index `i`, with the rounds that are left.
unfoldable pub clear_from : ℕ → ℕ → List ℕ → List ℕ
clear_from zero i buf = buf
clear_from (suc n) i buf = clear_from n (i + 1) (set buf i 0)

unfoldable pub clear_buffer : List ℕ → ℕ → List ℕ
unfolding clear_from
clear_buffer buf size = clear_from size 0 buf

unfoldable pub clear_password_buffer : Password → Password
unfolding clear_buffer
clear_password_buffer pw = record { len = 0; buffer = clear_buffer pw.buffer buffer_size }

-- `--pw->len` runs only where `len` is not 0.
unfoldable pub backspace : Password → Password × Bool
backspace pw =
    if pw.len == 0
    then (pw, false)
    else (record { len = pw.len - 1; buffer = set pw.buffer (pw.len - 1) 0 }, true)

-- The guard of `append_ch`: room for the bytes of the code point and one more, with one to spare.
unfoldable pub fits : Password → ℕ → Bool
fits pw codepoint = ltb (pw.len + utf8_chsize codepoint + 1) buffer_size

unfoldable pub append_ch : Password → ℕ → Password
unfolding fits
append_ch pw codepoint =
    if fits pw codepoint
    then record {
      len = pw.len + utf8_chsize codepoint;
      buffer = set (utf8_encode pw.buffer pw.len codepoint).0 (pw.len + utf8_chsize codepoint) 0;
    }
    else pw

-- What the user has typed so far.
abbrev pub typed : Password → List ℕ
typed pw = take pw.len pw.buffer

-- The buffer has its size, the text leaves room for a terminator, and every byte past the text is
-- zero: nothing of an earlier password is left behind.
pub record IsValid (pw : Password) : Type 0 where
  pub sized : length pw.buffer ≡ buffer_size
  pub short : pw.len + 2 ≤ buffer_size
  pub wiped : (j : ℕ) → pw.len ≤ j → get_or pw.buffer j 0 ≡ 0
