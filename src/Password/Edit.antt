-- ===== src/Password/Edit.antt =====
-- Typing and erasing (password.c, `append_ch` and `backspace`).
use swaylock.Base.{
  ℕ, suc, ◌+◌, ◌-◌, ◌^◌, ◌<◌, ◌≡◌, refl, ap, ◌∙◌, ◌⊎◌, inl, inr, true, false, [], ◌∷◌, ◌++◌, arith,
  ltb, ◌==◌, ltb→lt, Bool-cases, get_or, set, take, length-set, take-set, take-suc-get_or,
  get_or-set,
}
use swaylock.Unicode.{utf8_chsize, utf8_encode}
use swaylock.Unicode.Encode.{encoding, utf8_encode_lem}
use swaylock.Unicode.Untouched.{length-utf8_encode, get_or-utf8_encode}
use swaylock.Password.{Password, buffer_size, backspace, fits, append_ch, typed, IsValid}

-- A write at the end of the text, or past it, that leaves zeros behind it keeps a password valid.
shortened-IsValid :
    (pw : Password) (n : ℕ)
    → IsValid pw
    → suc n ≡ pw.len
    → IsValid (record { len = n; buffer = set pw.buffer n 0 })
shortened-IsValid pw n v e = record {
  sized = length-set pw.buffer n 0 ∙ v.sized;
  short = omega arith;
  wiped = λ j h. ground (arith, get_or-set pw.buffer n j 0 0, v.wiped j);
}

shortened-typed :
    (pw : Password) (n : ℕ)
    → IsValid pw
    → suc n ≡ pw.len
    → typed pw ≡ take n (set pw.buffer n 0) ++ get_or pw.buffer n 0 ∷ []
shortened-typed pw n v e =
    rw (← e, take-set pw.buffer n n 0 (omega arith)) (take-suc-get_or pw.buffer n 0 (omega arith))

-- `backspace` keeps a password valid. It returns false and changes nothing if nothing is typed;
-- otherwise it returns true and takes exactly the last byte off the bytes typed.
pub backspace-IsValid :
    (pw : Password)
    → IsValid pw
    → IsValid (backspace pw).0
      × (((backspace pw).1 ≡ false) × (typed pw ≡ []) × ((backspace pw).0 ≡ pw)
          ⊎ ((backspace pw).1 ≡ true)
            × (typed pw ≡ typed (backspace pw).0 ++ get_or pw.buffer (pw.len - 1) 0 ∷ []))
unfolding backspace
backspace-IsValid pw v = elim (Bool-cases (pw.len == 0)) [
  | inl e ↦
      let z : pw.len ≡ 0 = ground arith in rw e (v, inl (refl, ap (λ n. take n pw.buffer) z, refl))
  | inr e ↦
      let p : suc (pw.len - 1) ≡ pw.len = ground arith in
      rw e (shortened-IsValid pw (pw.len - 1) v p, inr (refl, shortened-typed pw (pw.len - 1) v p))
]

module _ (pw : Password) (ch : ℕ) (v : IsValid pw)
    (room : pw.len + utf8_chsize ch + 1 < buffer_size) where
  -- The password that `append_ch` builds.
  abbrev extended : Password
  extended = record {
    len = pw.len + utf8_chsize ch;
    buffer = set (utf8_encode pw.buffer pw.len ch).0 (pw.len + utf8_chsize ch) 0;
  }

  extended-IsValid : IsValid extended
  extended-IsValid =
      let e = length-utf8_encode pw.buffer pw.len ch in
      let s = v.sized in
      record {
        sized = length-set (utf8_encode pw.buffer pw.len ch).0 (pw.len + utf8_chsize ch) 0 ∙ e ∙ s;
        short = omega arith;
        wiped = λ j h. ground (
          arith,
          get_or-set (utf8_encode pw.buffer pw.len ch).0 (pw.len + utf8_chsize ch) j 0 0,
          get_or-utf8_encode pw.buffer pw.len ch j,
          v.wiped j,
        );
      }

  extended-typed : ch < 2 ^ 21 → typed extended ≡ typed pw ++ encoding ch
  extended-typed small =
      let n = pw.len + utf8_chsize ch in
      let s = v.sized in
      take-set (utf8_encode pw.buffer pw.len ch).0 n n 0 (omega arith)
      ∙ (utf8_encode_lem pw.buffer pw.len ch small (omega arith)).0

-- `append_ch` of a code point below 2^21 keeps a password valid; where the code point fits, its
-- UTF-8 bytes are added to those typed, and otherwise the password is left as it is.
pub append_ch_lem :
    (pw : Password) (ch : ℕ)
    → IsValid pw
    → ch < 2 ^ 21
    → IsValid (append_ch pw ch)
      × ((fits pw ch ≡ true) × (typed (append_ch pw ch) ≡ typed pw ++ encoding ch)
          ⊎ (fits pw ch ≡ false) × (append_ch pw ch ≡ pw))
unfolding append_ch
append_ch_lem pw ch v small = elim (Bool-cases (ltb (pw.len + utf8_chsize ch + 1) buffer_size)) [
  | inl e ↦
      let room = ltb→lt (pw.len + utf8_chsize ch + 1) buffer_size e in
      rw e (extended-IsValid pw ch v room, inl (refl, extended-typed pw ch v room small))
  | inr e ↦ rw e (v, inr (refl, refl))
]
