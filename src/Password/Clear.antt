-- ===== src/Password/Clear.antt =====
-- Wiping (password.c, `clear_buffer` and `clear_password_buffer`).
use swaylock.Base.{
  ℕ, zero, suc, ◌+◌, ◌≡◌, refl, ◌∙◌, ◌&&◌, List, [], ◌∷◌, arith, ltb, leb, ◌==◌, if◌then◌else◌,
  length, get_or, set, length-set, get_or-past,
}
use swaylock.Password.{
  Password, buffer_size, clear_from, clear_buffer, clear_password_buffer, typed, IsValid,
}

length-clear_from : (n i : ℕ) (buf : List ℕ) → length (clear_from n i buf) ≡ length buf
unfolding clear_from
length-clear_from zero i buf = refl
length-clear_from (suc n) i buf = length-clear_from n (i + 1) (set buf i 0) ∙ length-set buf i 0

get_or-set_zero :
    (buf : List ℕ) (i j : ℕ) → get_or (set buf i 0) j 0 ≡ (if i == j then 0 else get_or buf j 0)
get_or-set_zero [] zero zero = refl
get_or-set_zero [] i j = ground arith
get_or-set_zero (x ∷ buf) zero zero = refl
get_or-set_zero (x ∷ buf) zero (suc j) = ground arith
get_or-set_zero (x ∷ buf) (suc i) zero = ground arith
get_or-set_zero (x ∷ buf) (suc i) (suc j) = ground (arith, get_or-set_zero buf i j)

get_or-clear_from :
    (n i : ℕ) (buf : List ℕ) (j : ℕ)
    → get_or (clear_from n i buf) j 0 ≡ (if leb i j && ltb j (i + n) then 0 else get_or buf j 0)
unfolding clear_from
get_or-clear_from zero i buf j = ground arith
get_or-clear_from (suc n) i buf j =
    ground (arith, get_or-clear_from n (i + 1) (set buf i 0) j, get_or-set_zero buf i j)

-- After `clear_buffer buf size` the bytes below `size` are zero, those from `size` on are as they
-- were, and the buffer keeps its length.
pub clear_buffer_lem :
    (buf : List ℕ) (size j : ℕ)
    → (get_or (clear_buffer buf size) j 0 ≡ (if ltb j size then 0 else get_or buf j 0))
      × (length (clear_buffer buf size) ≡ length buf)
unfolding clear_buffer
clear_buffer_lem buf size j =
    (ground (arith, get_or-clear_from size 0 buf j), length-clear_from size 0 buf)

-- `clear_password_buffer` of any password whose buffer has its size leaves a valid, empty password
-- in which every byte is zero.
pub clear_password_buffer-IsValid :
    (pw : Password)
    → length pw.buffer ≡ buffer_size
    → IsValid (clear_password_buffer pw)
      × (typed (clear_password_buffer pw) ≡ [])
      × ((j : ℕ) → get_or (clear_password_buffer pw).buffer j 0 ≡ 0)
unfolding clear_password_buffer
clear_password_buffer-IsValid pw h = (
  record {
    sized = (clear_buffer_lem pw.buffer buffer_size 0).1 ∙ h;
    short = omega arith;
    wiped = λ j _. zero_at j;
  },
  refl,
  zero_at,
)
  where
    zero_at : (j : ℕ) → get_or (clear_buffer pw.buffer buffer_size) j 0 ≡ 0
    zero_at j = ground (arith, clear_buffer_lem pw.buffer buffer_size j, get_or-past pw.buffer j 0)
