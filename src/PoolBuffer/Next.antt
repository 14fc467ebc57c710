-- ===== src/PoolBuffer/Next.antt =====
-- Which buffer `get_next_buffer` hands out, and in what shape.
use swaylock.Base.{
  ℕ, ◌-◌, ◌<◌, ◌≡◌, refl, ap₂, ◌∙◌, inl, inr, true, false, Option, none, some, List, [], ◌∷◌, arith,
  Bool-cases, length, get_or, All, length-set,
}
use swaylock.PoolBuffer.{
  PoolBuffer, zeroed, pick_free, prepare, get_next_buffer, hand_out, buffer_bytes,
}

-- The fields of a buffer agree: its pointers are all set or all NULL, a missing buffer has no size,
-- and one that is there has the bytes that its width and height need.
pub record IsWhole (b : PoolBuffer) : Type 0 where
  pub surface_set : b.surface ≡ b.buffer
  pub cairo_set : b.cairo ≡ b.buffer
  pub mapped_set : b.mapped ≡ b.buffer
  pub sized : b.buffer ≡ true → b.size ≡ buffer_bytes b.width b.height

-- `prepare` turns a whole buffer into a whole one that is there, is taken and has the size asked for.
prepare_lem :
    (b : PoolBuffer) (width height : ℕ)
    → IsWhole b
    → let b' = prepare b width height in
      IsWhole b' × (b'.buffer ≡ true) × (b'.busy ≡ true) × (b'.width ≡ width) × (b'.height ≡ height)
unfolding prepare
prepare_lem b width height w = ground arith

abbrev pub IsReady : PoolBuffer → ℕ → ℕ → Type 0
IsReady b width height =
    IsWhole b
    × (b.buffer ≡ true)
    × (b.busy ≡ true)
    × (b.width ≡ width)
    × (b.height ≡ height)
    × (b.size ≡ buffer_bytes width height)

-- What a caller of `get_next_buffer` may rely on.
abbrev pub IsHanded : List PoolBuffer → ℕ → ℕ → List PoolBuffer × Option ℕ → Type 0
IsHanded pool width height (pool', none) = (pool' ≡ pool) × All (λ b. b.busy ≡ true) pool
IsHanded pool width height (pool', some i) =
    (i < 2)
    × ((get_or pool i zeroed).busy ≡ false)
    × IsReady (get_or pool' i zeroed) width height
    × (get_or pool' (1 - i) zeroed ≡ get_or pool (1 - i) zeroed)

prepare-IsReady :
    (b : PoolBuffer) (width height : ℕ) → IsWhole b → IsReady (prepare b width height) width height
prepare-IsReady b width height w =
    let (whole, there, taken, e, e') = prepare_lem b width height w in
    (whole, there, taken, e, e', whole.sized there ∙ ap₂ buffer_bytes e e')

pick_free-none :
    (a b : PoolBuffer) → a.busy ≡ true → b.busy ≡ true → pick_free (a ∷ b ∷ []) 0 none ≡ none
unfolding pick_free
pick_free-none a b e e' = ground arith

pick_free-first :
    (a b : PoolBuffer) → a.busy ≡ false → b.busy ≡ true → pick_free (a ∷ b ∷ []) 0 none ≡ some 0
unfolding pick_free
pick_free-first a b e e' = ground arith

pick_free-last : (a b : PoolBuffer) → b.busy ≡ false → pick_free (a ∷ b ∷ []) 0 none ≡ some 1
unfolding pick_free
pick_free-last a b e = ground arith

-- The three cases of the choice.
pub get_next_buffer-none :
    (a b : PoolBuffer) (width height : ℕ)
    → a.busy ≡ true
    → b.busy ≡ true
    → get_next_buffer (a ∷ b ∷ []) width height ≡ (a ∷ b ∷ [], none)
unfolding get_next_buffer
get_next_buffer-none a b width height e e' = rw (pick_free-none a b e e') refl

pub get_next_buffer-first :
    (a b : PoolBuffer) (width height : ℕ)
    → a.busy ≡ false
    → b.busy ≡ true
    → get_next_buffer (a ∷ b ∷ []) width height ≡ (prepare a width height ∷ b ∷ [], some 0)
unfolding get_next_buffer
get_next_buffer-first a b width height e e' = rw (pick_free-first a b e e') refl

pub get_next_buffer-last :
    (a b : PoolBuffer) (width height : ℕ)
    → b.busy ≡ false
    → get_next_buffer (a ∷ b ∷ []) width height ≡ (a ∷ prepare b width height ∷ [], some 1)
unfolding get_next_buffer
get_next_buffer-last a b width height e = rw (pick_free-last a b e) refl

pub length-get_next_buffer :
    (pool : List PoolBuffer) (width height : ℕ)
    → length (get_next_buffer pool width height).0 ≡ length pool
unfolding get_next_buffer hand_out
length-get_next_buffer pool width height = handed (pick_free pool 0 none)
  where
    handed : (c : Option ℕ) → length (hand_out pool width height c).0 ≡ length pool
    handed none = refl
    handed (some i) = length-set pool i (prepare (get_or pool i zeroed) width height)

pub prepare-sized :
    (b : PoolBuffer) (width height : ℕ)
    → ((prepare b width height).width ≡ width) × ((prepare b width height).height ≡ height)
unfolding prepare
prepare-sized b width height = ground arith

-- From two whole buffers, `get_next_buffer` returns NULL exactly when both are busy, and then
-- changes nothing. Otherwise it returns one that was free: it is now there, whole, busy and of the
-- size asked for, and the other buffer is as it was.
pub get_next_buffer_lem :
    (a b : PoolBuffer) (width height : ℕ)
    → IsWhole a
    → IsWhole b
    → IsHanded (a ∷ b ∷ []) width height (get_next_buffer (a ∷ b ∷ []) width height)
unfolding get_next_buffer
get_next_buffer_lem a b width height whole_a whole_b = elim (Bool-cases b.busy) [
  | inl e ↦ elim (Bool-cases a.busy) [
    | inl e' ↦ rw (pick_free-none a b e' e) (refl, (e', (e, tt)))
    | inr e' ↦
        rw (pick_free-first a b e' e)
          (omega arith, e', prepare-IsReady a width height whole_a, refl)
  ]
  | inr e ↦ rw (pick_free-last a b e) (omega arith, e, prepare-IsReady b width height whole_b, refl)
]
