-- ===== src/Seat/Devices.antt =====
-- The devices of a seat (seat.c, `seat_handle_capabilities`), with the pointers and keyboards that
-- the compositor still holds for it. The listeners of a pointer, and those of a keyboard for enter,
-- leave and repeat, do nothing with the state.
use swaylock.Base.{
  ℕ, ◌+◌, ◌-◌, ◌≡◌, ap, ◌∙◌, Bool, true, false, not, List, [], ◌∷◌, arith, ◌==◌, if◌then◌else◌,
}
use Prim.Native.Nat.{bit_and}

-- `struct swaylock_seat`; the counts are of the objects that were asked for and not released.
pub record Seat : Type 0 where
  pub pointer : Bool
  pub keyboard : Bool
  pub live_pointers : ℕ
  pub live_keyboards : ℕ

-- What `calloc` and `wl_registry_bind` make.
abbrev pub new_seat : Seat
new_seat = record { pointer = false; keyboard = false; live_pointers = 0; live_keyboards = 0 }

unfoldable pub release_pointer : Seat → Seat
release_pointer seat =
    if seat.pointer
    then record seat { pointer = false; live_pointers = seat.live_pointers - 1 }
    else seat

unfoldable pub release_keyboard : Seat → Seat
release_keyboard seat =
    if seat.keyboard
    then record seat { keyboard = false; live_keyboards = seat.live_keyboards - 1 }
    else seat

-- `caps & WL_SEAT_CAPABILITY_POINTER`, and the same for the keyboard.
abbrev pub has_pointer : ℕ → Bool
has_pointer caps = not (bit_and caps 1 == 0)

abbrev pub has_keyboard : ℕ → Bool
has_keyboard caps = not (bit_and caps 2 == 0)

unfoldable pub seat_handle_capabilities : Seat → ℕ → Seat
unfolding release_pointer release_keyboard
seat_handle_capabilities seat caps =
    let released = release_keyboard (release_pointer seat) in
    let pointed =
      if has_pointer caps
      then record released { pointer = true; live_pointers = released.live_pointers + 1 }
      else released in
    if has_keyboard caps
    then record pointed { keyboard = true; live_keyboards = pointed.live_keyboards + 1 }
    else pointed

-- The announcements of the compositor, in order.
unfoldable pub announce : Seat → List ℕ → Seat
unfolding seat_handle_capabilities
announce seat [] = seat
announce seat (caps ∷ more) = announce (seat_handle_capabilities seat caps) more

abbrev pub count : Bool → ℕ
count true = 1
count false = 0

-- One object for every pointer that is set.
pub record IsCounted (seat : Seat) : Type 0 where
  pub pointers : seat.live_pointers ≡ count seat.pointer
  pub keyboards : seat.live_keyboards ≡ count seat.keyboard

-- After one announcement.
handled-IsCounted :
    (seat : Seat) (caps : ℕ)
    → IsCounted seat
    → IsCounted (seat_handle_capabilities seat caps)
      × ((seat_handle_capabilities seat caps).pointer ≡ has_pointer caps)
      × ((seat_handle_capabilities seat caps).keyboard ≡ has_keyboard caps)
unfolding seat_handle_capabilities release_pointer release_keyboard
handled-IsCounted seat caps v = (
  record { pointers = ground (arith, v.pointers); keyboards = ground (arith, v.keyboards) },
  ground arith,
  ground arith,
)

-- The last of one or more announcements.
unfoldable pub last_of : ℕ → List ℕ → ℕ
last_of caps [] = caps
last_of caps (next ∷ more) = last_of next more

-- However often the capabilities of a seat are announced, it ends with one pointer exactly if the
-- last announcement has the pointer, one keyboard exactly if it has the keyboard, and every other
-- object that was asked for released.
pub announce-IsCounted :
    (caps : ℕ) (more : List ℕ) (seat : Seat)
    → IsCounted seat
    → ((announce seat (caps ∷ more)).live_pointers ≡ count (has_pointer (last_of caps more)))
      × ((announce seat (caps ∷ more)).live_keyboards ≡ count (has_keyboard (last_of caps more)))
      × IsCounted (announce seat (caps ∷ more))
unfolding announce last_of
announce-IsCounted caps [] seat v =
    let (v', p, k) = handled-IsCounted seat caps v in
    (v'.pointers ∙ ap count p, v'.keyboards ∙ ap count k, v')
announce-IsCounted caps (next ∷ more) seat v =
    announce-IsCounted next more (seat_handle_capabilities seat caps)
      (handled-IsCounted seat caps v).0
