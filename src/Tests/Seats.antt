-- ===== src/Tests/Seats.antt =====
-- Examples for the keyboard.
use swaylock.Base.{◌≡◌, refl, [], ◌∷◌}
use swaylock.Seat.Devices.{
  new_seat, announce, count, has_pointer, has_keyboard, last_of, IsCounted, announce-IsCounted,
}

-- A keyboard, then a keyboard and a pointer, then nothing but the pointer.
announce-IsCounted_example :
    ((announce new_seat (2 ∷ 3 ∷ 1 ∷ [])).live_pointers
      ≡ count (has_pointer (last_of 2 (3 ∷ 1 ∷ []))))
    × ((announce new_seat (2 ∷ 3 ∷ 1 ∷ [])).live_keyboards
        ≡ count (has_keyboard (last_of 2 (3 ∷ 1 ∷ []))))
    × IsCounted (announce new_seat (2 ∷ 3 ∷ 1 ∷ []))
announce-IsCounted_example =
    announce-IsCounted 2 (3 ∷ 1 ∷ []) new_seat (record { pointers = refl; keyboards = refl })
