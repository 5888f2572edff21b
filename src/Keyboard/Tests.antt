-- ===== src/Keyboard/Tests.antt =====
-- Runs of the keyboard driver of programs/initprogs/src/keyboard.c.
use c4_os.Prelude.{ℕ, ◌+◌, ◌%◌, ◌/◌, ◌^◌, ◌<◌, ◌≡◌, refl, List, [], ◌∷◌, arith, if◌then◌else◌}
use c4_os.Keyboard.{decode_scancode, get_event, after}
use c4_os.Keyboard.Held.{held, shifted, after-held}

-- The memory behind the tables.
abbrev zeros : ℕ → ℕ
zeros i = 0

-- Left shift down, left control down, A, left control up: the latest first.
abbrev typed : List ℕ
typed = 157 ∷ 30 ∷ 29 ∷ 42 ∷ []

capital_a : (get_event zeros 30 (after zeros (42 ∷ []))).0.character ≡ 65
unfolding get_event after decode_scancode
capital_a = refl

-- An extended key, whose first scancode is 0xe0, is read from behind the tables.
abbrev unknown_byte : ℕ → ℕ
unknown_byte i = i + 1

extended : (get_event unknown_byte 0xe0 (after unknown_byte [])).0.character ≡ 97
unfolding get_event after decode_scancode
extended = refl

after-held_example :
    ((after zeros typed).modifiers < 64)
    × ((after zeros typed).modifiers / 2 ^ 4 % 2 ≡ (if held 4 typed then 1 else 0))
    × ((after zeros typed).is_uppercase ≡ shifted typed)
after-held_example =
    after-held zeros typed 4 (omega arith, (omega arith, (omega arith, (omega arith, tt))))
      (omega arith)
