-- ===== src/Mouse/Tests.antt =====
-- Runs of the mouse driver of programs/initprogs.
use c4_os.Prelude.{
  ◌/◌, ◌%◌, ◌^◌, ◌≡◌, refl, arith, true, false, List, [], ◌∷◌, some, none, if◌then◌else◌, leb,
  add32,
}
use c4_os.Mouse.{decode, empty, Interrupt, interrupts}
use c4_os.Mouse.Packets.{packets, stream, nine_bits, interrupts-packets, decode-nine_bits}

-- Two packets over three interrupts, one of them of another device.
abbrev moves : List Interrupt
moves =
    record { is_mouse = true; bytes = 9 ∷ 5 ∷ [] }
    ∷ record { is_mouse = false; bytes = 1 ∷ [] }
    ∷ record { is_mouse = true; bytes = 7 ∷ 24 ∷ 255 ∷ 0 ∷ [] }
    ∷ []

interrupts-packets_example :
    (interrupts (3 ∷ 4 ∷ []) empty moves).0 ≡ packets (3 ∷ 4 ∷ []) (stream moves)
interrupts-packets_example = interrupts-packets (3 ∷ 4 ∷ []) moves

-- One to the left is no movement at all.
left_one : decode 24 255 0 ≡ some (record { flags = 0; x = 0; y = 0 })
unfolding decode
left_one = refl

decode-nine_bits_example : decode 24 255 0 ≡ (
    if leb 64 24
    then none
    else some (record {
      flags = 24 % 2 ^ 3;
      x = add32 (nine_bits (24 / 2 ^ 4 % 2) 255) (24 / 2 ^ 4 % 2);
      y = add32 (nine_bits (24 / 2 ^ 5 % 2) 0) (24 / 2 ^ 5 % 2);
    }))
decode-nine_bits_example = decode-nine_bits 24 255 0 (omega arith) (omega arith) (omega arith)
