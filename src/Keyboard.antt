-- ===== src/Keyboard.antt =====
-- programs/initprogs/src/keyboard.c: from scancodes to key events. The static variables are passed
-- from event to event.
pub mod Held
mod Tests
use Prim.Native.Nat.{bit_or, bit_and}
use c4_os.Prelude.{
  ℕ, ◌+◌, ◌-◌, ◌%◌, ◌/◌, ◌^◌, ◌||◌, Bool, true, false, List, [], ◌∷◌, ◌==◌, ltb, leb, not,
  if◌then◌else◌, get_or,
}

-- The codes of the modifiers, below those of the characters.
abbrev pub code_left_shift : ℕ
code_left_shift = 4

abbrev pub code_right_shift : ℕ
code_right_shift = 5

abbrev pub code_end : ℕ
code_end = 6

abbrev pub lowercase : List ℕ
lowercase =
    96 ∷ 0 ∷ 49 ∷ 50 ∷ 51 ∷ 52 ∷ 53 ∷ 54 ∷ 55 ∷ 56 ∷ 57 ∷ 48 ∷ 45 ∷ 61 ∷ 8 ∷ 1 ∷ 113 ∷ 119 ∷ 101
    ∷ 114 ∷ 116 ∷ 121 ∷ 117 ∷ 105 ∷ 111 ∷ 112 ∷ 91 ∷ 93 ∷ 10 ∷ 2 ∷ 97 ∷ 115 ∷ 100 ∷ 102 ∷ 103 ∷ 104
    ∷ 106 ∷ 107 ∷ 108 ∷ 59 ∷ 39 ∷ 63 ∷ 4 ∷ 63 ∷ 122 ∷ 120 ∷ 99 ∷ 118 ∷ 98 ∷ 110 ∷ 109 ∷ 44 ∷ 46 ∷ 47
    ∷ 5 ∷ 95 ∷ 95 ∷ 32 ∷ 95 ∷ 95 ∷ 95 ∷ 95 ∷ 95 ∷ 95 ∷ 95 ∷ 95 ∷ 95 ∷ 95 ∷ 95 ∷ 95 ∷ 95 ∷ 95 ∷ 95
    ∷ []

abbrev pub uppercase : List ℕ
uppercase =
    126 ∷ 0 ∷ 33 ∷ 64 ∷ 35 ∷ 36 ∷ 37 ∷ 94 ∷ 38 ∷ 42 ∷ 40 ∷ 41 ∷ 95 ∷ 43 ∷ 8 ∷ 1 ∷ 81 ∷ 87 ∷ 69 ∷ 82
    ∷ 84 ∷ 89 ∷ 85 ∷ 73 ∷ 79 ∷ 80 ∷ 123 ∷ 125 ∷ 10 ∷ 2 ∷ 65 ∷ 83 ∷ 68 ∷ 70 ∷ 71 ∷ 72 ∷ 74 ∷ 75 ∷ 76
    ∷ 58 ∷ 34 ∷ 63 ∷ 4 ∷ 63 ∷ 90 ∷ 88 ∷ 67 ∷ 86 ∷ 66 ∷ 78 ∷ 77 ∷ 60 ∷ 62 ∷ 63 ∷ 5 ∷ 95 ∷ 95 ∷ 32
    ∷ 95 ∷ 95 ∷ 95 ∷ 95 ∷ 95 ∷ 95 ∷ 95 ∷ 95 ∷ 95 ∷ 95 ∷ 95 ∷ 95 ∷ 95 ∷ 95 ∷ 95 ∷ []

-- `is_uppercase` of `decode_scancode`, and `modifiers`.
pub record Keys : Type 0 where
  pub is_uppercase : Bool
  pub modifiers : ℕ

-- `keyboard_event_t`.
pub record KeyEvent : Type 0 where
  pub character : ℕ
  pub event_modifiers : ℕ
  pub scancode : ℕ
  pub is_up : Bool

abbrev pub is_modifier : ℕ → Bool
is_modifier c = ltb c code_end

-- A scancode is a byte; `code & 0x80` is the release, `code & ~0x80` the key.
abbrev pub is_keyup : ℕ → Bool
is_keyup code = leb 128 code

-- What stands behind the tables, by the index from their start, is unknown.
module _ (behind : ℕ → ℕ) where
  abbrev pub entry : List ℕ → ℕ → ℕ
  entry table i = get_or table i (behind i)

  unfoldable pub decode_scancode : ℕ → Bool → ℕ × Bool
  decode_scancode code upper =
      let c = if upper then entry uppercase (code % 2 ^ 7) else entry lowercase (code % 2 ^ 7) in
      (c, if c == code_left_shift || c == code_right_shift then not (is_keyup code) else upper)

  -- The scancode is what the port gave.
  unfoldable pub get_event : ℕ → Keys → KeyEvent × Keys
  get_event code s =
      let (c, upper) = decode_scancode code s.is_uppercase in
      let down = bit_or s.modifiers (2 ^ c) in
      let up = bit_and s.modifiers (2 ^ 32 - 1 - 2 ^ c) in
      let mods = if is_modifier c then if is_keyup code then up else down else s.modifiers in
      (
        record { character = c; event_modifiers = mods; scancode = code; is_up = is_keyup code },
        record { is_uppercase = upper; modifiers = mods },
      )

  -- The state after the scancodes of a list, the latest first.
  unfoldable pub after : List ℕ → Keys
  after [] = record { is_uppercase = false; modifiers = 0 }
  after (code ∷ codes) = (get_event code (after codes)).1
