-- ===== src/Pci/Numbers.antt =====
-- The numbers that `print_num` and `print_hex` print.
use c4_os.Prelude.{ℕ, ◌+◌, ◌-◌, ◌*◌, ◌<◌, leb, ◌&&◌, if◌then◌else◌, List, [], ◌∷◌}

-- The digit that a character stands for: those from `0` to `9` and from `a` to `f`; no other stands
-- for a digit of a base up to 16.
abbrev pub digit_value : ℕ → ℕ
digit_value c =
    if leb 48 c && leb c 57 then c - 48 else if leb 97 c && leb c 102 then c - 87 else 16

-- The number that characters stand for, the highest digit first, after those read before.
abbrev pub value_from : ℕ → ℕ → List ℕ → ℕ
value_from base high [] = high
value_from base high (c ∷ cs) = value_from base (high * base + digit_value c) cs

-- Each character is a digit below the base.
abbrev pub AreDigits : ℕ → List ℕ → Type 0
AreDigits base [] = Unit
AreDigits base (c ∷ cs) = (digit_value c < base) × AreDigits base cs

-- The lowest first.
abbrev low_value : ℕ → List ℕ → ℕ
low_value base [] = 0
low_value base (c ∷ cs) = digit_value c + base * low_value base cs
