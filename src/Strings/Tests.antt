-- ===== src/Strings/Tests.antt =====
-- Runs of the string routines of libraries/c4rt/libc/string.c on a few bytes.
use c4_os.Prelude.{
  ℕ, ◌-◌, ◌^◌, ◌≤◌, ◌<◌, ◌≡◌, ◌↔◌, ◌⊎◌, inr, refl, List, [], ◌∷◌, arith, take, get_or, some,
}
use c4_os.Strings.{Memory, strncmp, strlcpy, strlcpy_from, store}
use c4_os.Strings.Text.{IsString}
use c4_os.Strings.Compare.{strncmp-take}
use c4_os.Strings.Copy.{strlcpy_lem}

-- `abc` at 0 and `abd` at 4, and zeros.
abbrev bytes : Memory
bytes j = get_or (97 ∷ 98 ∷ 99 ∷ 0 ∷ 97 ∷ 98 ∷ 100 ∷ []) j 0

abbrev abc : List ℕ
abc = 97 ∷ 98 ∷ 99 ∷ []

abbrev abd : List ℕ
abd = 97 ∷ 98 ∷ 100 ∷ []

abc-IsString : IsString bytes 0 abc
abc-IsString = (
  refl,
  (λ e. absurd (omega arith)),
  omega arith,
  (
    refl,
    (λ e. absurd (omega arith)),
    omega arith,
    (refl, (λ e. absurd (omega arith)), omega arith, refl),
  ),
)

abd-IsString : IsString bytes 4 abd
abd-IsString = (
  refl,
  (λ e. absurd (omega arith)),
  omega arith,
  (
    refl,
    (λ e. absurd (omega arith)),
    omega arith,
    (refl, (λ e. absurd (omega arith)), omega arith, refl),
  ),
)

-- The first two characters are the same, but the comparison of two characters is -1.
strncmp_two : strncmp 0 4 2 bytes ≡ 2 ^ 32 - 1
unfolding strncmp
strncmp_two = refl

abbrev copied : Memory
copied = (strlcpy 10 20 0 3 bytes).1

strlcpy_two : (copied 20 ≡ 97) × (copied 21 ≡ 98) × (copied 22 ≡ 0)
unfolding strlcpy strlcpy_from store
strlcpy_two = (refl, refl, refl)

strncmp-take_example : (strncmp 0 4 1 bytes ≡ 0) ↔ (take 2 abc ≡ take 2 abd)
strncmp-take_example = strncmp-take 1 0 4 bytes abc abd abc-IsString abd-IsString

strlcpy_lem_example :
    ((strlcpy 10 20 0 3 bytes).0 ≡ some 3)
    × IsString copied 20 (take 2 abc)
    × ((j : ℕ) → (j < 20) ⊎ (23 ≤ j) → copied j ≡ bytes j)
strlcpy_lem_example =
    strlcpy_lem 10 20 0 3 bytes abc abc-IsString (inr (omega arith)) (omega arith) (omega arith)
