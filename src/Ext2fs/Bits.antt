-- ===== src/Ext2fs/Bits.antt =====
-- The bit that `ext2_alloc_block` finds in a word of a bitmap, and sets.
use Prim.Native.Nat.{bit_or}
use native.Mathlib.Nat.{pow-suc, div-div-eq-div-mul}
use mathlib.Core.Path.{subst}
use c4_os.Prelude.{
  ℕ, zero, suc, ◌+◌, ◌*◌, ◌/◌, ◌%◌, ◌^◌, ◌≤◌, ◌<◌, ◌≡◌, arith, Option, none, some, ◌==◌, Bool-cases,
  ==-same, ◌∙◌, sym, ap, inl, inr,
}
use c4_os.Prelude.Bits.{bit_or-last_digit, bit_or-zero}
use c4_os.Ext2fs.Bitmap.{find_clear}

abbrev pub IsClear : ℕ → ℕ → Type 0
IsClear map k = map / 2 ^ k % 2 ≡ 0

-- What is found is a bit of the range that is clear.
abbrev pub IsFound : ℕ → ℕ → ℕ → Option ℕ → Type 0
IsFound left from map none = Unit
IsFound left from map (some k) = (from ≤ k) × (k < from + left) × IsClear map k

IsFound-more :
    (left from map : ℕ) (r : Option ℕ)
    → IsFound left (from + 1) map r
    → IsFound (suc left) from map r
IsFound-more left from map none found = tt
IsFound-more left from map (some k) found =
    (omega (arith, found.0), omega (arith, found.1), found.2)

find_clear-IsFound : (left from map : ℕ) → IsFound left from map (find_clear left from map)
unfolding find_clear
find_clear-IsFound zero from map = tt
find_clear-IsFound (suc left) from map = elim (Bool-cases (map / 2 ^ from % 2 == 0)) [
  | inl e ↦ rw e (omega arith, omega arith, sym (==-same (map / 2 ^ from % 2) 0 e))
  | inr e ↦ rw e (
      IsFound-more left from map (find_clear left (from + 1) map)
        (find_clear-IsFound left (from + 1) map))
]

pub find_clear_lem : (map k : ℕ) → find_clear 32 0 map ≡ some k → (k < 32) × IsClear map k
find_clear_lem map k found =
    let f = subst (λ r. IsFound 32 0 map r) found (find_clear-IsFound 32 0 map) in
    (omega (arith, f.1), f.2)

halves : (m k : ℕ) → m / 2 ^ suc k ≡ m / 2 / 2 ^ k
halves m k =
    let e : 2 ^ suc k ≡ 2 * 2 ^ k = omega (arith, pow-suc 2 k) in
    rw e (sym (div-div-eq-div-mul m 2 (2 ^ k)))

-- Setting a bit that is clear adds it.
pub bit_or-clear : (k map : ℕ) → IsClear map k → bit_or map (2 ^ k) ≡ map + 2 ^ k
bit_or-clear zero map clear =
    let e : map % 2 ≡ 0 = omega (arith, clear) in
    ground (arith, bit_or-last_digit map 1, bit_or-zero (map / 2), e)
bit_or-clear (suc k) map clear =
    let e : map / 2 / 2 ^ k % 2 ≡ 0 = ap (λ (x : ℕ). x % 2) (sym (halves map k)) ∙ clear in
    let half : 2 ^ suc k / 2 ≡ 2 ^ k = omega (arith, pow-suc 2 k) in
    let even : 2 ^ suc k % 2 ≡ 0 = omega (arith, pow-suc 2 k) in
    ground (
      arith,
      bit_or-last_digit map (2 ^ suc k),
      ap (λ (x : ℕ). bit_or (map / 2) x) half,
      even,
      bit_or-clear k (map / 2) e,
      pow-suc 2 k,
    )
