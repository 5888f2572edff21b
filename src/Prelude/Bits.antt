-- ===== src/Prelude/Bits.antt =====
-- Laws of `bit_or` and `bit_xor` at variables, from the digit recursion.
use Prim.Native.Nat.{
  ℕ, zero, suc, ◌+◌, ◌-◌, ◌*◌, ◌/◌, ◌%◌, ◌^◌, ◌≤◌, ◌<◌, max, digits, differ, bit_or, bit_xor,
  bit_or-bitwise, bit_xor-bitwise,
}
use mathlib.Core.Path.{◌≡◌, refl, ap, sym, ◌∙◌}
use mathlib.Core.Bool.{Bool, true, false}
use native.Mathlib.Nat.{pow-suc}
use native.Mathlib.Decide.{dec_lt}
use native.Mathlib.Omega.{arith}

-- A number below the fuel does not use all of it.
module _ (f : ℕ → ℕ → ℕ) where
  abbrev loop : ℕ → ℕ → ℕ → ℕ
  loop = digits (λ b. b) f

  fuel_once : (fuel x y : ℕ) → x ≤ fuel → loop (suc fuel) x y ≡ loop fuel x y
  fuel_once zero x y small = let e : x ≡ 0 = omega arith in rw e refl
  fuel_once (suc fuel) zero y small = refl
  fuel_once (suc fuel) (suc x) y small =
      let below = fuel_once fuel (suc x / 2) (y / 2) (omega arith) in
      ap (λ high. high * 2 + f (suc x % 2) (y % 2)) below

  fuel_more : (extra x y : ℕ) → loop (extra + x) x y ≡ loop x x y
  fuel_more zero x y = ap (λ (fuel : ℕ). loop fuel x y) (omega arith)
  fuel_more (suc extra) x y =
      let sum : suc extra + x ≡ suc (extra + x) = omega arith in
      ap (λ (fuel : ℕ). loop fuel x y) sum
      ∙ fuel_once (extra + x) x y (omega arith)
      ∙ fuel_more extra x y

  -- The lowest digit by itself.
  last_digit :
      (x y : ℕ)
      → f 0 (y % 2) ≡ y % 2
      → loop x x y ≡ loop (x / 2) (x / 2) (y / 2) * 2 + f (x % 2) (y % 2)
  last_digit zero y keeps = omega (arith, keeps)
  last_digit (suc x) y keeps =
      let enough : x ≡ x - suc x / 2 + suc x / 2 = omega arith in
      ap (λ high. high * 2 + f (suc x % 2) (y % 2))
        (ap (λ (fuel : ℕ). loop fuel (suc x / 2) (y / 2)) enough
          ∙ fuel_more (x - suc x / 2) (suc x / 2) (y / 2))

pub bit_or-last_digit : (a b : ℕ) → bit_or a b ≡ bit_or (a / 2) (b / 2) * 2 + max (a % 2) (b % 2)
bit_or-last_digit a b =
    (λ i. bit_or-bitwise a b i)
    ∙ last_digit max a b (omega arith)
    ∙ (λ i. sym (λ j. bit_or-bitwise (a / 2) (b / 2) j) i * 2 + max (a % 2) (b % 2))

pub bit_xor-last_digit :
    (a b : ℕ) → bit_xor a b ≡ bit_xor (a / 2) (b / 2) * 2 + differ (a % 2) (b % 2)
bit_xor-last_digit a b =
    (λ i. bit_xor-bitwise a b i)
    ∙ last_digit differ a b refl
    ∙ (λ i. sym (λ j. bit_xor-bitwise (a / 2) (b / 2) j) i * 2 + differ (a % 2) (b % 2))

differ-zero : (a : ℕ) → differ a 0 ≡ a
differ-zero zero = refl
differ-zero (suc a) = refl

zero-bit_or : (b : ℕ) → bit_or 0 b ≡ b
zero-bit_or b = λ i. bit_or-bitwise 0 b i

or-zero_fuel : (n a : ℕ) → a ≤ n → bit_or a 0 ≡ a
or-zero_fuel n zero h = refl
or-zero_fuel zero (suc a) h = absurd (omega arith)
or-zero_fuel (suc n) (suc a) h =
    omega (arith, bit_or-last_digit (suc a) 0, or-zero_fuel n (suc a / 2) (omega arith))

pub bit_or-zero : (a : ℕ) → bit_or a 0 ≡ a
bit_or-zero a = or-zero_fuel a a (omega arith)

two-pow_suc : (q k : ℕ) → q * 2 ^ suc k ≡ 2 * (q * 2 ^ k)
two-pow_suc q k = omega (arith, ap (λ (t : ℕ). q * t) (pow-suc 2 k))

-- `|` of a field shifted by `k` and a value of `k` bits is their sum.
pub bit_or_shifted : (k q r : ℕ) → r < 2 ^ k → bit_or (q * 2 ^ k) r ≡ q * 2 ^ k + r
bit_or_shifted zero q r h = ground (arith, bit_or-zero q)
bit_or_shifted (suc k) q r h = ground (
  arith,
  two-pow_suc q k,
  pow-suc 2 k,
  bit_or-last_digit (q * 2 ^ suc k) r,
  bit_or_shifted k q (r / 2),
)

-- `^` with a value whose low `k` bits are clear touches only the bits above.
pub bit_xor_shifted :
    (k q r m : ℕ) → r < 2 ^ k → bit_xor (q * 2 ^ k + r) (m * 2 ^ k) ≡ bit_xor q m * 2 ^ k + r
bit_xor_shifted zero q r m h =
    let e : q * 2 ^ 0 + r ≡ q = ground arith in
    let f : m * 2 ^ 0 ≡ m = omega arith in rw (e, f) (ground arith)
bit_xor_shifted (suc k) q r m h = ground (
  arith,
  two-pow_suc q k,
  two-pow_suc m k,
  two-pow_suc (bit_xor q m) k,
  pow-suc 2 k,
  bit_xor-last_digit (q * 2 ^ suc k + r) (m * 2 ^ suc k),
  bit_xor_shifted k q (r / 2) m,
  differ-zero (r % 2),
)

-- A test of every number under a literal bound, run by evaluation.
unfoldable pub passes_to : (ℕ → Bool) → ℕ → Bool
passes_to test zero = true
passes_to test (suc top) = elim (test top) [ true ↦ passes_to test top | false ↦ false ]

pub passes_to_lem :
    (test : ℕ → Bool) (top : ℕ)
    → passes_to test top ≡ true
    → (value : ℕ) → value < top
    → test value ≡ true
unfolding passes_to
passes_to_lem test zero passed value below = absurd (omega arith)
passes_to_lem test (suc top) passed value below = elim (dec_lt value top) [
  | yes earlier ↦ passes_to_lem test top (ground arith) value earlier
  | no later ↦ let e : value ≡ top = omega arith in rw e (ground arith)
]
