-- ===== src/WindowManager/Draw/Colors.antt =====
-- Colours of 32 bits: mixing and the background.
use Prim.Native.Nat.{bit_or, bit_xor}
use c4_os.Prelude.{
  ℕ, ◌+◌, ◌-◌, ◌*◌, ◌%◌, ◌/◌, ◌≤◌, ◌<◌, ◌^◌, ◌≡◌, refl, ap, Bool, true, ◌==◌, ltb, arith, min, max,
}
use c4_os.Prelude.Bits.{passes_to, passes_to_lem}
use c4_os.WindowManager.Draw.{shade, mix_channel, background}

weighted :
    (a b c alpha low high : ℕ)
    → c + alpha ≡ 255
    → low ≤ a
    → low ≤ b
    → a ≤ high
    → b ≤ high
    → (low * 255 ≤ a * c + b * alpha) × (a * c + b * alpha ≤ high * 255)
weighted a b c alpha low high whole la lb ha hb =
    let e = ap (λ (t : ℕ). low * t) whole in
    let e' = ap (λ (t : ℕ). high * t) whole in (grind arith, grind arith)

-- A mixed channel of two bytes by a byte `alpha` lies between the two.
pub mix_channel_range :
    (a b alpha : ℕ)
    → a < 2 ^ 8
    → b < 2 ^ 8
    → alpha < 2 ^ 8
    → (min a b ≤ mix_channel a b alpha) × (mix_channel a b alpha ≤ max a b)
unfolding mix_channel
mix_channel_range a b alpha ha hb hc =
    let within =
      weighted a b (255 - alpha) alpha (min a b) (max a b) (omega arith) (omega arith) (omega arith)
        (omega arith) (omega arith) in
    (omega (arith, within), omega (arith, within))

-- Without an alpha value the pixel replaces what was there.
pub shade-opaque : (temp pixel : ℕ) → pixel < 2 ^ 24 → shade temp pixel ≡ pixel
unfolding shade
shade-opaque temp pixel small =
    let none : (pixel / 2 ^ 24 % 2 ^ 8 == 0) ≡ true = ground arith in rw none refl

abbrev background_fits : ℕ → Bool
background_fits t = ltb (bit_or (bit_or (t / 2 * 2 ^ 16) (t * 2 ^ 9)) t) (2 ^ 24)

pub background_range : (x y : ℕ) → background x y < 2 ^ 24
unfolding background passes_to
background_range x y =
    let all : passes_to background_fits 256 ≡ true = refl in
    let value = (bit_xor x y / 4 + 0xa0) % 2 ^ 8 in
    ground (arith, passes_to_lem background_fits 256 all value (omega arith))
