-- ===== src/Prng/Register.antt =====
-- The shift register: its range, and the step that undoes `lfsr_next`.
use Prim.Native.Nat.{bit_xor}
use c4_os.Prelude.{
  ℕ, ◌+◌, ◌-◌, ◌*◌, ◌/◌, ◌%◌, ◌^◌, ◌≤◌, ◌<◌, ◌≡◌, refl, ap, ◌∙◌, true, ◌&&◌, inl, inr, arith, ◌==◌,
  ltb, leb, if◌then◌else◌, Bool-cases,
}
use c4_os.Prelude.Bits.{bit_xor_shifted, passes_to, passes_to_lem}
use c4_os.Prng.{lfsr_next}

-- The taps 64, 63, 61 and 60.
abbrev taps : ℕ
taps = 27 * 2 ^ 59

-- The register one step back: the top bit tells whether the taps were applied.
unfoldable pub lfsr_back : ℕ → ℕ
lfsr_back state = if state / 2 ^ 63 == 0 then state * 2 else bit_xor state taps * 2 + 1

-- The five bits that the taps touch.
tapped_table :
    passes_to
      (λ h.
        leb 16 (bit_xor h 27)
        && ltb (bit_xor h 27) 32
        && bit_xor (bit_xor h 27) 27 == h
        && ltb (bit_xor (h + 16) 27) 16
        && bit_xor (bit_xor (h + 16) 27) 27 == h + 16)
      16
    ≡ true
unfolding passes_to
tapped_table = refl

tapped :
    (h : ℕ)
    → h < 16
    → (16 ≤ bit_xor h 27)
      × (bit_xor h 27 < 32)
      × (bit_xor (bit_xor h 27) 27 ≡ h)
      × (bit_xor (h + 16) 27 < 16)
      × (bit_xor (bit_xor (h + 16) 27) 27 ≡ h + 16)
tapped h small = ground (arith, passes_to_lem _ 16 tapped_table h small)

even-step : (s : ℕ) → s % 2 ≡ 0 → lfsr_next s ≡ s / 2
unfolding lfsr_next
even-step s e = ground arith

odd-step : (s : ℕ) → s % 2 ≡ 1 → lfsr_next s ≡ bit_xor (s / 2 / 2 ^ 59) 27 * 2 ^ 59 + s / 2 % 2 ^ 59
unfolding lfsr_next
odd-step s e =
    let split : s / 2 / 2 ^ 59 * 2 ^ 59 + s / 2 % 2 ^ 59 ≡ s / 2 = omega arith in
    ground (arith, split, bit_xor_shifted 59 (s / 2 / 2 ^ 59) (s / 2 % 2 ^ 59) 27 (omega arith))

-- A register that is not zero never becomes zero, and stays within 64 bits.
pub lfsr_next_range : (s : ℕ) → 0 < s → s < 2 ^ 64 → (0 < lfsr_next s) × (lfsr_next s < 2 ^ 64)
lfsr_next_range s pos small = elim (Bool-cases (s % 2 == 0)) [
  | inl even ↦ ground (arith, even-step s)
  | inr odd ↦ ground (arith, odd-step s, tapped (s / 2 / 2 ^ 59))
]

back-next : (s : ℕ) → s < 2 ^ 64 → lfsr_back (lfsr_next s) ≡ s
unfolding lfsr_back
back-next s small = elim (Bool-cases (s % 2 == 0)) [
  | inl even ↦ ground (arith, even-step s)
  | inr odd ↦
      let h = s / 2 / 2 ^ 59 in
      let low = s / 2 % 2 ^ 59 in
      ground (arith, odd-step s, tapped h, bit_xor_shifted 59 (bit_xor h 27) low 27 (omega arith))
]

next-back : (s : ℕ) → s < 2 ^ 64 → lfsr_next (lfsr_back s) ≡ s
unfolding lfsr_back
next-back s small = elim (Bool-cases (s / 2 ^ 63 == 0)) [
  | inl clear ↦ ground (arith, even-step (s * 2))
  | inr top ↦
      let h = s / 2 ^ 59 - 16 in
      let low = s % 2 ^ 59 in
      let whole : s ≡ (h + 16) * 2 ^ 59 + low = ground arith in
      let shifted : bit_xor s taps ≡ bit_xor (h + 16) 27 * 2 ^ 59 + low =
        ap (λ k. bit_xor k taps) whole ∙ bit_xor_shifted 59 (h + 16) low 27 (omega arith) in
      let few : bit_xor (h + 16) 27 < 16 = (tapped h (omega arith)).3 in
      ground (arith, top, shifted, tapped h (omega arith), odd-step (bit_xor s taps * 2 + 1))
]

-- `lfsr_next` loses nothing: one step back from the next state is the state, and one step on from
-- the step back too, so it permutes the 64-bit words.
pub lfsr_back-lfsr_next :
    (s : ℕ) → s < 2 ^ 64 → (lfsr_back (lfsr_next s) ≡ s) × (lfsr_next (lfsr_back s) ≡ s)
lfsr_back-lfsr_next s small = (back-next s small, next-back s small)
