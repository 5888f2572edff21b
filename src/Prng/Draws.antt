-- ===== src/Prng/Draws.antt =====
-- What each draw returns: the next bits of the register's output, the first one highest.
use Prim.Native.Nat.{bit_or}
use c4_os.Prelude.{ℕ, zero, suc, ◌+◌, ◌*◌, ◌%◌, ◌^◌, ◌<◌, ◌≡◌, refl, ap, Bool, true, false, arith}
use native.Mathlib.Nat.{pow-suc, mod-eq_of_lt, pow-le-pow_right, mul-le-mul_right}
use c4_os.Prelude.Bits.{bit_or_shifted}
use c4_os.Prng.{
  lfsr_next, lfsr_output, draw_bool, bit_of, u8_loop, draw_u8, join, draw_u16, draw_u32, draw_u64,
}

-- The register after `n` steps, and its next `n` output bits as a number.
unfoldable pub advance : ℕ → ℕ → ℕ
advance zero s = s
advance (suc n) s = advance n (lfsr_next s)

unfoldable pub outputs : ℕ → ℕ → ℕ
outputs zero s = 0
outputs (suc n) s = s % 2 * 2 ^ n + outputs n (lfsr_next s)

outputs-lt : (n s : ℕ) → outputs n s < 2 ^ n
unfolding outputs
outputs-lt zero s = omega arith
outputs-lt (suc n) s = grind (arith, outputs-lt n (lfsr_next s), pow-suc 2 n)

pow-add : (m n : ℕ) → 2 ^ (m + n) ≡ 2 ^ m * 2 ^ n
pow-add zero n = let e : zero + n ≡ n = omega arith in rw e (omega arith)
pow-add (suc m) n =
    let e : suc m + n ≡ suc (m + n) = omega arith in
    rw e (
      omega (
        arith,
        pow-suc 2 (m + n),
        ap (λ (t : ℕ). t * 2) (pow-add m n),
        ap (λ (t : ℕ). t * 2 ^ n) (pow-suc 2 m),
      ))

outputs-add :
    (m n s : ℕ)
    → (outputs (m + n) s ≡ outputs m s * 2 ^ n + outputs n (advance m s))
      × (advance (m + n) s ≡ advance n (advance m s))
unfolding outputs advance
outputs-add zero n s = let e : zero + n ≡ n = omega arith in rw e (omega arith, refl)
outputs-add (suc m) n s =
    let e : suc m + n ≡ suc (m + n) = omega arith in
    rw e (
      omega (arith, (outputs-add m n (lfsr_next s)).0, ap (λ (t : ℕ). s % 2 * t) (pow-add m n)),
      (outputs-add m n (lfsr_next s)).1,
    )

draw_bool_lem : (s : ℕ) → (bit_of (draw_bool s).0 ≡ s % 2) × ((draw_bool s).1 ≡ lfsr_next s)
unfolding draw_bool bit_of lfsr_output
draw_bool_lem s = ground arith

u8_loop-outputs :
    (n ret done s : ℕ)
    → n + done ≡ 8
    → ret < 2 ^ done
    → u8_loop n ret s ≡ (ret * 2 ^ n + outputs n s, advance n s)
unfolding u8_loop outputs advance
u8_loop-outputs zero ret done s h small = ground arith
u8_loop-outputs (suc n) ret done s h small =
    let grow : ret * 2 % 2 ^ 8 ≡ ret * 2 =
      mod-eq_of_lt
        (omega (arith, pow-le-pow_right {n = 2} (omega arith) {i = done} {j = 7} (omega arith))) in
    let sum : bit_or (ret * 2 % 2 ^ 8) (bit_of (draw_bool s).0) ≡ ret * 2 + s % 2 =
      rw (grow, (draw_bool_lem s).0) (bit_or_shifted 1 ret (s % 2) (omega arith)) in
    ground (
      arith,
      sum,
      ap (λ (t : ℕ). ret * t) (pow-suc 2 n),
      draw_bool_lem s,
      u8_loop-outputs n (ret * 2 + s % 2) (suc done) (lfsr_next s) (omega arith),
      pow-suc 2 n,
      pow-suc 2 done,
    )

draw_u8-outputs : (s : ℕ) → draw_u8 s ≡ (outputs 8 s, advance 8 s)
unfolding draw_u8
draw_u8-outputs s = ground (arith, u8_loop-outputs 8 0 0 s (omega arith))

-- A draw of `w` bits that takes as many steps.
abbrev Fits : ℕ → (ℕ → ℕ × ℕ) → Type 0
Fits w draw = (s : ℕ) → ((draw s).0 < 2 ^ w) × ((draw s).1 ≡ advance w s)

combined_lt : (q r w : ℕ) → q < 2 ^ w → r < 2 ^ w → bit_or (q * 2 ^ w) r < 2 ^ (w + w)
combined_lt q r w hq hr =
    rw (bit_or_shifted w q r hr, pow-add w w) (omega (arith, mul-le-mul_right (2 ^ w) hq))

module _ (w : ℕ) (draw : ℕ → ℕ × ℕ) where
  join-outputs :
      ((s : ℕ) → draw s ≡ (outputs w s, advance w s))
      → (s : ℕ) → join true w draw s ≡ (outputs (w + w) s, advance (w + w) s)
  unfolding join
  join-outputs h s = ground (
    arith,
    h s,
    h (advance w s),
    outputs-add w w s,
    outputs-lt w (advance w s),
    bit_or_shifted w (outputs w s) (outputs w (advance w s)),
  )

  -- Whichever operand is drawn first, the register takes as many steps.
  join_range : (hi_first : Bool) → Fits w draw → Fits (w + w) (join hi_first w draw)
  unfolding join
  join_range true fits s = ground (
    arith,
    fits s,
    fits (draw s).1,
    outputs-add w w s,
    combined_lt (draw s).0 (draw (draw s).1).0 w,
  )
  join_range false fits s = ground (
    arith,
    fits s,
    fits (draw s).1,
    outputs-add w w s,
    combined_lt (draw (draw s).1).0 (draw s).0 w,
  )

-- Every draw returns the next 8, 16, 32 or 64 bits of the register's output, the first one
-- highest, and leaves the register that many steps on, if the compiler draws the high half first.
pub draws-outputs :
    (s : ℕ)
    → (draw_u8 s ≡ (outputs 8 s, advance 8 s))
      × (draw_u16 true s ≡ (outputs 16 s, advance 16 s))
      × (draw_u32 true s ≡ (outputs 32 s, advance 32 s))
      × (draw_u64 true s ≡ (outputs 64 s, advance 64 s))
unfolding draw_u16 draw_u32 draw_u64
draws-outputs s =
    let h16 = join-outputs 8 draw_u8 draw_u8-outputs in
    let h32 = join-outputs 16 (draw_u16 true) h16 in
    (draw_u8-outputs s, h16 s, h32 s, join-outputs 32 (draw_u32 true) h32 s)

u8-Fits : Fits 8 draw_u8
u8-Fits s = rw (draw_u8-outputs s) (outputs-lt 8 s, refl)

u16-Fits : (hi_first : Bool) → Fits 16 (draw_u16 hi_first)
unfolding draw_u16
u16-Fits hi_first = join_range 8 draw_u8 hi_first u8-Fits

u32-Fits : (hi_first : Bool) → Fits 32 (draw_u32 hi_first)
unfolding draw_u32
u32-Fits hi_first = join_range 16 (draw_u16 hi_first) hi_first (u16-Fits hi_first)

u64-Fits : (hi_first : Bool) → Fits 64 (draw_u64 hi_first)
unfolding draw_u64
u64-Fits hi_first = join_range 32 (draw_u32 hi_first) hi_first (u32-Fits hi_first)

-- Whichever half is drawn first, a draw fits its width and leaves the register as many steps on.
pub draws_range :
    (hi_first : Bool) (s : ℕ)
    → ((draw_u16 hi_first s).0 < 2 ^ 16)
      × ((draw_u16 hi_first s).1 ≡ advance 16 s)
      × ((draw_u32 hi_first s).0 < 2 ^ 32)
      × ((draw_u32 hi_first s).1 ≡ advance 32 s)
      × ((draw_u64 hi_first s).0 < 2 ^ 64)
      × ((draw_u64 hi_first s).1 ≡ advance 64 s)
draws_range hi_first s =
    let (a, b) = u16-Fits hi_first s in
    let (c, d) = u32-Fits hi_first s in let (e, f) = u64-Fits hi_first s in (a, b, c, d, e, f)
