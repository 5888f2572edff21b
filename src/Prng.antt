-- ===== src/Prng.antt =====
-- libraries/c4rt/src/galois_lfsr.c: a 64-bit Galois linear feedback shift register. The static
-- `state` is passed from call to call.
pub mod Draws
pub mod Register
mod Tests
use Prim.Native.Nat.{bit_or, bit_xor}
use c4_os.Prelude.{ℕ, zero, suc, ◌-◌, ◌*◌, ◌/◌, ◌%◌, ◌^◌, Bool, true, false, ◌==◌, if◌then◌else◌}

-- `C4RT_PRNG_DEFAULT_SEED`, the first `state`.
abbrev pub default_seed : ℕ
default_seed = 0xabadc0debabe

unfoldable pub tapbit : ℕ → ℕ
tapbit bit = 2 ^ (bit - 1)

unfoldable pub lfsr_next : ℕ → ℕ
unfolding tapbit
lfsr_next state =
    let bit = state % 2 in
    let shifted = state / 2 in
    if bit == 0
    then shifted
    else bit_xor shifted (bit_or (bit_or (bit_or (tapbit 64) (tapbit 63)) (tapbit 61)) (tapbit 60))

unfoldable pub lfsr_output : ℕ → Bool
lfsr_output state = if state % 2 == 0 then false else true

-- Every draw returns its result and the next state.
unfoldable pub draw_bool : ℕ → Bool × ℕ
unfolding lfsr_output lfsr_next
draw_bool state = (lfsr_output state, lfsr_next state)

bit_of : Bool → ℕ
bit_of true = 1
bit_of false = 0

-- The loop of `c4rt_prng_u8` over the rounds left: `ret <<= 1; ret |= c4rt_prng_bool()`, on 8 bits.
u8_loop : ℕ → ℕ → ℕ → ℕ × ℕ
u8_loop zero ret state = (ret, state)
u8_loop (suc n) ret state =
    let (b, state') = draw_bool state in u8_loop n (bit_or (ret * 2 % 2 ^ 8) (bit_of b)) state'

pub draw_u8 : ℕ → ℕ × ℕ
unfolding u8_loop draw_bool bit_of
draw_u8 state = u8_loop 8 0 state

-- `(draw << width) | draw`. C leaves it open which operand is drawn first: `hi_first` is the
-- compiler's choice.
join : Bool → ℕ → (ℕ → ℕ × ℕ) → ℕ → ℕ × ℕ
join hi_first width draw state =
    let (a, mid) = draw state in
    let (b, last) = draw mid in
    (if hi_first then bit_or (a * 2 ^ width) b else bit_or (b * 2 ^ width) a, last)

pub draw_u16 : Bool → ℕ → ℕ × ℕ
draw_u16 hi_first = join hi_first 8 draw_u8

pub draw_u32 : Bool → ℕ → ℕ × ℕ
draw_u32 hi_first = join hi_first 16 (draw_u16 hi_first)

pub draw_u64 : Bool → ℕ → ℕ × ℕ
draw_u64 hi_first = join hi_first 32 (draw_u32 hi_first)
