-- ===== src/Prng/Tests.antt =====
-- Runs of libraries/c4rt/src/galois_lfsr.c, and its theorems at concrete registers.
use c4_os.Prelude.{◌≡◌, refl, true, false}
use c4_os.Prng.{default_seed, lfsr_next, draw_u8, join, draw_u16}

-- An odd register takes the taps in.
next_of_one : lfsr_next 1 ≡ 0xd800000000000000
unfolding lfsr_next
next_of_one = refl

-- The two orders of evaluation give the bytes in two orders.
first_u16 : ((draw_u16 true default_seed).0 ≡ 0x7d5d) × ((draw_u16 false default_seed).0 ≡ 0x5d7d)
unfolding draw_u16 join draw_u8
first_u16 = (refl, refl)
