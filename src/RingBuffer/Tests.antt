-- ===== src/RingBuffer/Tests.antt =====
-- Runs of the ring of libraries/c4rt/src/ringbuffer.c, and its theorems at concrete rings.
use c4_os.Prelude.{
  ◌-◌, ◌^◌, ◌%◌, ◌≤◌, ◌≡◌, ◌⊎◌, ◌↔◌, refl, true, false, none, some, List, [], ◌∷◌, arith,
}
use c4_os.RingBuffer.{RingBuf, available}
use c4_os.RingBuffer.Bounds.{IsValid, used}
use c4_os.RingBuffer.Queue.{
  Op, put, get, put_all, get_all, call, calls, answers, stored, taken, count, chunk,
}
use c4_os.RingBuffer.Bulk.{calls-answers}
use c4_os.RingBuffer.Space.{available_iff}

-- Two bytes, 7 and 8, round the end of five.
abbrev wrapped : RingBuf
wrapped = record { read_index = 4; write_index = 1; size = 5; bytes = 8 ∷ 0 ∷ 0 ∷ 0 ∷ 7 ∷ [] }

-- The same two bytes, not round the end.
abbrev straight : RingBuf
straight = record { read_index = 1; write_index = 3; size = 5; bytes = 0 ∷ 7 ∷ 8 ∷ 0 ∷ 0 ∷ [] }

abbrev block : RingBuf
block = record { read_index = 9; write_index = 9; size = 9; bytes = 0 ∷ 0 ∷ 0 ∷ [] }

wrapped-IsValid : IsValid wrapped
wrapped-IsValid = omega arith

straight-IsValid : IsValid straight
straight-IsValid = omega arith

abbrev script : List Op
script = put 9 ∷ put_all (1 ∷ 2 ∷ 3 ∷ []) ∷ put 4 ∷ get ∷ get_all 9 ∷ get ∷ []

script_run :
    calls wrapped script
    ≡ stored true
      ∷ count 1
      ∷ stored false
      ∷ taken (some 7)
      ∷ chunk 3 (8 ∷ 9 ∷ 1 ∷ [])
      ∷ taken none
      ∷ []
unfolding calls call
script_run = refl

-- 2 ^ 32 leaves 1 by 5: one byte of room too few is reported.
available-wrapped : (available wrapped ≡ 2) × (available straight ≡ 3)
unfolding available
available-wrapped = (refl, refl)

calls-answers_example : calls wrapped script ≡ answers 4 (7 ∷ 8 ∷ []) script
calls-answers_example = calls-answers script wrapped-IsValid

available_iff_example : (available wrapped ≡ 5 - used wrapped) ↔ ((4 ≤ 1) ⊎ (2 ^ 32 % 5 ≡ 0))
available_iff_example = available_iff wrapped-IsValid
