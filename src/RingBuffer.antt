-- ===== src/RingBuffer.antt =====
-- libraries/c4rt/src/ringbuffer.c and libraries/c4rt/include/c4rt/ringbuffer.h: a ring of bytes
-- over caller-provided memory.
pub mod Bounds
pub mod Bulk
pub mod Queue
pub mod Refine
pub mod Space
mod Tests
use c4_os.Prelude.{
  ℕ, zero, suc, ◌+◌, ◌-◌, ◌%◌, ◌^◌, Bool, true, false, not, Option, none, some, List, [], ◌∷◌, ◌==◌,
  ltb, leb, if◌then◌else◌, set, get_or, add32, sub32,
}

-- `c4_ringbuf_t`; `bytes` is the flexible array `data`.
pub record RingBuf : Type 0 where
  pub read_index : ℕ
  pub write_index : ℕ
  pub size : ℕ
  pub bytes : List ℕ

-- `sizeof(c4_ringbuf_t)`: three 32-bit words, and the array takes no room.
abbrev pub header_size : ℕ
header_size = 12

unfoldable pub mask : RingBuf → ℕ → ℕ
mask buf value = value % buf.size

unfoldable pub increment : RingBuf → ℕ → ℕ
unfolding mask
increment buf value = mask buf (add32 value 1)

-- What the block's memory held before stays in `bytes`.
unfoldable pub init : RingBuf → ℕ → Bool × RingBuf
init buf n =
    if ltb (header_size + 1) n
    then (true, record buf { read_index = 0; write_index = 0; size = n - header_size })
    else (false, buf)

unfoldable pub is_full : RingBuf → Bool
unfolding increment
is_full buf = increment buf buf.write_index == buf.read_index

unfoldable pub is_empty : RingBuf → Bool
is_empty buf = buf.read_index == buf.write_index

unfoldable pub available : RingBuf → ℕ
unfolding mask
available buf = sub32 buf.size (mask buf (sub32 buf.write_index buf.read_index))

unfoldable pub can_write : RingBuf → ℕ → Bool
unfolding available
can_write buf n = ltb n (available buf)

unfoldable pub can_read : RingBuf → ℕ → Bool
unfolding available
can_read buf n = leb n (sub32 buf.size (available buf))

unfoldable pub put_byte : RingBuf → ℕ → Bool × RingBuf
unfolding is_full increment
put_byte buf byte =
    if not (is_full buf)
    then (
      true,
      record buf {
        bytes = set buf.bytes buf.write_index byte;
        write_index = increment buf buf.write_index;
      },
    )
    else (false, buf)

-- The option is what is stored through `byte`.
unfoldable pub get_byte : RingBuf → Option ℕ × RingBuf
unfolding is_empty increment
get_byte buf =
    if not (is_empty buf)
    then (
      some (get_or buf.bytes buf.read_index 0),
      record buf { read_index = increment buf buf.read_index },
    )
    else (none, buf)

-- The loop of `c4_ringbuf_write`: the list is what is left of `data`, and `wrote` counts.
write_loop : List ℕ → RingBuf → ℕ → ℕ × RingBuf
write_loop [] buf wrote = (wrote, buf)
write_loop (x ∷ xs) buf wrote =
    let (done, buf') = put_byte buf x in
    elim done [ true ↦ write_loop xs buf' (wrote + 1) | false ↦ (wrote, buf') ]

unfoldable pub write : RingBuf → List ℕ → ℕ × RingBuf
unfolding write_loop put_byte
write buf src = write_loop src buf 0

-- The loop of `c4_ringbuf_read`, over the rounds left: the count, the bytes that it stores in
-- `data`, and the ring.
read_loop : ℕ → RingBuf → ℕ → ℕ × List ℕ × RingBuf
read_loop zero buf count = (count, [], buf)
read_loop (suc n) buf count =
    let (out, buf') = get_byte buf in
    elim out [
      | none ↦ (count, [], buf')
      | some b ↦ let (total, rest, last) = read_loop n buf' (count + 1) in (total, b ∷ rest, last)
    ]

unfoldable pub read : RingBuf → ℕ → ℕ × List ℕ × RingBuf
unfolding read_loop get_byte
read buf n = read_loop n buf 0
