-- ===== src/RingBuffer/Bounds.antt =====
-- The invariant of `c4_ringbuf_t`: no index leaves the storage and no addition wraps.
use native.Mathlib.Nat.{mod-eq_of_lt, mod-eq-sub-mod}
use native.Mathlib.Decide.{dec_lt}
use c4_os.Prelude.{
  ℕ, ◌+◌, ◌-◌, ◌%◌, ◌^◌, ◌≤◌, ◌<◌, ◌≡◌, true, ◌==◌, leb, if◌then◌else◌, arith, length, length-set,
}
use c4_os.RingBuffer.{RingBuf, header_size, increment, init, is_full, is_empty, put_byte, get_byte}

pub record IsValid (buf : RingBuf) : Type 0 where
  pub room : 2 ≤ buf.size
  pub small : buf.size < 2 ^ 32
  pub storage : buf.size ≤ length buf.bytes
  pub read_in : buf.read_index < buf.size
  pub write_in : buf.write_index < buf.size

-- The index after `i` in a ring of `size` bytes, and the way from `i` round to `j`.
abbrev pub next : ℕ → ℕ → ℕ
next size i = if i + 1 == size then 0 else i + 1

abbrev pub dist : ℕ → ℕ → ℕ → ℕ
dist size i j = if leb i j then j - i else j + size - i

-- How many bytes the ring holds.
abbrev pub used : RingBuf → ℕ
used buf = dist buf.size buf.read_index buf.write_index

next-mod : (size i : ℕ) → i < size → (i + 1) % size ≡ next size i
next-mod size i h = elim (dec_lt (i + 1) size) [
  | yes p ↦ ground (arith, mod-eq_of_lt p)
  | no p ↦ ground (
    arith,
    mod-eq-sub-mod {n = i + 1} {m = size} (omega arith),
    mod-eq_of_lt {n = i + 1 - size} {m = size} (omega arith),
  )
]

pub increment-next :
    (buf : RingBuf) (i : ℕ) → i < buf.size → buf.size < 2 ^ 32 → increment buf i ≡ next buf.size i
unfolding increment
increment-next buf i h s =
    ground (arith, next-mod buf.size i h, mod-eq_of_lt {n = i + 1} {m = 2 ^ 32} (omega arith))

module _ {buf : RingBuf} (v : IsValid buf) where
  pub increment-write : increment buf buf.write_index ≡ next buf.size buf.write_index
  increment-write = increment-next buf buf.write_index v.write_in v.small

  pub increment-read : increment buf buf.read_index ≡ next buf.size buf.read_index
  increment-read = increment-next buf buf.read_index v.read_in v.small

-- On a valid ring `c4_ringbuf_full` holds exactly if all but one of the `size` bytes are used, and
-- `c4_ringbuf_empty` exactly if none is, so that a full ring is told from an empty one.
pub is_full-is_empty-used :
    {buf : RingBuf}
    → IsValid buf
    → (is_full buf ≡ (used buf + 1 == buf.size)) × (is_empty buf ≡ (used buf == 0))
unfolding is_full is_empty
is_full-is_empty-used v = ground (arith, increment-write v)

-- For a block of `n` bytes, below 2 ^ 32, that the memory has, `c4_ringbuf_init` accepts it exactly
-- if it leaves two bytes or more after the header, and the ring that it then sets up is valid and
-- empty.
pub init-IsValid :
    (buf : RingBuf) (n : ℕ)
    → n < 2 ^ 32
    → n ≤ header_size + length buf.bytes
    → ((init buf n).0 ≡ leb (header_size + 2) n)
      × ((init buf n).0 ≡ true → IsValid (init buf n).1 × (used (init buf n).1 ≡ 0))
unfolding init
init-IsValid buf n small fits = (ground arith, λ h. ground arith)

pub put_byte-IsValid : {buf : RingBuf} (b : ℕ) → IsValid buf → IsValid (put_byte buf b).1
unfolding put_byte
put_byte-IsValid {buf} b v =
    ground (arith, increment-write v, length-set buf.bytes buf.write_index b)

pub get_byte-IsValid : {buf : RingBuf} → IsValid buf → IsValid (get_byte buf).1
unfolding get_byte
get_byte-IsValid v = ground (arith, increment-read v)

pub size-put_byte : (buf : RingBuf) (b : ℕ) → (put_byte buf b).1.size ≡ buf.size
unfolding put_byte
size-put_byte buf b = ground arith

pub size-get_byte : (buf : RingBuf) → (get_byte buf).1.size ≡ buf.size
unfolding get_byte
size-get_byte buf = ground arith
