-- ===== src/RingBuffer/Refine.antt =====
-- A valid ring is a queue of at most `size - 1` bytes.
use c4_os.Prelude.{
  ℕ, zero, suc, ◌-◌, ◌≤◌, ◌<◌, ◌≡◌, ◌≢◌, refl, ap, ap₂, List, [], ◌∷◌, ◌++◌, arith, length, set,
  get_or, get_or-set_self, get_or-set_ne,
}
use c4_os.RingBuffer.{RingBuf, put_byte, get_byte}
use c4_os.RingBuffer.Bounds.{
  IsValid, next, dist, used, increment-write, increment-read, is_full-is_empty-used,
}
use c4_os.RingBuffer.Queue.{enqueue, dequeue}

-- The `n` bytes of the storage from index `i` on, round the end.
abbrev pub span : List ℕ → (size i n : ℕ) → List ℕ
span bytes size i zero = []
span bytes size i (suc n) = get_or bytes i 0 ∷ span bytes size (next size i) n

abbrev pub contents : RingBuf → List ℕ
contents buf = span buf.bytes buf.size buf.read_index (used buf)

module _ (bytes : List ℕ) (size : ℕ) where
  length-span : (i n : ℕ) → length (span bytes size i n) ≡ n
  length-span i zero = refl
  length-span i (suc n) = ap suc (length-span (next size i) n)

  -- A byte written past the span leaves it alone.
  span-set :
      (i n j x : ℕ)
      → i < size
      → j < size
      → n ≤ dist size i j
      → span (set bytes j x) size i n ≡ span bytes size i n
  span-set i zero j x hi hj far = refl
  span-set i (suc n) j x hi hj far =
      ap₂ ◌∷◌ (get_or-set_ne bytes x 0 (ground arith))
        (span-set (next size i) n j x (ground arith) hj (ground arith))

  -- A byte written just past the span makes it one longer.
  span-set_end :
      (i n j x : ℕ)
      → size ≤ length bytes
      → i < size
      → j < size
      → n ≡ dist size i j
      → span (set bytes j x) size i (suc n) ≡ span bytes size i n ++ x ∷ []
  span-set_end i zero j x fits hi hj far =
      let same : i ≡ j = ground arith in rw (same, get_or-set_self bytes j x 0 (omega arith))
  span-set_end i (suc n) j x fits hi hj far =
      ap₂ ◌∷◌ (get_or-set_ne bytes x 0 (ground arith))
        (span-set_end (next size i) n j x fits (ground arith) hj (ground arith))

pub length-contents : (buf : RingBuf) → length (contents buf) ≡ used buf
length-contents buf = length-span buf.bytes buf.size buf.read_index (used buf)

-- Storing a byte is `enqueue` with room for `size - 1` bytes.
pub put_byte-enqueue :
    {buf : RingBuf} (x : ℕ)
    → IsValid buf
    → let (done, buf') = put_byte buf x in
      (done, contents buf') ≡ enqueue (buf.size - 1) (contents buf) x
unfolding put_byte enqueue
put_byte-enqueue {buf} x v = ground (
  arith,
  length-contents buf,
  is_full-is_empty-used v,
  increment-write v,
  span-set_end buf.bytes buf.size buf.read_index (used buf) buf.write_index x v.storage v.read_in
      v.write_in refl,
)

span-step :
    (bytes : List ℕ) (size i n : ℕ)
    → n ≢ 0
    → span bytes size i n ≡ get_or bytes i 0 ∷ span bytes size (next size i) (n - 1)
span-step bytes size i zero h = absurd (h refl)
span-step bytes size i (suc n) h = ap (λ k. span bytes size i (suc k)) (omega arith)

span-none : (bytes : List ℕ) (size i n : ℕ) → n ≡ 0 → span bytes size i n ≡ []
span-none bytes size i zero h = refl
span-none bytes size i (suc n) h = absurd (omega arith)

-- Fetching a byte is `dequeue`.
pub get_byte-dequeue :
    {buf : RingBuf}
    → IsValid buf
    → let (out, buf') = get_byte buf in (out, contents buf') ≡ dequeue (contents buf)
unfolding get_byte dequeue
get_byte-dequeue {buf} v = ground (
  arith,
  is_full-is_empty-used v,
  increment-read v,
  span-none buf.bytes buf.size buf.read_index (used buf),
  span-step buf.bytes buf.size buf.read_index (used buf),
)
