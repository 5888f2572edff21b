-- ===== src/RingBuffer/Bulk.antt =====
-- `c4_ringbuf_write` and `c4_ringbuf_read`, and sequences of calls.
use c4_os.Prelude.{
  ℕ, zero, suc, ◌+◌, ◌-◌, ◌≡◌, ◌≢◌, refl, true, false, none, some, List, [], ◌∷◌, ◌++◌,
  append_assoc, append-nil, arith, Bool-cases, length, length-append, get_or, take, drop, min, inl,
  inr,
}
use c4_os.RingBuffer.{
  RingBuf, is_full, is_empty, put_byte, get_byte, write_loop, write, read_loop, read,
}
use c4_os.RingBuffer.Bounds.{
  IsValid, used, is_full-is_empty-used, put_byte-IsValid, get_byte-IsValid, size-put_byte,
  size-get_byte,
}
use c4_os.RingBuffer.Queue.{
  Op, put, get, put_all, get_all, enqueue, dequeue, answer, answers, call, calls,
}
use c4_os.RingBuffer.Refine.{contents, length-contents, put_byte-enqueue, get_byte-dequeue}

put_byte-full : (buf : RingBuf) (x : ℕ) → is_full buf ≡ true → put_byte buf x ≡ (false, buf)
unfolding put_byte
put_byte-full buf x h = ground arith

-- What one stored byte does, where there is room.
put_byte-room :
    {buf : RingBuf} (x : ℕ)
    → IsValid buf
    → is_full buf ≡ false
    → let (done, buf') = put_byte buf x in
      (done ≡ true) × (contents buf' ≡ contents buf ++ x ∷ []) × (used buf' ≡ used buf + 1)
unfolding enqueue
put_byte-room {buf} x v h = ground (
  arith,
  put_byte-enqueue x v,
  is_full-is_empty-used v,
  length-contents buf,
  length-contents (put_byte buf x).1,
  length-append (contents buf) (x ∷ []),
)

record Wrote (buf : RingBuf) (src : List ℕ) (wrote : ℕ) (out : ℕ × RingBuf) : Type 0 where
  valid : IsValid out.1
  same_size : out.1.size ≡ buf.size
  counted : out.0 ≡ wrote + min (buf.size - 1 - used buf) (length src)
  holds : contents out.1 ≡ contents buf ++ take (buf.size - 1 - used buf) src

take-zero {ℓ} : {A : Type ℓ} (n : ℕ) (xs : List A) → n ≡ 0 → take n xs ≡ []
take-zero zero xs h = refl
take-zero (suc n) xs h = absurd (omega arith)

take-step {ℓ} :
    {A : Type ℓ} (n : ℕ) (x : A) (xs : List A) → n ≢ 0 → take n (x ∷ xs) ≡ x ∷ take (n - 1) xs
take-step zero x xs h = absurd (h refl)
take-step (suc n) x xs h = let e : suc n - 1 ≡ n = omega arith in rw e refl

take-nil : (n : ℕ) → take {A = ℕ} n [] ≡ []
take-nil zero = refl
take-nil (suc n) = refl

drop-nil : (n : ℕ) → drop {A = ℕ} n [] ≡ []
drop-nil zero = refl
drop-nil (suc n) = refl

write_loop-Wrote :
    (src : List ℕ) {buf : RingBuf} (wrote : ℕ)
    → IsValid buf
    → Wrote buf src wrote (write_loop src buf wrote)
unfolding write_loop
write_loop-Wrote [] {buf} wrote v = record {
  valid = v;
  same_size = refl;
  counted = omega arith;
  holds = rw (take-nil, append-nil);
}
write_loop-Wrote (x ∷ xs) {buf} wrote v = elim (Bool-cases (is_full buf)) [
  | inl full ↦ ground (
    arith,
    put_byte-full buf x full,
    is_full-is_empty-used v,
    append-nil (contents buf),
    take-zero (buf.size - 1 - used buf) (x ∷ xs),
  )
  | inr room ↦ ground (
    arith,
    write_loop-Wrote xs (wrote + 1) (put_byte-IsValid x v),
    put_byte-room x v room,
    is_full-is_empty-used v,
    size-put_byte buf x,
    take-step (buf.size - 1 - used buf) x xs,
    append_assoc (contents buf) (x ∷ []) (take (buf.size - 1 - used buf - 1) xs),
  )
]

-- On a valid ring `c4_ringbuf_write` stores as many bytes as fit, returns their number, appends
-- exactly those to the contents in order, and keeps the ring valid and its size.
pub write_lem :
    {buf : RingBuf} (src : List ℕ)
    → IsValid buf
    → let (n, buf') = write buf src in
      (n ≡ min (buf.size - 1 - used buf) (length src))
      × (contents buf' ≡ contents buf ++ take (buf.size - 1 - used buf) src)
      × IsValid buf'
      × (buf'.size ≡ buf.size)
unfolding write
write_lem src v =
    let w = write_loop-Wrote src 0 v in (omega (arith, w.counted), w.holds, w.valid, w.same_size)

get_byte-empty : (buf : RingBuf) → is_empty buf ≡ true → get_byte buf ≡ (none, buf)
unfolding get_byte
get_byte-empty buf h = ground arith

get_byte-some :
    (buf : RingBuf) → is_empty buf ≡ false → (b : ℕ) × (get_byte buf ≡ (some b, (get_byte buf).1))
unfolding get_byte
get_byte-some buf h = (get_or buf.bytes buf.read_index 0, ground arith)

-- What one fetched byte does, where there is one.
get_byte-more :
    {buf : RingBuf} (b : ℕ)
    → IsValid buf
    → (get_byte buf).0 ≡ some b
    → (contents buf ≡ b ∷ contents (get_byte buf).1) × (used buf ≡ used (get_byte buf).1 + 1)
unfolding dequeue
get_byte-more {buf} b v h =
    ground (arith, get_byte-dequeue v, length-contents buf, length-contents (get_byte buf).1)

record Fetched (buf : RingBuf) (n count : ℕ) (out : ℕ × List ℕ × RingBuf) : Type 0 where
  valid : IsValid out.2
  same_size : out.2.size ≡ buf.size
  counted : out.0 ≡ count + min n (used buf)
  bytes : out.1 ≡ take n (contents buf)
  holds : contents out.2 ≡ drop n (contents buf)

Fetched-none :
    {buf : RingBuf} (n count : ℕ)
    → IsValid buf
    → is_empty buf ≡ true
    → Fetched buf n count (count, [], buf)
Fetched-none {buf} n count v h =
    let gone : contents buf ≡ [] = ground (arith, is_full-is_empty-used v, length-contents buf) in
    record {
      valid = v;
      same_size = refl;
      counted = ground (arith, is_full-is_empty-used v);
      bytes = rw (gone, take-nil);
      holds = rw (gone, drop-nil);
    }

read_loop-Fetched :
    (n : ℕ) {buf : RingBuf} (count : ℕ) → IsValid buf → Fetched buf n count (read_loop n buf count)
unfolding read_loop
read_loop-Fetched zero {buf} count v = record {
  valid = v;
  same_size = refl;
  counted = omega arith;
  bytes = refl;
  holds = refl;
}
read_loop-Fetched (suc n) {buf} count v = elim (Bool-cases (is_empty buf)) [
  | inl empty ↦ ground (arith, get_byte-empty buf empty, Fetched-none (suc n) count v empty)
  | inr more ↦
      let (b, got) = get_byte-some buf more in
      let (front, fewer) = get_byte-more b v (ground arith) in
      let rest = read_loop-Fetched n (count + 1) (get_byte-IsValid v) in
      ground (arith, rest, got, front, fewer, size-get_byte buf)
]

-- On a valid ring `c4_ringbuf_read` fetches as many bytes as are asked for and there, in order,
-- returns their number, leaves the rest, and keeps the ring valid and its size.
pub read_lem :
    {buf : RingBuf} (n : ℕ)
    → IsValid buf
    → let (m, out, buf') = read buf n in
      (m ≡ min n (used buf))
      × (out ≡ take n (contents buf))
      × (contents buf' ≡ drop n (contents buf))
      × IsValid buf'
      × (buf'.size ≡ buf.size)
unfolding read
read_lem n v =
    let r = read_loop-Fetched n 0 v in
    (omega (arith, r.counted), r.bytes, r.holds, r.valid, r.same_size)

-- One call on a valid ring answers as the queue does, and keeps the ring valid.
call-answer :
    {buf : RingBuf} (op : Op)
    → IsValid buf
    → let (r, buf') = call buf op in
      ((r, contents buf') ≡ answer (buf.size - 1) (contents buf) op)
      × IsValid buf'
      × (buf'.size ≡ buf.size)
unfolding call answer
call-answer {buf} (put x) v =
    ground (arith, put_byte-enqueue x v, put_byte-IsValid x v, size-put_byte buf x)
call-answer {buf} get v = ground (arith, get_byte-dequeue v, get_byte-IsValid v, size-get_byte buf)
call-answer {buf} (put_all xs) v = ground (arith, write_lem xs v, length-contents buf)
call-answer {buf} (get_all n) v = ground (arith, read_lem n v, length-contents buf)

-- Every sequence of calls of `c4_ringbuf_put_byte`, `c4_ringbuf_get_byte`, `c4_ringbuf_write` and
-- `c4_ringbuf_read` on a valid ring answers as on the queue of its contents, bounded by `size - 1`.
pub calls-answers :
    (ops : List Op) {buf : RingBuf}
    → IsValid buf
    → calls buf ops ≡ answers (buf.size - 1) (contents buf) ops
unfolding calls answers
calls-answers [] v = refl
calls-answers (op ∷ ops) {buf} v =
    let (same, valid, size) = call-answer op v in
    ground (arith, calls-answers ops valid, same, size)
