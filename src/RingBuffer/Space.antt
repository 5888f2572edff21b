-- ===== src/RingBuffer/Space.antt =====
-- `c4_ringbuf_available`, `c4_ringbuf_can_write` and `c4_ringbuf_can_read`: what they say of the
-- room in the ring.
use native.Mathlib.Nat.{mod-eq_of_lt, mod-lt, mod-add-mod, mod-eq-sub-mod}
use native.Mathlib.Decide.{dec_lt, dec_le}
use c4_os.Prelude.{
  ℕ, ◌+◌, ◌-◌, ◌%◌, ◌^◌, ◌≤◌, ◌<◌, ◌≡◌, ◌⊎◌, ◌↔◌, inl, inr, ap, sym, ◌∙◌, arith, leb, sub32,
}
use c4_os.RingBuffer.{RingBuf, available, can_write, can_read}
use c4_os.RingBuffer.Bounds.{IsValid, used}

-- What `c4_ringbuf_available` takes for the bytes held.
abbrev seen : RingBuf → ℕ
seen buf = sub32 buf.write_index buf.read_index % buf.size

available-seen : {buf : RingBuf} → IsValid buf → available buf ≡ buf.size - seen buf
unfolding available
available-seen {buf} v =
    omega (arith, mod-lt (sub32 buf.write_index buf.read_index) {m = buf.size} (omega arith))

seen_straight :
    {buf : RingBuf} → IsValid buf → buf.read_index ≤ buf.write_index → seen buf ≡ used buf
seen_straight {buf} v h =
    let e : sub32 buf.write_index buf.read_index ≡ buf.write_index - buf.read_index = omega arith in
    ground
      (arith, e, mod-eq_of_lt {n = buf.write_index - buf.read_index} {m = buf.size} (omega arith))

seen_round :
    {buf : RingBuf}
    → IsValid buf
    → buf.write_index < buf.read_index
    → seen buf ≡ (2 ^ 32 % buf.size + used buf) % buf.size
seen_round {buf} v h =
    let e : sub32 buf.write_index buf.read_index ≡ 2 ^ 32 - buf.size + used buf = ground arith in
    ap (λ k. k % buf.size) e
    ∙ sym (mod-add-mod (2 ^ 32 - buf.size) buf.size (used buf))
    ∙ ap (λ k. (k + used buf) % buf.size)
        (sym (mod-eq-sub-mod {n = 2 ^ 32} {m = buf.size} (omega arith)))

round-eq : (c u m : ℕ) → c < m → u < m → (c + u) % m ≡ u → c ≡ 0
round-eq c u m hc hu e = elim (dec_lt (c + u) m) [
  | yes p ↦ omega (arith, mod-eq_of_lt p)
  | no p ↦ omega (
    arith,
    mod-eq-sub-mod {n = c + u} {m = m} (omega arith),
    mod-eq_of_lt {n = c + u - m} {m = m} (omega arith),
  )
]

seen_iff :
    {buf : RingBuf}
    → IsValid buf
    → (seen buf ≡ used buf) ↔ ((buf.read_index ≤ buf.write_index) ⊎ (2 ^ 32 % buf.size ≡ 0))
seen_iff {buf} v = (forth, back)
  where
    forth : seen buf ≡ used buf → (buf.read_index ≤ buf.write_index) ⊎ (2 ^ 32 % buf.size ≡ 0)
    forth e = elim (dec_le buf.read_index buf.write_index) [
      | yes p ↦ inl p
      | no p ↦ inr (
          round-eq (2 ^ 32 % buf.size) (used buf) buf.size
            (mod-lt (2 ^ 32) {m = buf.size} (omega arith)) (ground arith)
            (sym (seen_round v (omega arith)) ∙ e))
    ]

    back : (buf.read_index ≤ buf.write_index) ⊎ (2 ^ 32 % buf.size ≡ 0) → seen buf ≡ used buf
    back (inl p) = seen_straight v p
    back (inr z) = elim (dec_le buf.read_index buf.write_index) [
      | yes p ↦ seen_straight v p
      | no p ↦
          seen_round v (omega arith)
          ∙ ap (λ k. (k + used buf) % buf.size) z
          ∙ mod-eq_of_lt {n = 0 + used buf} {m = buf.size} (ground arith)
          ∙ omega arith
    ]

-- On a valid ring `c4_ringbuf_available` is the size less the bytes held exactly if the contents do
-- not go round the end of the storage or the size divides 2 ^ 32: the difference of the indices
-- wraps at 2 ^ 32, not at the size.
pub available_iff :
    {buf : RingBuf}
    → IsValid buf
    → (available buf ≡ buf.size - used buf)
      ↔ ((buf.read_index ≤ buf.write_index) ⊎ (2 ^ 32 % buf.size ≡ 0))
available_iff {buf} v =
    let bound = mod-lt (sub32 buf.write_index buf.read_index) {m = buf.size} (omega arith) in
    (
      λ e. (seen_iff v).0 (ground (arith, available-seen v, bound)),
      λ h. ground (arith, available-seen v, (seen_iff v).1 h),
    )

-- On a valid ring whose contents do not go round the end of the storage, or whose size divides 2 ^
-- 32, `c4_ringbuf_can_write` says whether that many bytes fit beside the one that stays unused, and
-- `c4_ringbuf_can_read` whether that many are held.
pub can_write-can_read :
    {buf : RingBuf} (n : ℕ)
    → IsValid buf
    → (buf.read_index ≤ buf.write_index) ⊎ (2 ^ 32 % buf.size ≡ 0)
    → (can_write buf n ≡ leb n (buf.size - 1 - used buf)) × (can_read buf n ≡ leb n (used buf))
unfolding can_write can_read
can_write-can_read {buf} n v h =
    let e = (available_iff v).1 h in
    let room : used buf < buf.size = ground arith in
    let back : sub32 buf.size (available buf) ≡ used buf = rw e (omega arith) in
    (rw e (ground arith), rw back)
