-- ===== src/Strings/Memory.antt =====
-- `memcpy` and `memset` by their effect on every byte.
use c4_os.Prelude.{
  ℕ, zero, suc, ◌+◌, ◌-◌, ◌%◌, ◌^◌, ◌≤◌, ◌≡◌, ◌⊎◌, arith, ltb, leb, ◌&&◌, if◌then◌else◌,
}
use c4_os.Strings.{Memory, store, memcpy_from, memcpy, memset_from, memset}

memcpy_from_lem :
    (n i d s : ℕ) (m : Memory) (j : ℕ)
    → (d ≤ s) ⊎ (s + i + n ≤ d)
    → memcpy_from n i d s m j
      ≡ (if leb (d + i) j && ltb j (d + i + n) then m (s + (j - d)) else m j)
unfolding memcpy_from store
memcpy_from_lem zero i d s m j apart = ground arith
memcpy_from_lem (suc n) i d s m j apart =
    let ih =
      memcpy_from_lem n (i + 1) d s (store m (d + i) (m (s + i))) j (ground (arith, apart)) in
    ground (arith, ih, apart)

-- `memcpy` copies exactly the `n` bytes, if the two ranges do not overlap, and also if they do and
-- the destination comes first.
pub memcpy_lem :
    (d s n : ℕ) (m : Memory) (j : ℕ)
    → (d ≤ s) ⊎ (s + n ≤ d)
    → memcpy d s n m j ≡ (if leb d j && ltb j (d + n) then m (s + (j - d)) else m j)
unfolding memcpy
memcpy_lem d s n m j apart = ground (arith, memcpy_from_lem n 0 d s m j, apart)

memset_from_lem :
    (n i s c : ℕ) (m : Memory) (j : ℕ)
    → memset_from n i s c m j ≡ (if leb (s + i) j && ltb j (s + i + n) then c % 2 ^ 8 else m j)
unfolding memset_from store
memset_from_lem zero i s c m j = ground arith
memset_from_lem (suc n) i s c m j =
    ground (arith, memset_from_lem n (i + 1) s c (store m (s + i) (c % 2 ^ 8)) j)

-- `memset` sets exactly the `n` bytes, to the low byte of the value.
pub memset_lem :
    (s c n : ℕ) (m : Memory) (j : ℕ)
    → memset s c n m j ≡ (if leb s j && ltb j (s + n) then c % 2 ^ 8 else m j)
unfolding memset
memset_lem s c n m j = ground (arith, memset_from_lem n 0 s c m j)
