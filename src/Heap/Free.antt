-- ===== src/Heap/Free.antt =====
-- `c4a_free` on the blocks of a region.
use c4_os.Prelude.{
  ==-same, ℕ, ◌+◌, ◌-◌, ◌^◌, ◌<◌, ◌≡◌, ◌≢◌, ◌∙◌, refl, sym, arith, true, ◌⊎◌, inl, inr, Bool-cases,
  Option, some, List, ◌==◌, length,
}
use c4_os.Heap.{
  Heap, can_coalesce, coalesce, free, insert_free, bucket_insert, write_status, write_next,
  write_previous, status_free, status_used, node_size,
}
use c4_os.Heap.Lists.{mem}
use c4_os.Heap.Chains.{Region, IsUnmoved, IsUnmoved-Region}
use c4_os.Heap.Split.{bucket_insert-IsUnmoved}
use c4_os.Heap.Spill.{bucket_insert-start}
use c4_os.Heap.Coalesce.{IsCoalesced, Coalesced, coalesce-IsCoalesced}

can_coalesce-IsUnmoved :
    (m m' : Heap) (a b : ℕ) → IsUnmoved m m' → can_coalesce a b m' ≡ can_coalesce a b m
unfolding can_coalesce
can_coalesce-IsUnmoved m m' a b same = rw ((same a).3, (same b).3, (same a).2, (same b).2) refl

IsUnmoved-IsCoalesced :
    (m m' : Heap) (at stop first end node : ℕ)
    → IsUnmoved m m'
    → 0 < at
    → IsCoalesced at stop first end node m
    → IsCoalesced at stop first end node m'
IsUnmoved-IsCoalesced m m' at stop first end node same low c = record {
  blocks = c.blocks;
  whole = IsUnmoved-Region m m' at stop c.blocks same low c.whole;
  listed = c.listed;
  unused = (same node).3 ∙ c.unused;
  holds_first = c.holds_first;
  holds_end = rw (same node).2 c.holds_end;
  none_before =
      rw (same node).1 (can_coalesce-IsUnmoved m m' (m.phys_prev node) node same ∙ c.none_before);
  none_after =
      rw (same node).0 (can_coalesce-IsUnmoved m m' node (m.phys_next node) same ∙ c.none_after);
}

-- What a call of `free` comes to, from what the block before the pointer was.
abbrev pub Freed : Heap → ℕ → ℕ → ℕ → Option Heap → Type 0
Freed m at stop old result =
    (node : ℕ) × (m' : Heap) × (result ≡ some m')
    × IsCoalesced at stop old (old + 2 ^ m.bucket old) node m'
    × (m'.buckets (m'.bucket node) ≡ node)

insert_free-Freed :
    (m : Heap) (at stop old : ℕ) (result : Option (ℕ × Heap))
    → 0 < at
    → Coalesced result at stop old (old + 2 ^ m.bucket old)
    → Freed m at stop old (insert_free result)
unfolding insert_free
insert_free-Freed m at stop old result low c =
    let b : ℕ = c.1.bucket c.0 in
    let m' : Heap = bucket_insert b c.0 c.1 in
    let same = bucket_insert-IsUnmoved b c.0 c.1 in
    (
      c.0,
      m',
      rw c.2 refl,
      IsUnmoved-IsCoalesced c.1 m' at stop old (old + 2 ^ m.bucket old) c.0 same low c.3,
      rw (same c.0).2 (bucket_insert-start b c.0 c.1),
    )

-- For a pointer behind the header of one of the blocks that fill a region without a gap, the first of
-- them not at address 0, with more rounds than the region has blocks: if the block is not in use, the
-- call is refused and changes nothing; if it is in use, the call ends, the region is filled without a
-- gap again, and the block is part of a free one, which no free neighbour of its size can be added to
-- and which is the first in the list of its size. Nothing is said of other pointers.
pub free_lem :
    (fuel ptr at stop : ℕ) (m : Heap) (xs : List ℕ)
    → 0 < at
    → length xs < fuel
    → mem (ptr - node_size) xs ≡ true
    → Region m at stop xs
    → ((m.status (ptr - node_size) ≢ status_used) × (free fuel ptr m ≡ some m))
      ⊎ ((m.status (ptr - node_size) ≡ status_used)
          × Freed m at stop (ptr - node_size) (free fuel ptr m))
unfolding free
free_lem fuel ptr at stop m xs low enough inside region =
    let n : ℕ = ptr - 20 in
    let m1 : Heap = write_previous n 0 (write_next n 0 (write_status n status_free m)) in
    let c =
      coalesce-IsCoalesced fuel m1 at stop n (n + 2 ^ m.bucket n) n xs low enough inside
        (ground arith) (omega arith) (omega arith) region in
    elim (Bool-cases (m.status n == status_used)) [
      | inr e ↦ rw e (inl (λ z. ground (arith, z, e), refl))
      | inl e ↦ rw e (
          inr (
            sym (==-same (m.status n) status_used e),
            insert_free-Freed m at stop n (coalesce fuel n m1) low c,
          ))
    ]
