-- ===== src/Heap/Take.antt =====
-- `c4a_alloc`: the block it takes.
use mathlib.Core.Path.{subst}
use native.Mathlib.Nat.{pow-le-pow_right}
use native.Mathlib.Decide.{dec_lt}
use c4_os.Prelude.{
  ap, ℕ, ◌+◌, ◌*◌, ◌^◌, ◌≤◌, ◌<◌, ◌≡◌, ◌≢◌, ◌⊎◌, ◌∙◌, refl, sym, arith, true, false, ◌==◌, ltb, inl,
  inr,
}
use c4_os.Heap.{
  Heap, bucket_pop, find_upwards_bucket, bucket_spillover, get_node_from_bucket, alloc,
  write_status, node_unlink, bucket_index, max_buckets, node_size, status_used,
}
use c4_os.Heap.Sizes.{bucket_index_lem}
use c4_os.Heap.Split.{node_unlink-IsUnmoved}
use c4_os.Heap.Spill.{bucket_pop_found}
use c4_os.Heap.Leave.{
  AreLists, AreInside, IsOff, IsApart, lists-IsApart, find_upwards-IsApart, pop-IsOff,
  spillover-IsApart, unlink_again-IsOff,
}
use c4_os.Heap.Supply.{AreSorted, CanGrow, Holds, spillover-Holds, find_upwards-Holds}

-- Where a block that is handed out comes from: it is the first free block of the list `index`, or,
-- when that is empty, the start of the first free block of a larger list or of new pages.
abbrev pub WasFree : ℕ → ℕ → Heap → ℕ → Type 0
WasFree page_size index m n =
    (m.buckets index ≡ n)
    ⊎ ((m.buckets index ≡ 0) × ((upper : ℕ) × (index < upper) × (m.buckets upper ≡ n)))
    ⊎ ((m.buckets index ≡ 0) × (n ≡ m.start + m.pages * page_size))

-- A block of the size of a list, taken off the lists.
abbrev IsTaken : ℕ → ℕ × Heap → Type 0
IsTaken index r = (r.0 ≢ 0) × (r.1.bucket r.0 ≡ index) × IsOff r.0 r.1

bucket_pop-first :
    (index : ℕ) (m : Heap) → m.buckets index ≢ 0 → (bucket_pop index m).0 ≡ m.buckets index
bucket_pop-first index m holds = ap (λ (r : ℕ × Heap). r.0) (bucket_pop_found m index holds)

pop-IsTaken :
    (index : ℕ) (m : Heap) → Holds m index → IsApart m index → IsTaken index (bucket_pop index m)
pop-IsTaken index m holds apart =
    let first = bucket_pop-first index m holds.0 in
    let off = pop-IsOff m index holds apart in
    let kept = node_unlink-IsUnmoved (m.buckets index) m (m.buckets index) in
    let size : (bucket_pop index m).1.bucket (m.buckets index) ≡ index =
      ap (λ (r : ℕ × Heap). r.1.bucket (m.buckets index)) (bucket_pop_found m index holds.0)
      ∙ kept.2
      ∙ holds.1 in
    (
      λ z. holds.0 (sym first ∙ z),
      ap (bucket_pop index m).1.bucket first ∙ size,
      subst (λ (n : ℕ). IsOff n (bucket_pop index m).1) (sym first) off,
    )

abbrev unlinked_again : ℕ × Heap → ℕ × Heap
unlinked_again r = (r.0, node_unlink r.0 r.1)

bucket_pop_none : (m : Heap) (b : ℕ) → m.buckets b ≡ 0 → bucket_pop b m ≡ (0, m)
unfolding bucket_pop
bucket_pop_none m b none_there = rw none_there refl

-- A block that is in the lists already is taken at once.
get_node_found :
    (page_size index : ℕ) (m : Heap)
    → m.buckets index ≢ 0
    → get_node_from_bucket page_size index m ≡ bucket_pop index m
unfolding get_node_from_bucket
get_node_found page_size index m holds =
    let first = bucket_pop-first index m holds in
    let f : ((bucket_pop index m).0 == 0) ≡ false = ground (arith, first, holds) in rw f refl

-- A larger block is cut, and what is taken is unlinked a second time.
get_node_cut :
    (page_size index : ℕ) (m : Heap)
    → m.buckets index ≡ 0
    → get_node_from_bucket page_size index m
      ≡ unlinked_again (
          bucket_pop index (
            bucket_spillover index
              (find_upwards_bucket page_size (index + 1) m).0
              (find_upwards_bucket page_size (index + 1) m).1))
unfolding get_node_from_bucket
get_node_cut page_size index m empty = rw (bucket_pop_none m index empty) refl

again-IsTaken : (index : ℕ) (r : ℕ × Heap) → IsTaken index r → IsTaken index (unlinked_again r)
again-IsTaken index r taken =
    (taken.0, (node_unlink-IsUnmoved r.0 r.1 r.0).2 ∙ taken.1, unlink_again-IsOff r.1 r.0 taken.2)

get_node-IsTaken :
    (page_size index : ℕ) (m : Heap)
    → index ≤ max_buckets
    → AreSorted m
    → AreLists m
    → CanGrow page_size m
    → AreInside page_size m
    → IsTaken index (get_node_from_bucket page_size index m)
      × WasFree page_size index m (get_node_from_bucket page_size index m).0
get_node-IsTaken page_size index m small sorted lists room inside =
    elim (dec_lt 0 (m.buckets index)) [
      | yes there ↦
          let holds : Holds m index =
            (λ z. omega (arith, z, there), sorted index (λ z. omega (arith, z, there))) in
          let e = get_node_found page_size index m holds.0 in
          let taken = pop-IsTaken index m holds (lists-IsApart m index lists sorted holds.0) in
          (
            subst (IsTaken index) (sym e) taken,
            inl (sym (ap (λ (r : ℕ × Heap). r.0) e ∙ bucket_pop-first index m holds.0)),
          )
      | no missing ↦
          let empty : m.buckets index ≡ 0 = omega (arith, missing) in
          let upper = find_upwards_bucket page_size (index + 1) m in
          let found =
            find_upwards-Holds page_size (index + 1) m (omega (arith, small)) sorted room in
          let from = find_upwards-IsApart page_size index m sorted lists room inside in
          let m2 : Heap = bucket_spillover index upper.0 upper.1 in
          let holds = spillover-Holds index upper.0 upper.1 (omega (arith, found.0)) found.1 in
          let cut = spillover-IsApart index upper.0 upper.1 found.1 from.0 in
          let e = get_node_cut page_size index m empty in
          let n = ap (λ (r : ℕ × Heap). r.0) e ∙ bucket_pop-first index m2 holds.0 ∙ cut.0 in
          (
            subst (IsTaken index) (sym e)
                (again-IsTaken index (bucket_pop index m2) (pop-IsTaken index m2 holds cut.1)),
            elim from.1 [
              | inl larger ↦ inr (inl (empty, (larger.0, larger.1, larger.2 ∙ sym n)))
              | inr new ↦ inr (inr (empty, n ∙ new))
            ],
          )
    ]

-- What a request of `size` bytes is answered with: the memory after the header of a block, which was
-- free, is in use now and in no list, has room for both and is not twice as large as they are.
abbrev pub IsAllocated : ℕ → ℕ → Heap → ℕ × Heap → Type 0
IsAllocated page_size size m r =
    (node : ℕ) × (node ≢ 0)
    × (r.0 ≡ node + node_size)
    × (r.1.status node ≡ status_used)
    × (size + node_size ≤ 2 ^ r.1.bucket node)
    × (2 ^ r.1.bucket node < 2 * (size + node_size))
    × WasFree page_size (r.1.bucket node) m node
    × IsOff node r.1

marked-IsOff : (n : ℕ) (m : Heap) → IsOff n m → IsOff n (write_status n status_used m)
marked-IsOff n m off = record {
  no_next = off.no_next;
  no_previous = off.no_previous;
  not_first = off.not_first;
}

small_index : (k n : ℕ) → 2 ^ k < 2 * n → n ≤ 2 ^ 14 → k ≤ 14
small_index k n below fits = elim (dec_lt 14 k) [
  | no small ↦ omega arith
  | yes large ↦ absurd (
      omega
        (arith, below, fits, pow-le-pow_right {n = 2} (omega arith) {i = 15} {j = k} (omega arith)))
]

large_index : (k n : ℕ) → n ≤ 2 ^ k → 2 ^ 14 < n → ltb 14 k ≡ true
large_index k n below large = elim (dec_lt 14 k) [
  | yes more ↦ ground arith
  | no small ↦ absurd (
      omega (
        arith,
        below,
        large,
        pow-le-pow_right {n = 2} (omega arith) {i = k} {j = 14} (omega arith),
      ))
]

-- For a heap whose lists are linked both ways, of blocks of their size that lie below its end, and
-- that has room for a region more below the top of the memory: a request that fits in the largest
-- block is answered with a block that has room for it and is not twice as large as needed. It was the
-- first free block of the list of its size or, when that is empty, is cut from the first block of a
-- larger list or from new pages; it is in use now, has no links, and no list begins with it. A
-- request that does not fit, and whose size does not wrap, is refused.
pub alloc_lem :
    (page_size size : ℕ) (m : Heap)
    → size + node_size < 2 ^ 32
    → AreSorted m
    → AreLists m
    → CanGrow page_size m
    → AreInside page_size m
    → ((size + node_size ≤ 2 ^ max_buckets) × IsAllocated page_size size m (alloc page_size size m))
      ⊎ ((2 ^ max_buckets < size + node_size) × (alloc page_size size m ≡ (0, m)))
unfolding alloc
alloc_lem page_size size m fits sorted lists room inside =
    let index : ℕ = bucket_index size in
    let bound = bucket_index_lem size fits in
    elim (dec_lt (2 ^ 14) (size + 20)) [
      | no small ↦
          let low = small_index index (size + 20) bound.1 (omega arith) in
          let got = get_node_from_bucket page_size index m in
          let taken = get_node-IsTaken page_size index m low sorted lists room inside in
          let e : ltb 14 index ≡ false = ground arith in
          let size_of = taken.0.1 in
          rw e (
            inl (
              omega arith,
              (
                got.0,
                taken.0.0,
                refl,
                ground arith,
                rw size_of bound.0,
                rw size_of bound.1,
                rw size_of taken.1,
                marked-IsOff got.0 got.1 taken.0.2,
              ),
            ))
      | yes large ↦
          let e : ltb 14 index ≡ true = large_index index (size + 20) bound.0 large in
          rw e (inr (large, refl))
    ]
