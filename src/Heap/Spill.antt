-- ===== src/Heap/Spill.antt =====
-- `c4a_bucket_spillover` on the blocks of a region.
use c4_os.Prelude.{
  ℕ, zero, suc, ◌+◌, ◌-◌, ◌^◌, ◌≤◌, ◌<◌, ◌≡◌, ◌≢◌, ◌∙◌, refl, arith, true, false, List, [], ◌∷◌,
  ◌==◌,
}
use c4_os.Heap.{
  Heap, split_node, bucket_insert, bucket_pop, spill_loop, bucket_spillover, node_unlink,
}
use c4_os.Heap.Lists.{mem}
use c4_os.Heap.Chains.{Region, IsUnmoved-Region}
use c4_os.Heap.Split.{
  insert_after, split_node-Region, bucket_insert-IsUnmoved, node_unlink-IsUnmoved,
}

-- The blocks with `n` cut `left` times, from the size `2 ^ i` on: each half that is cut off stands
-- right after `n`.
abbrev pub cut : ℕ → ℕ → ℕ → List ℕ → List ℕ
cut zero i n xs = xs
cut (suc left) i n xs = cut left (i - 1) n (insert_after n (n + 2 ^ (i - 1)) xs)

mem-insert_after : (n t : ℕ) (xs : List ℕ) → mem n xs ≡ true → mem n (insert_after n t xs) ≡ true
mem-insert_after n t [] inside = inside
mem-insert_after n t (x ∷ xs) inside = ground (arith, mem-insert_after n t xs)

pub split_bucket : (m : Heap) (n : ℕ) → (split_node n m).1.bucket n ≡ m.bucket n - 1
unfolding split_node
split_bucket m n = ground arith

split_status : (m : Heap) (n : ℕ) → (split_node n m).1.status n ≡ m.status n
unfolding split_node
split_status m n = ground arith

-- The loop cuts the block as many times as it has rounds, and leaves it with the number of its size.
pub spill_loop-Region :
    (left i : ℕ) (m : Heap) (at stop n : ℕ) (xs : List ℕ)
    → 0 < at
    → left ≤ i
    → mem n xs ≡ true
    → m.bucket n ≡ i
    → Region m at stop xs
    → Region (spill_loop left i n m) at stop (cut left i n xs)
      × ((spill_loop left i n m).bucket n ≡ i - left)
      × (mem n (cut left i n xs) ≡ true)
unfolding spill_loop
spill_loop-Region zero i m at stop n xs low fits inside size region =
    (region, omega (arith, size), inside)
spill_loop-Region (suc left) zero m at stop n xs low fits inside size region =
    absurd (omega (arith, fits))
spill_loop-Region (suc left) (suc i) m at stop n xs low fits inside size region =
    let e : suc i - 1 ≡ i = omega arith in
    let split = split_node n m in
    let t : ℕ = n + 2 ^ (suc i - 1) in
    let m1 : Heap = bucket_insert (suc i - 1) split.0 split.1 in
    let cut_once =
      split_node-Region m at stop n (suc i - 1) xs low inside (omega (arith, size)) region in
    let kept = bucket_insert-IsUnmoved (suc i - 1) split.0 split.1 in
    let here = IsUnmoved-Region split.1 m1 at stop (insert_after n t xs) kept low cut_once in
    let rest =
      spill_loop-Region left (suc i - 1) m1 at stop n (insert_after n t xs) low
        (omega (arith, fits)) (mem-insert_after n t xs inside)
        (omega (arith, (kept n).2, split_bucket m n, size)) here in
    (rest.0, omega (arith, rest.1), rest.2)

pub bucket_pop_found :
    (m : Heap) (b : ℕ)
    → m.buckets b ≢ 0
    → bucket_pop b m ≡ (m.buckets b, node_unlink (m.buckets b) m)
unfolding bucket_pop
bucket_pop_found m b some = let e : (m.buckets b == 0) ≡ false = ground arith in rw e refl

pub bucket_insert-start : (b n : ℕ) (m : Heap) → (bucket_insert b n m).buckets b ≡ n
unfolding bucket_insert
bucket_insert-start b n m = ground arith

-- Spilling the first free block of a list over to a lower one cuts it down to the size of that list;
-- the blocks cut off follow it, each as large as all that is below it, and the region is still
-- filled without a gap.
pub bucket_spillover-Region :
    (m : Heap) (lower upper at stop : ℕ) (xs : List ℕ)
    → 0 < at
    → lower ≤ upper
    → m.buckets upper ≢ 0
    → mem (m.buckets upper) xs ≡ true
    → m.bucket (m.buckets upper) ≡ upper
    → Region m at stop xs
    → Region
        (bucket_spillover lower upper m)
        at
        stop
        (cut (upper - lower) upper (m.buckets upper) xs)
      × ((bucket_spillover lower upper m).bucket (m.buckets upper) ≡ lower)
      × ((bucket_spillover lower upper m).buckets lower ≡ m.buckets upper)
unfolding bucket_spillover
bucket_spillover-Region m lower upper at stop xs low fits some inside size region =
    let n : ℕ = m.buckets upper in
    let m1 : Heap = node_unlink n m in
    let m2 : Heap = spill_loop (upper - lower) upper n m1 in
    let kept1 = node_unlink-IsUnmoved n m in
    let kept2 = bucket_insert-IsUnmoved lower n m2 in
    let spilt =
      spill_loop-Region (upper - lower) upper m1 at stop n xs low (omega arith) inside
        ((kept1 n).2 ∙ size) (IsUnmoved-Region m m1 at stop xs kept1 low region) in
    rw (bucket_pop_found m upper some) (
      IsUnmoved-Region m2 (bucket_insert lower n m2) at stop _ kept2 low spilt.0,
      omega (arith, (kept2 n).2, spilt.1),
      bucket_insert-start lower n m2,
    )
