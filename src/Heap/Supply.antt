-- ===== src/Heap/Supply.antt =====
-- The lists that the allocator finds a free block in, and those that it fills.
use mathlib.Core.Path.{subst}
use native.Mathlib.Nat.{add-mul}
use c4_os.Prelude.{
  ℕ, zero, suc, ◌+◌, ◌-◌, ◌*◌, ◌/◌, ◌^◌, ◌≤◌, ◌<◌, ◌≡◌, ◌≢◌, ◌⊎◌, ◌∙◌, refl, ap, sym, arith, true,
  false, none, some, ◌==◌, ltb, add32, Bool-cases, inl, inr,
}
use c4_os.Heap.{
  Heap, node_unlink, bucket_insert, grow_step, grow_loop, grow, find_from, found_or_grow,
  find_upwards_bucket, split_node, spill_loop, bucket_spillover, max_buckets,
}
use c4_os.Heap.Split.{bucket_insert-IsUnmoved, node_unlink-IsUnmoved}
use c4_os.Heap.Spill.{bucket_pop_found, bucket_insert-start, split_bucket}

-- The first block of each list has the size of that list.
abbrev pub AreSorted : Heap → Type 0
AreSorted m = (b : ℕ) → m.buckets b ≢ 0 → m.bucket (m.buckets b) ≡ b

-- The first block of the list `b`, of the size of the list.
abbrev pub Holds : Heap → ℕ → Type 0
Holds m b = (m.buckets b ≢ 0) × (m.bucket (m.buckets b) ≡ b)

spill_bucket :
    (left i n : ℕ) (m : Heap)
    → left ≤ i
    → m.bucket n ≡ i
    → (spill_loop left i n m).bucket n ≡ i - left
unfolding spill_loop
spill_bucket zero i n m fits size = omega (arith, size)
spill_bucket (suc left) i n m fits size =
    let split = split_node n m in
    let kept = bucket_insert-IsUnmoved (i - 1) split.0 split.1 n in
    omega (
      arith,
      fits,
      spill_bucket left (i - 1) n (bucket_insert (i - 1) split.0 split.1) (omega (arith, fits))
          (omega (arith, kept.2, split_bucket m n, size)),
    )

pub spillover-Holds :
    (lower upper : ℕ) (m : Heap)
    → lower ≤ upper
    → Holds m upper
    → Holds (bucket_spillover lower upper m) lower
unfolding bucket_spillover
spillover-Holds lower upper m fits holds =
    let n : ℕ = m.buckets upper in
    let m1 : Heap = node_unlink n m in
    let m2 : Heap = spill_loop (upper - lower) upper n m1 in
    let m3 : Heap = bucket_insert lower n m2 in
    let first = bucket_insert-start lower n m2 in
    let size =
      spill_bucket (upper - lower) upper n m1 (omega arith)
        ((node_unlink-IsUnmoved n m n).2 ∙ holds.1) in
    let kept = bucket_insert-IsUnmoved lower n m2 n in
    let e : m3.bucket n ≡ lower = omega (arith, kept.2, size, fits) in
    rw (bucket_pop_found m upper holds.0) (λ z. holds.0 (sym first ∙ z), rw first e)

grow_step-Holds :
    (pages temp : ℕ) (m : Heap) → temp ≢ 0 → Holds (grow_step pages temp m) max_buckets
unfolding grow_step bucket_insert
grow_step-Holds pages temp m valid = (ground (arith, valid), ground arith)

-- One step reaches the end of the new pages.
grow_loop_once :
    (fuel page_size pages temp end : ℕ) (m : Heap)
    → temp < end
    → end ≤ add32 temp (pages * page_size)
    → grow_loop (suc fuel) page_size pages temp end m ≡ grow_step pages temp m
unfolding grow_loop
grow_loop_once zero page_size pages temp end m below last =
    let e : ltb temp end ≡ true = ground arith in rw e refl
grow_loop_once (suc fuel) page_size pages temp end m below last =
    let e : ltb temp end ≡ true = ground arith in
    let f : ltb (add32 temp (pages * page_size)) end ≡ false = ground arith in rw e (rw f refl)

-- The heap has room for a region more below the top of the memory.
abbrev pub CanGrow : ℕ → Heap → Type 0
CanGrow page_size m =
    (0 < m.start)
    × (2 ^ 14 / page_size * page_size ≡ 2 ^ 14)
    × (m.start + m.pages * page_size + 2 ^ 14 < 2 ^ 32)

-- The heap grows by one region, behind its end.
pub grow_once :
    (page_size : ℕ) (m : Heap)
    → CanGrow page_size m
    → grow page_size m
      ≡ grow_step
          (2 ^ 14 / page_size)
          (m.start + m.pages * page_size)
          record m { pages = add32 m.pages (2 ^ 14 / page_size) }
unfolding grow
grow_once page_size m room =
    let pages : ℕ = 2 ^ 14 / page_size in
    let temp : ℕ = add32 m.start (m.pages * page_size) in
    let end : ℕ = add32 m.start ((m.pages + pages) * page_size) in
    let m1 : Heap = record m { pages = add32 m.pages pages } in
    let e : (m.pages + pages) * page_size ≡ m.pages * page_size + 2 ^ 14 =
      add-mul m.pages pages page_size ∙ ap (λ (x : ℕ). m.pages * page_size + x) room.1 in
    let f : temp ≡ m.start + m.pages * page_size = omega (arith, room.2) in
    let g : end ≡ temp + 2 ^ 14 = rw (e, f) (omega (arith, room.2)) in
    grow_loop_once (2 ^ 14 - 1) page_size pages temp end m1 (omega (arith, g))
      (rw room.1 (omega (arith, f, g, room.2)))
    ∙ ap (λ (t : ℕ). grow_step pages t m1) f

grow-Holds : (page_size : ℕ) (m : Heap) → CanGrow page_size m → Holds (grow page_size m) max_buckets
grow-Holds page_size m room =
    subst (λ h. Holds h max_buckets) (sym (grow_once page_size m room))
      (grow_step-Holds _ _ _ (λ z. omega (arith, z, room.0)))

pub found_from :
    (left k : ℕ) (m : Heap)
    → AreSorted m
    → (find_from left k m ≡ none)
      ⊎ ((r : ℕ) × (find_from left k m ≡ some r) × (k ≤ r) × (r < k + left) × Holds m r)
unfolding find_from
found_from zero k m sorted = inl refl
found_from (suc left) k m sorted = elim (Bool-cases (m.buckets k == 0)) [
  | inr e ↦
      let some_block : m.buckets k ≢ 0 = λ z. ground (arith, z, e) in
      rw e (inr (k, refl, omega arith, omega arith, (some_block, sorted k some_block)))
  | inl e ↦ elim (found_from left (suc k) m sorted) [
    | inl missed ↦ rw (e, missed) (inl refl)
    | inr found ↦
        rw (e, found.1)
          (inr (found.0, refl, omega (arith, found.2), omega (arith, found.3), found.4))
  ]
]

pub find_upwards-Holds :
    (page_size index : ℕ) (m : Heap)
    → index ≤ max_buckets + 1
    → AreSorted m
    → CanGrow page_size m
    → (index ≤ (find_upwards_bucket page_size index m).0 + 1)
      × Holds (find_upwards_bucket page_size index m).1 (find_upwards_bucket page_size index m).0
unfolding find_upwards_bucket found_or_grow
find_upwards-Holds page_size index m small sorted room =
    elim (found_from (suc max_buckets - index) index m sorted) [
      | inl missed ↦ rw missed (omega arith, grow-Holds page_size m room)
      | inr found ↦ rw found.1 (omega (arith, found.2), found.4)
    ]
