-- ===== src/Heap/Leave.antt =====
-- A block that leaves the lists of free blocks when it is handed out.
use mathlib.Core.Path.{subst}
use c4_os.Prelude.{
  ℕ, zero, suc, ◌+◌, ◌-◌, ◌*◌, ◌/◌, ◌^◌, ◌<◌, ◌≡◌, ◌≢◌, ◌⊎◌, ◌∙◌, refl, ap, sym, arith, Bool-cases,
  if◌then◌else◌, ◌==◌, List, [], ◌∷◌, add32, inl, inr,
}
use c4_os.Heap.{
  Heap, node_unlink, unlink_start, unlink_before, unlink_after, bucket_insert, bucket_pop,
  grow_step, grow, found_or_grow, find_upwards_bucket, split_node, spill_loop, bucket_spillover,
  max_buckets,
}
use c4_os.Heap.Lists.{FreeList}
use c4_os.Heap.Chains.{pow_positive}
use c4_os.Heap.Spill.{bucket_pop_found, bucket_insert-start}
use c4_os.Heap.Supply.{AreSorted, CanGrow, Holds, found_from, grow_once}

-- Every list holds blocks that are linked both ways, each once.
abbrev pub AreLists : Heap → Type 0
AreLists m = (b : ℕ) → (xs : List ℕ) × FreeList m b xs

-- The lists begin with blocks below the end of the heap.
abbrev pub AreInside : ℕ → Heap → Type 0
AreInside page_size m = (b : ℕ) → m.buckets b < m.start + m.pages * page_size

abbrev NotFirst : ℕ → Heap → Type 0
NotFirst n m = (b : ℕ) → m.buckets b ≢ n

-- A block without links, with which no list begins.
pub record IsOff (n : ℕ) (m : Heap) : Type 0 where
  pub no_next : m.next n ≡ 0
  pub no_previous : m.previous n ≡ 0
  pub not_first : (b : ℕ) → m.buckets b ≢ n

-- The first block of a list is not before itself, and the first of no other list.
pub record IsApart (m : Heap) (k : ℕ) : Type 0 where
  pub no_loop : m.next (m.buckets k) ≢ m.buckets k
  pub alone : (b : ℕ) → b ≢ k → m.buckets b ≢ m.buckets k

list-no_loop :
    (m : Heap) (k : ℕ) (xs : List ℕ)
    → FreeList m k xs
    → m.buckets k ≢ 0
    → m.next (m.buckets k) ≢ m.buckets k
list-no_loop m k [] list holds = absurd (holds list.0)
list-no_loop m k (x ∷ []) list holds = λ e. holds (sym e ∙ ap m.next list.0.0 ∙ list.0.3)
list-no_loop m k (x ∷ z ∷ zs) list holds = λ e.
    let f : x ≡ z = sym list.0.0 ∙ sym e ∙ ap m.next list.0.0 ∙ list.0.3.0 in
    ground (arith, f, list.1.0)

pub lists-IsApart : (m : Heap) (k : ℕ) → AreLists m → AreSorted m → m.buckets k ≢ 0 → IsApart m k
lists-IsApart m k lists sorted holds = record {
  no_loop = list-no_loop m k (lists k).0 (lists k).1 holds;
  alone = λ b other same.
      other (sym (sorted b (λ z. holds (sym same ∙ z))) ∙ ap m.bucket same ∙ sorted k holds);
}

stepped :
    (pages temp : ℕ) (h : Heap)
    → ((b : ℕ) → h.buckets b < temp)
    → ((grow_step pages temp h).buckets max_buckets ≡ temp)
      × IsApart (grow_step pages temp h) max_buckets
unfolding grow_step bucket_insert
stepped pages temp h below = (
  ground arith,
  record {
    no_loop = λ e. ground (arith, e, below 14);
    alone = λ b other same. ground (arith, other, same, below b);
  },
)

grow-IsApart :
    (page_size : ℕ) (m : Heap)
    → CanGrow page_size m
    → AreInside page_size m
    → ((grow page_size m).buckets max_buckets ≡ m.start + m.pages * page_size)
      × IsApart (grow page_size m) max_buckets
grow-IsApart page_size m room inside =
    let e = grow_once page_size m room in
    subst (λ h. (h.buckets max_buckets ≡ m.start + m.pages * page_size) × IsApart h max_buckets)
      (sym e)
      (stepped (2 ^ 14 / page_size) (m.start + m.pages * page_size)
        record m { pages = add32 m.pages (2 ^ 14 / page_size) } inside)

-- Where `c4a_find_upwards_bucket` finds a block: in a larger list, or in new pages.
pub find_upwards-IsApart :
    (page_size index : ℕ) (m : Heap)
    → AreSorted m
    → AreLists m
    → CanGrow page_size m
    → AreInside page_size m
    → IsApart
        (find_upwards_bucket page_size (index + 1) m).1
        (find_upwards_bucket page_size (index + 1) m).0
      × (((u : ℕ) × (index < u)
            × (m.buckets u
                ≡ (find_upwards_bucket page_size (index + 1) m).1.buckets
                    (find_upwards_bucket page_size (index + 1) m).0))
          ⊎ ((find_upwards_bucket page_size (index + 1) m).1.buckets
                (find_upwards_bucket page_size (index + 1) m).0
              ≡ m.start + m.pages * page_size))
unfolding find_upwards_bucket found_or_grow
find_upwards-IsApart page_size index m sorted lists room inside =
    elim (found_from (suc max_buckets - (index + 1)) (index + 1) m sorted) [
      | inl missed ↦ let new = grow-IsApart page_size m room inside in rw missed (new.1, inr new.0)
      | inr found ↦ rw found.1 (
        lists-IsApart m found.0 lists sorted found.4.0,
        inl (found.0, omega (arith, found.2), refl),
      )
    ]

unlink-buckets :
    (m : Heap) (n b : ℕ)
    → n ≡ m.buckets (m.bucket n)
    → (node_unlink n m).buckets b ≡ (if b == m.bucket n then m.next n else m.buckets b)
unfolding node_unlink unlink_start unlink_before unlink_after
unlink-buckets m n b first = ground (arith, first)

pop-NotFirst :
    (m : Heap) (k : ℕ) → Holds m k → IsApart m k → NotFirst (m.buckets k) (bucket_pop k m).1
pop-NotFirst m k holds apart =
    let n : ℕ = m.buckets k in
    let first : n ≡ m.buckets (m.bucket n) = ap m.buckets (sym holds.1) in
    rw (bucket_pop_found m k holds.0) (λ b. elim (Bool-cases (b == m.bucket n)) [
      | inl e ↦ λ same. apart.no_loop (sym (unlink-buckets m n b first ∙ (rw e refl)) ∙ same)
      | inr e ↦ λ same.
          apart.alone b (λ f. ground (arith, e, f, holds.1))
            (sym (unlink-buckets m n b first ∙ (rw e refl)) ∙ same)
    ])

-- Unlinking a block that no list begins with.
unlink-IsOff : (m : Heap) (n : ℕ) → NotFirst n m → IsOff n (node_unlink n m)
unfolding node_unlink unlink_start unlink_before unlink_after
unlink-IsOff m n apart = record {
  no_next = ground arith;
  no_previous = ground arith;
  not_first = λ b same. ground (arith, apart b, apart (m.bucket n), same);
}

nulls : (m : Heap) (n : ℕ) → ((node_unlink n m).next n ≡ 0) × ((node_unlink n m).previous n ≡ 0)
unfolding node_unlink
nulls m n = (ground arith, ground arith)

pub pop-IsOff :
    (m : Heap) (k : ℕ) → Holds m k → IsApart m k → IsOff (m.buckets k) (bucket_pop k m).1
pop-IsOff m k holds apart =
    let n : ℕ = m.buckets k in
    let e = bucket_pop_found m k holds.0 in
    let rest = pop-NotFirst m k holds apart in
    record {
      no_next = ap (λ r. r.1.next n) e ∙ (nulls m n).0;
      no_previous = ap (λ r. r.1.previous n) e ∙ (nulls m n).1;
      not_first = rest;
    }

insert-IsApart : (m : Heap) (b n : ℕ) → NotFirst n m → IsApart (bucket_insert b n m) b
unfolding bucket_insert
insert-IsApart m b n apart = record {
  no_loop = λ same. ground (arith, apart b, same);
  alone = λ c other same. ground (arith, apart c, other, same);
}

inserted :
    (n k b : ℕ) (m : Heap)
    → NotFirst n m
    → (bucket_insert k (split_node n m).0 (split_node n m).1).buckets b ≢ n
unfolding bucket_insert split_node
inserted n k b m apart same = ground (arith, apart b, same, pow_positive (m.bucket n - 1))

loop-NotFirst : (left i n : ℕ) (m : Heap) → NotFirst n m → NotFirst n (spill_loop left i n m)
unfolding spill_loop
loop-NotFirst zero i n m apart = apart
loop-NotFirst (suc left) i n m apart =
    let split = split_node n m in
    loop-NotFirst left (i - 1) n (bucket_insert (i - 1) split.0 split.1)
      (λ b. inserted n (i - 1) b m apart)

-- The block that was cut into halves is handed to the lower list, and off the lists when it is
-- unlinked, once or twice.
pub spillover-IsApart :
    (lower upper : ℕ) (m : Heap)
    → Holds m upper
    → IsApart m upper
    → ((bucket_spillover lower upper m).buckets lower ≡ m.buckets upper)
      × IsApart (bucket_spillover lower upper m) lower
unfolding bucket_spillover
spillover-IsApart lower upper m holds apart =
    let popped = bucket_pop upper m in
    let n : ℕ = m.buckets upper in
    let off = loop-NotFirst (upper - lower) upper n popped.1 (pop-NotFirst m upper holds apart) in
    let e : popped.0 ≡ n = ap (λ r. r.0) (bucket_pop_found m upper holds.0) in
    let inserted : (p : ℕ) → Heap =
      λ p. bucket_insert lower p (spill_loop (upper - lower) upper p popped.1) in
    subst (λ (p : ℕ). ((inserted p).buckets lower ≡ n) × IsApart (inserted p) lower) (sym e)
      (
        bucket_insert-start lower n (spill_loop (upper - lower) upper n popped.1),
        insert-IsApart (spill_loop (upper - lower) upper n popped.1) lower n off,
      )

pub unlink_again-IsOff : (m : Heap) (n : ℕ) → IsOff n m → IsOff n (node_unlink n m)
unlink_again-IsOff m n off = unlink-IsOff m n off.not_first
