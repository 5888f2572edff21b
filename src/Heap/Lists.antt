-- ===== src/Heap/Lists.antt =====
-- The lists of free blocks: `c4a_node_unlink` and `c4a_bucket_insert` as operations on sequences.
use c4_os.Prelude.{
  ℕ, ◌<◌, ◌≡◌, ◌≢◌, ◌⊎◌, arith, Bool, true, false, List, [], ◌∷◌, ◌==◌, if◌then◌else◌,
}
use c4_os.Heap.{Heap, bucket_insert}

abbrev pub mem : ℕ → List ℕ → Bool
mem n [] = false
mem n (x ∷ xs) = if n == x then true else mem n xs

pub mem_later : (n x : ℕ) (xs : List ℕ) → (n == x) ≡ false → mem n (x ∷ xs) ≡ true → mem n xs ≡ true
mem_later n x xs e inside = ground arith

pub ==-below : (n x : ℕ) → n < x → (x == n) ≡ false
==-below n x below = ground arith

abbrev pub delete : ℕ → List ℕ → List ℕ
delete n [] = []
delete n (x ∷ xs) = if n == x then xs else x ∷ delete n xs

abbrev pub AllDistinct : List ℕ → Type 0
AllDistinct [] = Unit
AllDistinct (x ∷ xs) = (mem x xs ≡ false) × AllDistinct xs

-- A list with links both ways, from the block `at` on.
abbrev pub Linked : (ℕ → ℕ) → (ℕ → ℕ) → ℕ → ℕ → List ℕ → Type 0
Linked next previous before at [] = at ≡ 0
Linked next previous before at (x ∷ xs) =
    (at ≡ x) × (x ≢ 0) × (previous x ≡ before) × Linked next previous x (next x) xs

-- The free list of bucket `b` holds the blocks `xs`, in this order.
abbrev pub FreeList : Heap → ℕ → List ℕ → Type 0
FreeList m b xs = Linked m.next m.previous 0 (m.buckets b) xs × AllDistinct xs

-- Links that agree on the blocks of a list link them alike.
pub Linked-agree :
    (next previous next' previous' : ℕ → ℕ) (before at : ℕ) (xs : List ℕ)
    → ((x : ℕ) → mem x xs ≡ true → (next' x ≡ next x) × (previous' x ≡ previous x))
    → Linked next previous before at xs
    → Linked next' previous' before at xs
Linked-agree next previous next' previous' before at [] same linked = linked
Linked-agree next previous next' previous' before at (x ∷ xs) same linked =
    let here = same x (ground arith) in
    let e : next' x ≡ next x = here.0 in
    let f : previous' x ≡ before = ground arith in
    (
      linked.0,
      linked.1,
      f,
      rw e (
          Linked-agree next previous next' previous' x (next x) xs
            (λ y inside. same y (ground arith)) linked.3),
    )

-- A list with another predecessor of its first block.
pub Linked-before :
    (next previous next' previous' : ℕ → ℕ) (before before' at at' x : ℕ) (xs : List ℕ)
    → AllDistinct (x ∷ xs)
    → ((y : ℕ) → mem y (x ∷ xs) ≡ true → next' y ≡ next y)
    → ((y : ℕ) → mem y xs ≡ true → previous' y ≡ previous y)
    → previous' x ≡ before'
    → at' ≡ x
    → Linked next previous before at (x ∷ xs)
    → Linked next' previous' before' at' (x ∷ xs)
Linked-before next previous next' previous' before before' at at' x xs distinct forth back first e
      l =
    let f : next' x ≡ next x = forth x (ground arith) in
    (
      e,
      l.1,
      first,
      rw f (
          Linked-agree next previous next' previous' x (next x) xs
            (λ y inside. (forth y (ground arith), back y inside)) l.3),
    )

-- Inserting a block that is not in a list puts it before the others.
pub bucket_insert-FreeList :
    (m : Heap) (b n : ℕ) (xs : List ℕ)
    → FreeList m b xs
    → mem n xs ≡ false
    → n ≢ 0
    → FreeList (bucket_insert b n m) b (n ∷ xs)
unfolding bucket_insert
bucket_insert-FreeList m b n [] list outside valid = ground arith
bucket_insert-FreeList m b n (x ∷ xs) list outside valid =
    let e : (m.buckets b == 0) ≡ false = ground (arith, list.0.0, list.0.1) in
    let m' : Heap = bucket_insert b n m in
    (
      (
        ground arith,
        valid,
        ground (arith, e),
        Linked-before m.next m.previous m'.next m'.previous 0 n (m.buckets b) (m'.next n) x xs
            list.1 (λ y inside. ground (arith, outside, inside, e))
            (λ y inside. ground (arith, outside, inside, list.1.0, list.0.0, e))
            (ground (arith, outside, list.0.0, e)) (ground (arith, list.0.0, e)) list.0,
      ),
      (outside, list.1),
    )

module _ (next previous : ℕ → ℕ) where
  pub next-mem :
      (before at n : ℕ) (xs : List ℕ)
      → Linked next previous before at xs
      → mem n xs ≡ true
      → (next n ≡ 0) ⊎ (mem (next n) xs ≡ true)
  next-mem before at n [] linked inside = ground arith
  next-mem before at n (x ∷ []) linked inside = ground (arith, linked.3)
  next-mem before at n (x ∷ z ∷ zs) linked inside =
      ground (arith, linked.3.0, next-mem x (next x) n (z ∷ zs) linked.3)

  pub mem_valid :
      (before at n : ℕ) (xs : List ℕ) → Linked next previous before at xs → mem n xs ≡ true → n ≢ 0
  mem_valid before at n [] linked inside = ground arith
  mem_valid before at n (x ∷ xs) linked inside =
      ground (arith, linked.1, mem_valid x (next x) n xs linked.3)

  pub previous_first :
      (before at : ℕ) (xs : List ℕ)
      → Linked next previous before at xs
      → at ≢ 0
      → previous at ≡ before
  previous_first before at [] linked valid = absurd (valid linked)
  previous_first before at (x ∷ xs) linked valid = ground (arith, linked.0, linked.2)

  pub previous-mem :
      (before at n : ℕ) (xs : List ℕ)
      → Linked next previous before at xs
      → mem n xs ≡ true
      → ((n ≡ at) × (previous n ≡ before)) ⊎ (mem (previous n) xs ≡ true)
  previous-mem before at n [] linked inside = ground arith
  previous-mem before at n (x ∷ xs) linked inside =
      ground (arith, linked.0, linked.2, previous-mem x (next x) n xs linked.3)
