-- ===== src/Heap/Unlink.antt =====
-- `c4a_node_unlink` on the list of free blocks that the block is in.
use c4_os.Prelude.{
  ℕ, ◌≡◌, ◌≢◌, refl, sym, arith, true, false, List, [], ◌∷◌, ◌==◌, if◌then◌else◌, Bool-cases, inl,
  inr,
}
use mathlib.Core.Path.{subst}
use c4_os.Heap.{Heap, node_unlink, unlink_start, unlink_before, unlink_after}
use c4_os.Heap.Lists.{
  mem, delete, AllDistinct, Linked, FreeList, Linked-before, next-mem, mem_valid, previous_first,
  previous-mem,
}

mem-delete : (n y : ℕ) (xs : List ℕ) → mem y xs ≡ false → mem y (delete n xs) ≡ false
mem-delete n y [] outside = refl
mem-delete n y (x ∷ xs) outside = ground (arith, mem-delete n y xs)

delete-AllDistinct : (n : ℕ) (xs : List ℕ) → AllDistinct xs → AllDistinct (delete n xs)
delete-AllDistinct n [] distinct = tt
delete-AllDistinct n (x ∷ xs) distinct = elim (Bool-cases (n == x)) [
  | inl e ↦ rw e distinct.1
  | inr e ↦ rw e (mem-delete n x xs distinct.0, delete-AllDistinct n xs distinct.1)
]

-- No block of a list of distinct blocks is before or after itself.
links_apart :
    (next previous : ℕ → ℕ) (before at n : ℕ) (xs : List ℕ)
    → Linked next previous before at xs
    → AllDistinct xs
    → mem before xs ≡ false
    → mem n xs ≡ true
    → (next n ≢ n) × (previous n ≢ n)
links_apart next previous before at n [] linked distinct outside inside = ground arith
links_apart next previous before at n (x ∷ []) linked distinct outside inside =
    ground (arith, linked)
links_apart next previous before at n (x ∷ z ∷ zs) linked distinct outside inside = ground (
  arith,
  linked.1,
  linked.2,
  linked.3.0,
  distinct.0,
  links_apart next previous x (next x) n (z ∷ zs) linked.3 distinct.1 distinct.0,
)

-- The links without `n`: what a removal writes.
module _ (next previous next' previous' : ℕ → ℕ) (n : ℕ)
    (forth : (y : ℕ)
      → y ≢ 0
      → next' y ≡ (if y == n then 0 else if y == previous n then next n else next y))
    (back : (y : ℕ)
      → y ≢ 0
      → previous' y ≡ (if y == n then 0 else if y == next n then previous n else previous y)) where
  removed_first :
      (before at : ℕ) (xs : List ℕ)
      → Linked next previous before at (n ∷ xs)
      → AllDistinct (n ∷ xs)
      → mem before (n ∷ xs) ≡ false
      → Linked next' previous' before (next n) xs
  removed_first before at [] linked distinct outside = linked.3
  removed_first before at (z ∷ zs) linked distinct outside =
      let valid = λ (y : ℕ). mem_valid next previous n (next n) y (z ∷ zs) linked.3 in
      Linked-before next previous next' previous' n before (next n) (next n) z zs distinct.1
        (λ y inside.
          ground (arith, forth y (valid y inside), inside, distinct.0, outside, linked.2))
        (λ y inside. ground (
          arith,
          back y (valid y (ground (arith, inside))),
          inside,
          distinct.0,
          distinct.1.0,
          linked.3.0,
        ))
        (ground (arith, back z linked.3.1, linked.3.0, distinct.0, linked.2)) linked.3.0 linked.3

  pub removed-Linked :
      (before at : ℕ) (xs : List ℕ)
      → Linked next previous before at xs
      → AllDistinct xs
      → mem before xs ≡ false
      → mem n xs ≡ true
      → Linked next' previous' before (if at == n then next n else at) (delete n xs)
  removed-Linked before at [] linked distinct outside inside = ground arith
  removed-Linked before at (x ∷ xs) linked distinct outside inside = elim (Bool-cases (n == x)) [
    | inl e ↦
        let f : n ≡ x = ground arith in
        let g : (at == n) ≡ true = ground (arith, linked.0) in
        let l = subst (λ y. Linked next previous before at (y ∷ xs)) (sym f) linked in
        rw (e, g)
          (removed_first before at xs l (ground (arith, distinct)) (ground (arith, outside)))
    | inr other ↦
        let later : mem n xs ≡ true = ground arith in
        let g : (at == n) ≡ false = ground (arith, linked.0) in
        let k = next-mem next previous x (next x) n xs linked.3 later in
        let p = previous-mem next previous x (next x) n xs linked.3 later in
        let tail = removed-Linked x (next x) xs linked.3 distinct.1 distinct.0 later in
        let e : next' x ≡ (if next x == n then next n else next x) = ground (
          arith,
          forth x linked.1,
          p,
          other,
          distinct.0,
          previous_first next previous x (next x) xs linked.3,
          mem_valid next previous x (next x) n xs linked.3 later,
        ) in
        rw (other, g)
          (linked.0, linked.1, ground (arith, back x linked.1, linked.2, k, distinct.0), rw e tail)
  ]

-- What an unlinking writes, a field at a time: `node` is the only block before or after itself.
module _ (m : Heap) (n : ℕ) (apart : (m.next n ≢ n) × (m.previous n ≢ n)) where
  unlink-next :
      (y : ℕ)
      → y ≢ 0
      → (node_unlink n m).next y
        ≡ (if y == n then 0 else if y == m.previous n then m.next n else m.next y)
  unfolding node_unlink unlink_start unlink_before unlink_after
  unlink-next y valid = ground (arith, apart)

  unlink-previous :
      (y : ℕ)
      → y ≢ 0
      → (node_unlink n m).previous y
        ≡ (if y == n then 0 else if y == m.next n then m.previous n else m.previous y)
  unfolding node_unlink unlink_start unlink_before unlink_after
  unlink-previous y valid = ground (arith, apart)

  unlink-buckets :
      (b : ℕ)
      → b ≡ m.bucket n
      → (node_unlink n m).buckets b ≡ (if m.buckets b == n then m.next n else m.buckets b)
  unfolding node_unlink unlink_start unlink_before unlink_after
  unlink-buckets b e = ground (arith, apart)

-- Unlinking a block of a free list takes it out and keeps the others in their order.
pub node_unlink-FreeList :
    (m : Heap) (n : ℕ) (xs : List ℕ)
    → FreeList m (m.bucket n) xs
    → mem n xs ≡ true
    → FreeList (node_unlink n m) (m.bucket n) (delete n xs)
node_unlink-FreeList m n xs list inside =
    let valid = mem_valid m.next m.previous 0 (m.buckets (m.bucket n)) 0 xs list.0 in
    let outside : mem 0 xs ≡ false = elim (Bool-cases (mem 0 xs)) [
      | inl e ↦ absurd (valid e refl)
      | inr e ↦ e
    ] in
    let apart =
      links_apart m.next m.previous 0 (m.buckets (m.bucket n)) n xs list.0 list.1 outside inside in
    let m' : Heap = node_unlink n m in
    (
      subst (λ at. Linked m'.next m'.previous 0 at (delete n xs))
          (sym (unlink-buckets m n apart (m.bucket n) refl))
          (removed-Linked m.next m.previous m'.next m'.previous n (unlink-next m n apart)
            (unlink-previous m n apart) 0 (m.buckets (m.bucket n)) xs list.0 list.1 outside inside),
      delete-AllDistinct n xs list.1,
    )
