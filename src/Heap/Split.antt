-- ===== src/Heap/Split.antt =====
-- `c4a_split_node` and `c4a_bucket_spillover` on the blocks of a region.
use c4_os.Prelude.{
  ℕ, suc, ◌+◌, ◌-◌, ◌^◌, ◌<◌, ◌≡◌, ◌≢◌, ◌⊎◌, ◌∙◌, refl, arith, true, List, [], ◌∷◌, ◌==◌,
  if◌then◌else◌, Bool-cases, inl, inr,
}
use native.Mathlib.Nat.{pow-suc}
use mathlib.Core.Path.{subst}
use c4_os.Heap.{
  Heap, split_node, bucket_insert, node_unlink, unlink_start, unlink_before, unlink_after,
}
use c4_os.Heap.Lists.{mem}
use c4_os.Heap.Chains.{
  first_or_null, Chain, Region, Chain-first, Chain-above, Chain-after, Chain-agree, pow_positive,
  IsUnmoved,
}

abbrev pub insert_after : ℕ → ℕ → List ℕ → List ℕ
insert_after n t [] = []
insert_after n t (x ∷ xs) = if n == x then x ∷ t ∷ xs else x ∷ insert_after n t xs

first-insert_after :
    (n t : ℕ) (xs : List ℕ) → first_or_null (insert_after n t xs) ≡ first_or_null xs
first-insert_after n t [] = refl
first-insert_after n t (x ∷ xs) = ground arith

-- A block below `n` is not the one after it.
pub below-after : (x n a s : ℕ) → x ≢ 0 → x < n → (a ≡ 0) ⊎ (a ≡ n + s) → x ≢ a
below-after x n a s valid below next = ground arith

-- The fields after `n`, of size `2 ^ suc k`, is cut in two at `t`.
module _ (after before size after' before' size' : ℕ → ℕ) (stop n k : ℕ)
    (forth : (y : ℕ)
      → after' y ≡ (if y == n then n + 2 ^ k else if y == n + 2 ^ k then after n else after y))
    (back : (y : ℕ)
      → y ≢ 0
      → before' y ≡ (if y == after n then n + 2 ^ k else if y == n + 2 ^ k then n else before y))
    (sizes : (y : ℕ) → size' y ≡ (if y == n then k else if y == n + 2 ^ k then k else size y))
    (large : size n ≡ suc k) where
  split_first :
      (last at : ℕ) (xs : List ℕ)
      → 0 < at
      → Chain after before size stop last at (n ∷ xs)
      → Chain after' before' size' stop last at (n ∷ (n + 2 ^ k) ∷ xs)
  split_first last at xs low chain =
      let wide = pow_positive k in
      let e : size' n ≡ k = ground (arith, sizes n) in
      let f : size' (n + 2 ^ k) ≡ k = ground (arith, sizes (n + 2 ^ k)) in
      let g : n + 2 ^ k + 2 ^ k ≡ n + 2 ^ size n = rw large (omega (arith, pow-suc 2 k)) in
      let begin = Chain-first after before size stop n (n + 2 ^ size n) xs chain.3 in
      (
        chain.0,
        ground (arith, back n, chain.0, chain.1, chain.2, begin, g),
        ground (arith, forth n),
        rw e (
          refl,
          ground (arith, back (n + 2 ^ k), chain.2, begin, g),
          ground (arith, forth (n + 2 ^ k), chain.2),
          rw (f, g)
              (Chain-agree after before size after' before' size' stop n (n + 2 ^ k)
                (n + 2 ^ size n) xs
                (λ y above. (ground (arith, forth y, above, g), ground (arith, sizes y, above, g)))
                (λ y above. ground (arith, back y, above, begin, chain.2, g))
                (λ some. ground (arith, back (n + 2 ^ size n), begin, some, chain.2, chain.0))
                (omega (arith, low, chain.0, g)) chain.3),
        ),
      )

  split_below : (x : ℕ) → x ≢ 0 → x < n → x ≢ after n → before' x ≡ before x
  split_below x valid below apart = ground (arith, back x valid)

  pub split-Chain :
      (last at : ℕ) (xs : List ℕ)
      → 0 < at
      → mem n xs ≡ true
      → Chain after before size stop last at xs
      → Chain after' before' size' stop last at (insert_after n (n + 2 ^ k) xs)
  split-Chain last at [] low inside chain = ground arith
  split-Chain last at (x ∷ xs) low inside chain = elim (Bool-cases (n == x)) [
    | inl e ↦
        let f : x ≡ n = ground arith in
        let c = subst (λ y. Chain after before size stop last at (y ∷ xs)) f chain in
        rw (e, f) (split_first last at xs low c)
    | inr e ↦
        let later : mem n xs ≡ true = ground arith in
        let wide = pow_positive (size x) in
        let above = Chain-above after before size stop x (x + 2 ^ size x) n xs chain.3 later in
        let next = Chain-after after before size stop x (x + 2 ^ size x) n xs chain.3 later in
        let lt : x < n = omega arith in
        let valid : x ≢ 0 = λ z. omega (arith, z, low, chain.0) in
        let apart = below-after x n (after n) (2 ^ size n) valid lt next in
        let f : size' x ≡ size x = ground (arith, sizes x) in
        rw e (
          chain.0,
          split_below x valid lt apart ∙ chain.1,
          ground (arith, forth x, chain.2, first-insert_after n (n + 2 ^ k) xs),
          rw f (split-Chain x (x + 2 ^ size x) xs (omega arith) later chain.3),
        )
  ]

-- The links between free blocks are not those between neighbours.
pub bucket_insert-IsUnmoved : (b n : ℕ) (m : Heap) → IsUnmoved m (bucket_insert b n m)
unfolding bucket_insert
bucket_insert-IsUnmoved b n m y = ground arith

pub node_unlink-IsUnmoved : (n : ℕ) (m : Heap) → IsUnmoved m (node_unlink n m)
unfolding node_unlink unlink_start unlink_before unlink_after
node_unlink-IsUnmoved n m y = ground arith

-- Splitting a block of a region puts a block of half its size after it.
pub split_node-Region :
    (m : Heap) (at stop n k : ℕ) (xs : List ℕ)
    → 0 < at
    → mem n xs ≡ true
    → m.bucket n ≡ suc k
    → Region m at stop xs
    → Region (split_node n m).1 at stop (insert_after n (n + 2 ^ k) xs)
unfolding split_node
split_node-Region m at stop n k xs low inside large region =
    let m' : Heap = (split_node n m).1 in
    let e : m.bucket n - 1 ≡ k = omega (arith, large) in
    let wide = pow_positive k in
    split-Chain m.phys_next m.phys_prev m.bucket m'.phys_next m'.phys_prev m'.bucket stop n k
      (λ y. ground (arith, e, wide)) (λ y valid. ground (arith, e, wide))
      (λ y. ground (arith, e, wide)) large 0 at xs low inside region
