-- ===== src/Heap/Join.antt =====
-- `c4a_do_coalesce` on the blocks of a region.
use native.Mathlib.Nat.{pow-suc}
use c4_os.Prelude.{
  ℕ, suc, ◌+◌, ◌^◌, ◌≤◌, ◌<◌, ◌≡◌, ◌≢◌, ◌⊎◌, ◌∙◌, refl, sym, arith, true, false, List, [], ◌∷◌,
  Bool-cases, inl, inr, length,
}
use c4_os.Heap.{Heap, node_unlink, join, can_coalesce, do_coalesce, status_free}
use c4_os.Heap.Lists.{mem, delete}
use c4_os.Heap.Chains.{Region, Chain-after, mem-after, mem-before, pow_positive, IsUnmoved-Region}
use c4_os.Heap.Split.{node_unlink-IsUnmoved}
use c4_os.Heap.Merge.{merge-Chain}

join-Region :
    (m : Heap) (a b at stop : ℕ) (xs : List ℕ)
    → 0 < at
    → b ≢ 0
    → mem a xs ≡ true
    → m.phys_next a ≡ b
    → m.bucket a ≡ m.bucket b
    → Region m at stop xs
    → Region (join a b m) at stop (delete b xs)
unfolding join
join-Region m a b at stop xs low valid inside adjacent alike region =
    let m0 : Heap = node_unlink a m in
    let m1 : Heap = node_unlink b m0 in
    let m' : Heap = join a b m in
    let kept0 = node_unlink-IsUnmoved a m in
    let kept1 = node_unlink-IsUnmoved b m0 in
    let region1 =
      IsUnmoved-Region m0 m1 at stop xs kept1 low
        (IsUnmoved-Region m m0 at stop xs kept0 low region) in
    merge-Chain m1.phys_next m1.phys_prev m1.bucket m'.phys_next m'.phys_prev m'.bucket stop a b
      (λ y. ground arith) (λ y y_valid. ground arith) (λ y. ground arith)
      ((kept1 a).0 ∙ (kept0 a).0 ∙ adjacent)
      ((kept1 a).2 ∙ (kept0 a).2 ∙ alike ∙ sym (kept0 b).2 ∙ sym (kept1 b).2) 0 at xs low valid
      inside region1

join_fields :
    (m : Heap) (a b y : ℕ)
    → ((join a b m).bucket a ≡ suc (m.bucket a)) × ((join a b m).status y ≡ m.status y)
unfolding join
join_fields m a b y =
    let k0 = node_unlink-IsUnmoved a m in
    let k1 = node_unlink-IsUnmoved b (node_unlink a m) in
    (ground (arith, k0 a, k1 a), ground (arith, k0 y, k1 y))

can_coalesce-true :
    (a b : ℕ) (m : Heap)
    → can_coalesce a b m ≡ true
    → (a ≢ 0) × (b ≢ 0) × (m.bucket a ≡ m.bucket b) × (m.status a ≡ 1) × (m.status b ≡ 1)
unfolding can_coalesce
can_coalesce-true a b m e = ground arith

length-delete : (n : ℕ) (xs : List ℕ) → mem n xs ≡ true → suc (length (delete n xs)) ≡ length xs
length-delete n [] inside = ground arith
length-delete n (x ∷ xs) inside = ground (arith, length-delete n xs)

mem-delete_other : (n y : ℕ) (xs : List ℕ) → y ≢ n → mem y xs ≡ true → mem y (delete n xs) ≡ true
mem-delete_other n y [] apart inside = inside
mem-delete_other n y (x ∷ xs) apart inside = ground (arith, mem-delete_other n y xs)

-- What a merge of `a` with its successor `b` does, when it is done.
pub record IsMerged (m : Heap) (a b at stop : ℕ) (xs : List ℕ) (m' : Heap) : Type 0 where
  pub merged_region : Region m' at stop (delete b xs)
  pub merged_mem : mem a (delete b xs) ≡ true
  pub merged_shorter : suc (length (delete b xs)) ≡ length xs
  pub merged_status : m'.status a ≡ status_free
  pub merged_below : a < b
  pub merged_larger : 2 ^ m.bucket a ≤ 2 ^ m'.bucket a
  pub merged_end : a + 2 ^ m'.bucket a ≡ b + 2 ^ m.bucket b

-- Two blocks of a region, the second after the first, if there are two.
abbrev pub AreNeighbours : Heap → ℕ → ℕ → List ℕ → Type 0
AreNeighbours m a b xs = a ≢ 0 → b ≢ 0 → (mem a xs ≡ true) × (mem b xs ≡ true) × (m.phys_next a ≡ b)

module _ (m : Heap) (at stop n : ℕ) (xs : List ℕ) (region : Region m at stop xs)
    (inside : mem n xs ≡ true) where
  pub before-AreNeighbours : AreNeighbours m (m.phys_prev n) n xs
  before-AreNeighbours first second =
      elim (mem-before m.phys_next m.phys_prev m.bucket stop 0 at n xs region inside) [
        | inl none ↦ absurd (first none.1)
        | inr found ↦ (found.0, inside, found.1)
      ]

  pub after-AreNeighbours : AreNeighbours m n (m.phys_next n) xs
  after-AreNeighbours first second =
      (inside, mem-after m.phys_next m.phys_prev m.bucket stop 0 at n xs region inside second, refl)

pub do_coalesce-IsMerged :
    (m : Heap) (a b at stop : ℕ) (xs : List ℕ)
    → 0 < at
    → Region m at stop xs
    → AreNeighbours m a b xs
    → (((do_coalesce a b m).0 ≡ true) × IsMerged m a b at stop xs (do_coalesce a b m).1)
      ⊎ ((do_coalesce a b m ≡ (false, m)) × (can_coalesce a b m ≡ false))
unfolding do_coalesce
do_coalesce-IsMerged m a b at stop xs low region near = elim (Bool-cases (can_coalesce a b m)) [
  | inr e ↦ rw e (inr (refl, refl))
  | inl e ↦
      let f = can_coalesce-true a b m e in
      let here = near f.0 f.1 in
      let next = Chain-after m.phys_next m.phys_prev m.bucket stop 0 at a xs region here.0 in
      let fields = join_fields m a b a in
      let g : b ≡ a + 2 ^ m.bucket a = ground (arith, next, here.2, f.1) in
      let wide = pow_positive (m.bucket a) in
      let lt : a < b = omega (arith, g, wide) in
      rw e (
        inl (
          refl,
          record {
            merged_region = join-Region m a b at stop xs low f.1 here.0 here.2 f.2 region;
            merged_mem = mem-delete_other b a xs (λ z. omega (arith, z, lt)) here.0;
            merged_shorter = length-delete b xs here.1;
            merged_status = fields.1 ∙ f.3;
            merged_below = lt;
            merged_larger = rw fields.0 (omega (arith, pow-suc 2 (m.bucket a)));
            merged_end = rw (fields.0, sym f.2) (omega (arith, g, pow-suc 2 (m.bucket a)));
          },
        ))
]
