-- ===== src/Heap/Chains.antt =====
-- The blocks of a region in the order of their addresses, by the links `phys_next` and `phys_prev`.
use c4_os.Prelude.{
  ℕ, zero, suc, ◌+◌, ◌^◌, ◌≤◌, ◌<◌, ◌≡◌, ◌≢◌, ◌⊎◌, ◌∙◌, refl, ap, sym, arith, true, List, [], ◌∷◌,
  ◌==◌, Bool-cases, inl, inr,
}
use native.Mathlib.Nat.{pow-suc}
use c4_os.Heap.{Heap}
use c4_os.Heap.Lists.{mem}

abbrev pub first_or_null : List ℕ → ℕ
first_or_null [] = 0
first_or_null (x ∷ xs) = x

-- The blocks fill the addresses from `at` to `stop` without a gap, each of the size of its bucket.
abbrev pub Chain : (ℕ → ℕ) → (ℕ → ℕ) → (ℕ → ℕ) → ℕ → ℕ → ℕ → List ℕ → Type 0
Chain after before size stop last at [] = at ≡ stop
Chain after before size stop last at (x ∷ xs) =
    (at ≡ x)
    × (before x ≡ last)
    × (after x ≡ first_or_null xs)
    × Chain after before size stop x (x + 2 ^ size x) xs

-- The region from `at` to `stop` is the blocks `xs`.
abbrev pub Region : Heap → ℕ → ℕ → List ℕ → Type 0
Region m at stop xs = Chain m.phys_next m.phys_prev m.bucket stop 0 at xs

pub pow_positive : (k : ℕ) → 0 < 2 ^ k
pow_positive zero = omega arith
pow_positive (suc k) = omega (arith, pow_positive k, pow-suc 2 k)

module _ (after before size : ℕ → ℕ) (stop : ℕ) where
  pub Chain-first :
      (last at : ℕ) (xs : List ℕ)
      → Chain after before size stop last at xs
      → (first_or_null xs ≡ 0) ⊎ (first_or_null xs ≡ at)
  Chain-first last at [] chain = inl refl
  Chain-first last at (x ∷ xs) chain = ground (arith, chain.0)

  pub Chain-before :
      (last at : ℕ) (xs : List ℕ)
      → Chain after before size stop last at xs
      → first_or_null xs ≢ 0
      → before at ≡ last
  Chain-before last at [] chain some = absurd (some refl)
  Chain-before last at (x ∷ xs) chain some = ground (arith, chain.0, chain.1)

  pub Chain-above :
      (last at y : ℕ) (xs : List ℕ)
      → Chain after before size stop last at xs
      → mem y xs ≡ true
      → at ≤ y
  Chain-above last at y [] chain inside = ground arith
  Chain-above last at y (x ∷ xs) chain inside =
      ground (arith, chain.0, Chain-above x (x + 2 ^ size x) y xs chain.3)

  pub Chain-after :
      (last at y : ℕ) (xs : List ℕ)
      → Chain after before size stop last at xs
      → mem y xs ≡ true
      → (after y ≡ 0) ⊎ (after y ≡ y + 2 ^ size y)
  Chain-after last at y [] chain inside = ground arith
  Chain-after last at y (x ∷ xs) chain inside = elim (Bool-cases (y == x)) [
    | inl e ↦
        let f : y ≡ x = ground arith in
        rw f (ground (arith, chain.2, Chain-first x (x + 2 ^ size x) xs chain.3))
    | inr e ↦ Chain-after x (x + 2 ^ size x) y xs chain.3 (ground arith)
  ]

  -- The neighbours of a block of a chain are blocks of it too.
  pub mem-after :
      (last at y : ℕ) (xs : List ℕ)
      → Chain after before size stop last at xs
      → mem y xs ≡ true
      → after y ≢ 0
      → mem (after y) xs ≡ true
  mem-after last at y [] chain inside some = inside
  mem-after last at y (x ∷ []) chain inside some = ground (arith, chain.2)
  mem-after last at y (x ∷ z ∷ zs) chain inside some =
      ground (arith, chain.2, mem-after x (x + 2 ^ size x) y (z ∷ zs) chain.3)

  pub mem-before :
      (last at y : ℕ) (xs : List ℕ)
      → Chain after before size stop last at xs
      → mem y xs ≡ true
      → ((y ≡ first_or_null xs) × (before y ≡ last))
        ⊎ ((mem (before y) xs ≡ true) × (after (before y) ≡ y))
  mem-before last at y [] chain inside = ground arith
  mem-before last at y (x ∷ xs) chain inside = elim (Bool-cases (y == x)) [
    | inl e ↦ let f : y ≡ x = ground arith in inl (f, ap before f ∙ chain.1)
    | inr e ↦ elim (mem-before x (x + 2 ^ size x) y xs chain.3 (ground arith)) [
      | inl second ↦
          let f : before y ≡ x = second.1 in rw f (inr (ground arith, chain.2 ∙ sym second.0))
      | inr later ↦ let f = later.0 in inr (ground (arith, f), later.1)
    ]
  ]

-- Fields that agree from `at` on, but for the link back from there, make the same chain.
pub Chain-agree :
    (after before size after' before' size' : ℕ → ℕ) (stop last last' at : ℕ) (xs : List ℕ)
    → ((y : ℕ) → at ≤ y → (after' y ≡ after y) × (size' y ≡ size y))
    → ((y : ℕ) → at < y → before' y ≡ before y)
    → (first_or_null xs ≢ 0 → before' at ≡ last')
    → 0 < at
    → Chain after before size stop last at xs
    → Chain after' before' size' stop last' at xs
Chain-agree after before size after' before' size' stop last last' at [] forth back first low
      chain =
    chain
Chain-agree after before size after' before' size' stop last last' at (x ∷ xs) forth back first low
      chain =
    let here = forth x (omega (arith, chain.0)) in
    let e : size' x ≡ size x = here.1 in
    let wide = pow_positive (size x) in
    let begin = Chain-first after before size stop x (x + 2 ^ size x) xs chain.3 in
    let second = x + 2 ^ size x in
    (
      chain.0,
      ground (arith, chain.0, first (λ z. omega (arith, z, low, chain.0))),
      ground (arith, here.0, chain.2),
      rw e (
          Chain-agree after before size after' before' size' stop x x (x + 2 ^ size x) xs
            (λ y above. forth y (omega (arith, above, chain.0)))
            (λ y above. back y (omega (arith, above, chain.0)))
            (λ some. ground (
              arith,
              back second (omega (arith, chain.0)),
              Chain-before after before size stop x second xs chain.3 some,
            ))
            (omega (arith, low, chain.0)) chain.3),
    )

-- The fields that give the blocks of a region are the same in two heaps.
abbrev pub IsUnmoved : Heap → Heap → Type 0
IsUnmoved m m' =
    (y : ℕ)
    → (m'.phys_next y ≡ m.phys_next y)
      × (m'.phys_prev y ≡ m.phys_prev y)
      × (m'.bucket y ≡ m.bucket y)
      × (m'.status y ≡ m.status y)

pub IsUnmoved-Region :
    (m m' : Heap) (at stop : ℕ) (xs : List ℕ)
    → IsUnmoved m m'
    → 0 < at
    → Region m at stop xs
    → Region m' at stop xs
IsUnmoved-Region m m' at stop xs same low region =
    Chain-agree m.phys_next m.phys_prev m.bucket m'.phys_next m'.phys_prev m'.bucket stop 0 0 at xs
      (λ y above. ((same y).0, (same y).2)) (λ y above. (same y).1)
      (λ some. (same at).1 ∙ Chain-before m.phys_next m.phys_prev m.bucket stop 0 at xs region some)
      low region
