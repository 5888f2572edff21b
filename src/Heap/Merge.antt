-- ===== src/Heap/Merge.antt =====
-- `c4a_do_coalesce` on the blocks of a region.
use mathlib.Core.Path.{subst}
use native.Mathlib.Nat.{pow-suc}
use c4_os.Prelude.{
  ==-same, ℕ, suc, ◌+◌, ◌^◌, ◌≤◌, ◌<◌, ◌≡◌, ◌≢◌, ◌⊎◌, ◌∙◌, refl, ap, sym, arith, true, false, List,
  [], ◌∷◌, ◌==◌, if◌then◌else◌, Bool-cases, inl, inr,
}
use c4_os.Heap.Lists.{mem, delete, mem_later, ==-below}
use c4_os.Heap.Chains.{
  first_or_null, Chain, Chain-first, Chain-above, Chain-after, Chain-agree, mem-after, pow_positive,
}
use c4_os.Heap.Split.{below-after}

first-delete :
    (b : ℕ) (xs : List ℕ) → first_or_null xs ≢ b → first_or_null (delete b xs) ≡ first_or_null xs
first-delete b [] apart = refl
first-delete b (x ∷ xs) apart = ground arith

after-first : (a f e : ℕ) → a ≡ f → (f ≡ 0) ⊎ (f ≡ e) → (a ≡ 0) ⊎ (a ≡ e)
after-first a f e same first = rw same first

after_adjacent : (a e b : ℕ) → (a ≡ 0) ⊎ (a ≡ e) → a ≡ b → b ≢ 0 → b ≡ e
after_adjacent a e b next same valid = ground arith

first_below : (f e a b : ℕ) → (f ≡ 0) ⊎ (f ≡ e) → e ≤ a → a < b → b ≢ 0 → f ≢ b
first_below f e a b first above below valid = ground arith

-- The fields after `b` is merged into `a`, the block before it.
module _ (after before size after' before' size' : ℕ → ℕ) (stop a b : ℕ)
    (forth : (y : ℕ) → after' y ≡ (if y == a then after b else after y))
    (back : (y : ℕ) → y ≢ 0 → before' y ≡ (if y == after b then a else before y))
    (sizes : (y : ℕ) → size' y ≡ (if y == a then suc (size a) else size y)) (adjacent : after a ≡ b)
    (alike : size a ≡ size b) where
  merge_below : (x : ℕ) → x ≢ 0 → x ≢ after b → before' x ≡ before x
  merge_below x valid apart = ground (arith, back x valid)

  merge_size : (x : ℕ) → (a == x) ≡ false → size' x ≡ size x
  merge_size x e = ground (arith, sizes x)

  merge_after : (x : ℕ) → (a == x) ≡ false → after' x ≡ after x
  merge_after x e = ground (arith, forth x)

  merge_first :
      (last at : ℕ) (xs : List ℕ)
      → 0 < at
      → Chain after before size stop last at (a ∷ b ∷ xs)
      → Chain after' before' size' stop last at (a ∷ xs)
  merge_first last at xs low chain =
      let c = chain.3.3 in
      let wide = pow_positive (size a) in
      let e : size' a ≡ suc (size a) = ground (arith, sizes a) in
      let g : a + 2 ^ suc (size a) ≡ b + 2 ^ size b =
        omega (arith, pow-suc 2 (size a), chain.3.0, ap (λ (s : ℕ). 2 ^ s) alike) in
      let begin = Chain-first after before size stop b (b + 2 ^ size b) xs c in
      let a_valid : a ≢ 0 = λ z. omega (arith, z, low, chain.0) in
      let lt : a < b = omega (arith, wide, chain.3.0) in
      let next = after-first (after b) (first_or_null xs) (b + 2 ^ size b) chain.3.2 begin in
      let apart = below-after a b (after b) (2 ^ size b) a_valid lt next in
      (
        chain.0,
        merge_below a a_valid apart ∙ chain.1,
        ground (arith, forth a, chain.3.2),
        rw (e, g)
            (Chain-agree after before size after' before' size' stop b a (b + 2 ^ size b) xs
              (λ y above. (ground (arith, forth y, above, g), ground (arith, sizes y, above, g)))
              (λ y above. ground (arith, back y, above, begin, chain.3.2))
              (λ some.
                ground (arith, back (b + 2 ^ size b), begin, some, chain.3.2, chain.3.0, wide))
              (omega (arith, low, chain.0, chain.3.0)) c),
      )

  merge_here :
      (last at : ℕ) (xs : List ℕ)
      → 0 < at
      → b ≢ 0
      → Chain after before size stop last at (a ∷ xs)
      → Chain after' before' size' stop last at (delete b (a ∷ xs))
  merge_here last at [] low valid chain = absurd (valid (sym adjacent ∙ chain.2))
  merge_here last at (z ∷ zs) low valid chain =
      let e : z ≡ b = sym chain.2 ∙ adjacent in
      let c = subst (λ y. Chain after before size stop last at (a ∷ y ∷ zs)) e chain in
      let wide = pow_positive (size a) in
      let f = ==-below a b (omega (arith, c.3.0, wide)) in
      let g : (b == z) ≡ true = ground (arith, e) in rw (f, g) (merge_first last at zs low c)

  pub merge-Chain :
      (last at : ℕ) (xs : List ℕ)
      → 0 < at
      → b ≢ 0
      → mem a xs ≡ true
      → Chain after before size stop last at xs
      → Chain after' before' size' stop last at (delete b xs)
  merge-Chain last at [] low valid inside chain = ground arith
  merge-Chain last at (x ∷ xs) low valid inside chain = elim (Bool-cases (a == x)) [
    | inl e ↦
        let f = ==-same a x e in
        let c = subst (λ y. Chain after before size stop last at (y ∷ xs)) f chain in
        rw f (merge_here last at xs low valid c)
    | inr e ↦
        let later = mem_later a x xs e inside in
        let wide = pow_positive (size x) in
        let wide_a = pow_positive (size a) in
        let above = Chain-above after before size stop x (x + 2 ^ size x) a xs chain.3 later in
        let next = Chain-after after before size stop x (x + 2 ^ size x) a xs chain.3 later in
        let some : after a ≢ 0 = λ z. valid (sym adjacent ∙ z) in
        let member =
          subst (λ y. mem y xs ≡ true) adjacent
            (mem-after after before size stop x (x + 2 ^ size x) a xs chain.3 later some) in
        let after_b = Chain-after after before size stop x (x + 2 ^ size x) b xs chain.3 member in
        let g = after_adjacent (after a) (a + 2 ^ size a) b next adjacent valid in
        let x_valid : x ≢ 0 = λ z. omega (arith, z, low, chain.0) in
        let begin = Chain-first after before size stop x (x + 2 ^ size x) xs chain.3 in
        let second : first_or_null xs ≢ b =
          first_below (first_or_null xs) (x + 2 ^ size x) a b begin above (omega (arith, g, wide_a))
            valid in
        let apart =
          below-after x b (after b) (2 ^ size b) x_valid (omega (arith, g, above, wide)) after_b in
        let f = merge_size x e in
        let h = ==-below x b (omega (arith, g, above, wide)) in
        rw h (
          chain.0,
          merge_below x x_valid apart ∙ chain.1,
          merge_after x e ∙ chain.2 ∙ sym (first-delete b xs second),
          rw f
              (merge-Chain x (x + 2 ^ size x) xs (omega (arith, low, chain.0)) valid later chain.3),
        )
  ]
