-- ===== src/Strings/Compare.antt =====
-- `strcmp` and `strncmp`: what makes them 0.
use native.Mathlib.Decide.{ℕ_discrete}
use c4_os.Prelude.{
  ℕ, zero, suc, ◌+◌, ◌<◌, ◌≡◌, ◌↔◌, refl, ap, ap₂, drop, get_or, ◌∙◌, sym, arith, List, [], ◌∷◌,
  ◌==◌, if◌then◌else◌, length, take, some, Bool-cases, inl, inr,
}
use c4_os.Strings.{Memory, strcmp, strncmp, char_diff, char_lt, minus_one}
use c4_os.Strings.Text.{IsString}

-- What the comparison answers, on the characters: 0 where the lists agree, -1 or 1 by the first two
-- characters that differ, and where a string ends first, the difference to the final 0.
unfoldable pub order : List ℕ → List ℕ → ℕ
order [] [] = 0
order [] (y ∷ ys) = char_diff 0 y
order (x ∷ xs) [] = char_diff x 0
order (x ∷ xs) (y ∷ ys) =
    let rest = order xs ys in if x == y then rest else if char_lt x y then minus_one else 1

strcmp-order :
    (fuel s1 s2 : ℕ) (m : Memory) (xs ys : List ℕ)
    → IsString m s1 xs
    → IsString m s2 ys
    → length xs < fuel
    → strcmp fuel s1 s2 m ≡ some (order xs ys)
unfolding strcmp order
strcmp-order zero s1 s2 m xs ys a b enough = absurd (omega arith)
strcmp-order (suc fuel) s1 s2 m [] [] a b enough = rw (a, b) refl
strcmp-order (suc fuel) s1 s2 m [] (y ∷ ys) a b enough = rw (a, b.0) refl
strcmp-order (suc fuel) s1 s2 m (x ∷ xs) [] a b enough = ground (arith, a.0, b)
strcmp-order (suc fuel) s1 s2 m (x ∷ xs) (y ∷ ys) a b enough =
    let next = strcmp-order fuel (s1 + 1) (s2 + 1) m xs ys a.3 b.3 (omega arith) in
    ground (arith, a.0, a.1, b.0, b.1, next)

order-zero :
    (s1 s2 : ℕ) (m : Memory) (xs ys : List ℕ)
    → IsString m s1 xs
    → IsString m s2 ys
    → (order xs ys ≡ 0) ↔ (xs ≡ ys)
unfolding order
order-zero s1 s2 m [] [] a b = ((λ e. refl), (λ e. refl))
order-zero s1 s2 m [] (y ∷ ys) a b =
    ((λ e. absurd (ground (arith, e, b.1, b.2))), λ e. absurd (omega (arith, ap length e)))
order-zero s1 s2 m (x ∷ xs) [] a b =
    ((λ e. absurd (ground (arith, e, a.1, a.2))), λ e. absurd (omega (arith, ap length e)))
order-zero s1 s2 m (x ∷ xs) (y ∷ ys) a b =
    let ih = order-zero (s1 + 1) (s2 + 1) m xs ys a.3 b.3 in
    elim (Bool-cases (x == y)) [
      | inl e ↦
          let same : x ≡ y = ground (arith, e) in
          rw e ((λ z. ap₂ ◌∷◌ same (ih.0 z)), λ q. ih.1 (ap (drop 1) q))
      | inr e ↦ rw e (
        (λ z. absurd (ground (arith, z))),
        λ q. absurd (ground (arith, e, ap (λ l. get_or l 0 0) q)),
      )
    ]

-- With more rounds than the first string has characters, `strcmp` of two strings ends and returns
-- what `order` says of their characters, which is 0 exactly if the strings are equal.
pub strcmp-IsString :
    (fuel s1 s2 : ℕ) (m : Memory) (xs ys : List ℕ)
    → IsString m s1 xs
    → IsString m s2 ys
    → length xs < fuel
    → (strcmp fuel s1 s2 m ≡ some (order xs ys)) × ((order xs ys ≡ 0) ↔ (xs ≡ ys))
strcmp-IsString fuel s1 s2 m xs ys a b enough =
    (strcmp-order fuel s1 s2 m xs ys a b enough, order-zero s1 s2 m xs ys a b)

-- `strncmp` of two strings is 0 exactly if they agree in their first `n + 1` characters, as far as
-- they go, one more than asked for.
pub strncmp-take :
    (n s1 s2 : ℕ) (m : Memory) (xs ys : List ℕ)
    → IsString m s1 xs
    → IsString m s2 ys
    → (strncmp s1 s2 n m ≡ 0) ↔ (take (suc n) xs ≡ take (suc n) ys)
unfolding strncmp
strncmp-take zero s1 s2 m [] [] a b = ((λ z. refl), λ z. ground (arith, a, b))
strncmp-take zero s1 s2 m [] (y ∷ ys) a b =
    ((λ z. absurd (ground (arith, z, a, b.0, b.1, b.2))), λ e. absurd (omega (arith, ap length e)))
strncmp-take zero s1 s2 m (x ∷ xs) [] a b =
    ((λ z. absurd (ground (arith, z, a.0, a.1, a.2, b))), λ e. absurd (omega (arith, ap length e)))
strncmp-take zero s1 s2 m (x ∷ xs) (y ∷ ys) a b = (
  (λ z. ap (λ (c : ℕ). c ∷ []) (ground (arith, z, a.0, a.2, b.0, b.2))),
  λ q. ground (arith, ap (λ l. get_or l 0 0) q, a.0, b.0),
)
strncmp-take (suc n) s1 s2 m [] [] a b = ((λ z. refl), λ z. ground (arith, a, b))
strncmp-take (suc n) s1 s2 m [] (y ∷ ys) a b =
    ((λ z. absurd (ground (arith, z, a, b.0, b.1, b.2))), λ e. absurd (omega (arith, ap length e)))
strncmp-take (suc n) s1 s2 m (x ∷ xs) [] a b =
    ((λ z. absurd (ground (arith, z, a.0, a.1, a.2, b))), λ e. absurd (omega (arith, ap length e)))
strncmp-take (suc n) s1 s2 m (x ∷ xs) (y ∷ ys) a b =
    let ih = strncmp-take n (s1 + 1) (s2 + 1) m xs ys a.3 b.3 in
    elim (ℕ_discrete x y) [
      | yes same ↦
          let step : strncmp s1 s2 (suc n) m ≡ strncmp (s1 + 1) (s2 + 1) n m =
            ground (arith, a.0, a.1, b.0, b.1, same) in
          ((λ z. ap₂ ◌∷◌ same (ih.0 (sym step ∙ z))), λ q. step ∙ ih.1 (ap (drop 1) q))
      | no ne ↦ (
        (λ z. absurd (ground (arith, z, a.0, a.1, b.0, b.1, ne))),
        λ q. absurd (ne (ap (λ l. get_or l 0 0) q)),
      )
    ]
