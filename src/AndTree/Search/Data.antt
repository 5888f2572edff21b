-- ===== src/AndTree/Search/Data.antt =====
-- Search by data pointer: `andtree_find_data` and the search below equal keys.
use native.Mathlib.Decide.{dec_lt, ℕ_discrete}
use c4_os.Prelude.{
  ℕ, ◌-◌, ◌^◌, ◌<◌, ◌≡◌, ◌≢◌, refl, ap, Option, none, some, List, [], ◌∷◌, arith, All, All-append,
}
use c4_os.AndTree.Nodes.{Tree, nil, node, Frame, from_left, from_right, Place, plug, or_else}
use c4_os.AndTree.Lists.{items}
use c4_os.AndTree.Order.{
  zero-compare, direction-compare, Chain, IsOrdered, Chain-le, Chain-left, Chain-right, Chain-above,
  Chain-below,
}
use c4_os.AndTree.Search.{andtree_find_dupe_data, find_data_from, andtree_find_data}

-- Null, where the data is not in the tree; otherwise the place of a node that has it.
abbrev pub HasData : ℕ → List ℕ → Tree → Option Place → Type 0
HasData d xs root none = All (λ x. x ≢ d) xs
HasData d xs root (some (nil, fs)) = ⊥
HasData d xs root (some (node k l x r, fs)) = (x ≡ d) × (plug (node k l x r) fs ≡ root)

HasData-widen :
    (d : ℕ) (xs ys : List ℕ) (root : Tree) (p : Option Place)
    → HasData d xs root p
    → (All (λ x. x ≢ d) xs → All (λ x. x ≢ d) ys)
    → HasData d ys root p
HasData-widen d xs ys root none h f = f h
HasData-widen d xs ys root (some (nil, fs)) h f = h
HasData-widen d xs ys root (some (node k l x r, fs)) h f = h

-- The search in two parts, the second where the first finds nothing.
HasData-or_else :
    (d : ℕ) (xs ys zs : List ℕ) (root : Tree) (p q : Option Place)
    → HasData d xs root p
    → HasData d ys root q
    → (All (λ x. x ≢ d) xs → All (λ x. x ≢ d) ys → All (λ x. x ≢ d) zs)
    → HasData d zs root (or_else p q)
unfolding or_else
HasData-or_else d xs ys zs root none q h g f = HasData-widen d ys zs root q g (f h)
HasData-or_else d xs ys zs root (some (nil, fs)) q h g f = h
HasData-or_else d xs ys zs root (some (node k l x r, fs)) q h g f = h

module _ (get_key : ℕ → ℕ) (d : ℕ) (small : get_key d < 2 ^ 31) where
  -- A different key is a different data pointer.
  others_above :
      (lo hi : ℕ) (xs : List ℕ) → get_key d < lo → Chain get_key lo hi xs → All (λ x. x ≢ d) xs
  others_above lo hi xs h c = Chain-above get_key _ lo hi xs c λ y b e. omega (arith, ap get_key e)

  others_below :
      (lo hi : ℕ) (xs : List ℕ) → hi < get_key d → Chain get_key lo hi xs → All (λ x. x ≢ d) xs
  others_below lo hi xs h c = Chain-below get_key _ lo hi xs c λ y b e. omega (arith, ap get_key e)

  module _ (k : ℕ) (l : Tree) (x : ℕ) (r : Tree) (fs : List Frame) where
    dupe-here : x ≡ d → andtree_find_dupe_data get_key d (node k l x r) fs ≡ some (node k l x r, fs)
    unfolding andtree_find_dupe_data
    dupe-here e = ground arith

    dupe-both :
        x ≢ d
        → get_key d ≡ get_key x
        → andtree_find_dupe_data get_key d (node k l x r) fs
          ≡ or_else (andtree_find_dupe_data get_key d l (from_left k x r ∷ fs)) (
              or_else
                (andtree_find_dupe_data get_key d r (from_right k l x ∷ fs))
                (andtree_find_dupe_data get_key d l (from_left k x r ∷ fs)))
    unfolding andtree_find_dupe_data
    dupe-both ne e =
        ground
          (arith, zero-compare (get_key d) (get_key x), direction-compare (get_key d) (get_key x))

    dupe-left :
        get_key d < get_key x
        → get_key x < 2 ^ 31
        → andtree_find_dupe_data get_key d (node k l x r) fs
          ≡ andtree_find_dupe_data get_key d l (from_left k x r ∷ fs)
    unfolding andtree_find_dupe_data
    dupe-left h top =
        let ne : x ≢ d = λ e. omega (arith, ap get_key e) in
        ground (
          arith,
          ne,
          zero-compare (get_key d) (get_key x),
          direction-compare (get_key d) (get_key x),
        )

    dupe-right :
        get_key x < get_key d
        → andtree_find_dupe_data get_key d (node k l x r) fs
          ≡ andtree_find_dupe_data get_key d r (from_right k l x ∷ fs)
    unfolding andtree_find_dupe_data
    dupe-right h =
        let ne : x ≢ d = λ e. omega (arith, ap get_key e) in
        ground (
          arith,
          ne,
          zero-compare (get_key d) (get_key x),
          direction-compare (get_key d) (get_key x),
        )

  find_dupe-HasData :
      (lo hi : ℕ) (t : Tree) (fs : List Frame)
      → hi < 2 ^ 31
      → Chain get_key lo hi (items t)
      → HasData d (items t) (plug t fs) (andtree_find_dupe_data get_key d t fs)
  unfolding items plug andtree_find_dupe_data
  find_dupe-HasData lo hi nil fs hh c = tt
  find_dupe-HasData lo hi (node k l x r) fs hh c =
      let cl = Chain-left get_key lo hi (items l) x (items r) c in
      let cr = Chain-right get_key lo hi (items l) x (items r) c in
      let top = Chain-le get_key (get_key x) hi (items r) cr in
      let ls = find_dupe-HasData lo (get_key x) l (from_left k x r ∷ fs) (omega arith) cl in
      let rs = find_dupe-HasData (get_key x) hi r (from_right k l x ∷ fs) hh cr in
      let join = All-append (λ y. y ≢ d) (items l) (x ∷ items r) in
      elim (ℕ_discrete x d) [
        | yes e ↦ rw (dupe-here k l x r fs e) (e, refl)
        | no ne ↦ elim (dec_lt (get_key d) (get_key x)) [
          | yes p ↦ rw (dupe-left k l x r fs p (omega arith)) (
              HasData-widen d (items l) _ _ _ ls
                λ out. join out (ne, others_above (get_key x) hi (items r) p cr))
          | no np ↦ elim (dec_lt (get_key x) (get_key d)) [
            | yes p ↦ rw (dupe-right k l x r fs p) (
                HasData-widen d (items r) _ _ _ rs
                  λ out. join (others_below lo (get_key x) (items l) p cl) (ne, out))
            | no nq ↦ rw (dupe-both k l x r fs ne (omega arith)) (
                HasData-or_else d (items l) (items r) _ _ _ _ ls
                  (HasData-or_else d (items r) (items l) (items r) _ _ _ rs ls (λ a b. a))
                  λ a b. join a (ne, b))
          ]
        ]
      ]

  module _ (k : ℕ) (l : Tree) (x : ℕ) (r : Tree) (fs : List Frame) where
    data-here :
        get_key d ≡ get_key x
        → find_data_from get_key d (node k l x r) fs
          ≡ andtree_find_dupe_data get_key d (node k l x r) fs
    unfolding find_data_from
    data-here e = ground (arith, zero-compare (get_key d) (get_key x))

    data-left :
        get_key d < get_key x
        → get_key x < 2 ^ 31
        → find_data_from get_key d (node k l x r) fs
          ≡ find_data_from get_key d l (from_left k x r ∷ fs)
    unfolding find_data_from
    data-left h top =
        ground
          (arith, zero-compare (get_key d) (get_key x), direction-compare (get_key d) (get_key x))

    data-right :
        get_key x < get_key d
        → find_data_from get_key d (node k l x r) fs
          ≡ find_data_from get_key d r (from_right k l x ∷ fs)
    unfolding find_data_from
    data-right h =
        ground
          (arith, zero-compare (get_key d) (get_key x), direction-compare (get_key d) (get_key x))

  find_data_from-HasData :
      (lo hi : ℕ) (t : Tree) (fs : List Frame)
      → hi < 2 ^ 31
      → Chain get_key lo hi (items t)
      → HasData d (items t) (plug t fs) (find_data_from get_key d t fs)
  unfolding items plug find_data_from
  find_data_from-HasData lo hi nil fs hh c = tt
  find_data_from-HasData lo hi (node k l x r) fs hh c =
      let cl = Chain-left get_key lo hi (items l) x (items r) c in
      let cr = Chain-right get_key lo hi (items l) x (items r) c in
      let top = Chain-le get_key (get_key x) hi (items r) cr in
      let join = All-append (λ y. y ≢ d) (items l) (x ∷ items r) in
      elim (dec_lt (get_key d) (get_key x)) [
        | yes p ↦ rw (data-left k l x r fs p (omega arith)) (
            HasData-widen d (items l) _ _ _
              (find_data_from-HasData lo (get_key x) l (from_left k x r ∷ fs) (omega arith) cl)
              λ out.
                join out
                  ((λ e. omega (arith, ap get_key e)), others_above (get_key x) hi (items r) p cr))
        | no np ↦ elim (dec_lt (get_key x) (get_key d)) [
          | yes p ↦ rw (data-right k l x r fs p) (
              HasData-widen d (items r) _ _ _
                (find_data_from-HasData (get_key x) hi r (from_right k l x ∷ fs) hh cr)
                λ out.
                  join (others_below lo (get_key x) (items l) p cl)
                    ((λ e. omega (arith, ap get_key e)), out))
          | no nq ↦
              rw (data-here k l x r fs (omega arith))
                (find_dupe-HasData lo hi (node k l x r) fs hh c)
        ]
      ]

  -- On a tree in order, with keys that are not negative, `andtree_find_data` returns null exactly
  -- where the tree does not hold the data, and otherwise a node of the tree that has it, also
  -- where several items share a key.
  pub andtree_find_data-HasData :
      (root : Tree)
      → IsOrdered get_key root
      → HasData d (items root) root (andtree_find_data get_key d root)
  unfolding andtree_find_data plug
  andtree_find_data-HasData root c = find_data_from-HasData 0 (2 ^ 31 - 1) root [] (omega arith) c
