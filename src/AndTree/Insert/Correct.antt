-- ===== src/AndTree/Insert/Correct.antt =====
-- Insertion keeps the order and the balance, and adds the item behind those of its key.
use native.Mathlib.Decide.{dec_lt}
use c4_os.Prelude.{
  ℕ, ◌+◌, ◌-◌, ◌^◌, ◌≤◌, ◌<◌, ◌≡◌, refl, ap, ◌∙◌, inl, inr, true, false, List, [], ◌∷◌, ◌++◌, arith,
  ltb, length, if◌then◌else◌, Bool-cases,
}
use c4_os.AndTree.Nodes.{
  Tree, nil, node, level, Frame, from_left, from_right, attach, is_negative, count_nodes,
  andtree_compare,
}
use c4_os.AndTree.Lists.{items, length-items}
use c4_os.AndTree.Order.{negative-compare, Chain, IsOrdered, Chain-le, Chain-left, Chain-right}
use c4_os.AndTree.Balance.{andtree_skew, andtree_split, items-skew, items-split, IsBalanced}
use c4_os.AndTree.Balance.Grown.{fix, IsGrown, fix-left, fix-right}
use c4_os.AndTree.Insert.{AndTree, make_andnode, insert_repair, bin_insert, andtree_insert}

items-fix : (t : Tree) → items (fix t) ≡ items t
items-fix t = items-split (andtree_skew t) ∙ items-skew t

module _ (get_key : ℕ → ℕ) where
  -- Insertion as a recursion on the tree, in place of the loops down and up.
  insert_below : ℕ → Tree → Tree
  insert_below x nil = fix (make_andnode x)
  insert_below x (node k l y r) =
      let in_left = fix (node k (insert_below x l) y r) in
      let in_right = fix (node k l y (insert_below x r)) in
      if is_negative (andtree_compare get_key (get_key x) y) then in_left else in_right

  -- The rest of the way up, once the subtree is repaired.
  repair_above : Tree → List Frame → Tree
  repair_above t [] = t
  repair_above t (f ∷ fs) = insert_repair (attach t f) fs

  insert_repair-above : (t : Tree) (fs : List Frame) → insert_repair t fs ≡ repair_above (fix t) fs
  unfolding insert_repair repair_above
  insert_repair-above t [] = refl
  insert_repair-above t (f ∷ fs) = refl

  insert_repair-bin_insert :
      (x : ℕ) (t : Tree) (fs : List Frame)
      → insert_repair (make_andnode x) (bin_insert get_key x t fs)
        ≡ repair_above (insert_below x t) fs
  unfolding bin_insert insert_below repair_above
  insert_repair-bin_insert x nil fs = insert_repair-above (make_andnode x) fs
  insert_repair-bin_insert x (node k l y r) fs =
      elim (Bool-cases (is_negative (andtree_compare get_key (get_key x) y))) [
        | inl e ↦ rw e (
            insert_repair-bin_insert x l (from_left k y r ∷ fs)
            ∙ insert_repair-above (node k (insert_below x l) y r) fs)
        | inr e ↦ rw e (
            insert_repair-bin_insert x r (from_right k l y ∷ fs)
            ∙ insert_repair-above (node k l y (insert_below x r)) fs)
      ]

  -- Insertion into a list in order, behind the items of the same key.
  pub insert_sorted : ℕ → List ℕ → List ℕ
  insert_sorted x [] = x ∷ []
  insert_sorted x (y ∷ ys) =
      if ltb (get_key x) (get_key y) then x ∷ y ∷ ys else y ∷ insert_sorted x ys

  insert_sorted-before :
      (x : ℕ) (xs : List ℕ) (y : ℕ) (ys : List ℕ)
      → get_key x < get_key y
      → insert_sorted x (xs ++ y ∷ ys) ≡ insert_sorted x xs ++ y ∷ ys
  unfolding insert_sorted
  insert_sorted-before x [] y ys h = ground arith
  insert_sorted-before x (z ∷ xs) y ys h = elim (Bool-cases (ltb (get_key x) (get_key z))) [
    | inl e ↦ rw e
    | inr e ↦ rw e (ap (λ zs. z ∷ zs) (insert_sorted-before x xs y ys h))
  ]

  insert_sorted-behind :
      (lo x : ℕ) (xs : List ℕ) (y : ℕ) (ys : List ℕ)
      → get_key y ≤ get_key x
      → Chain get_key lo (get_key y) xs
      → insert_sorted x (xs ++ y ∷ ys) ≡ xs ++ y ∷ insert_sorted x ys
  unfolding insert_sorted
  insert_sorted-behind lo x [] y ys h c = ground arith
  insert_sorted-behind lo x (z ∷ xs) y ys h c = ground (
    arith,
    Chain-le get_key (get_key z) (get_key y) xs,
    insert_sorted-behind (get_key z) x xs y ys h,
  )

  insert_sorted-Chain :
      (lo hi x : ℕ) (xs : List ℕ)
      → lo ≤ get_key x
      → get_key x ≤ hi
      → Chain get_key lo hi xs
      → Chain get_key lo hi (insert_sorted x xs)
  unfolding insert_sorted
  insert_sorted-Chain lo hi x [] a b c = (a, b)
  insert_sorted-Chain lo hi x (y ∷ ys) a b c = elim (Bool-cases (ltb (get_key x) (get_key y))) [
    | inl e ↦ rw e (a, (ground arith, c.1))
    | inr e ↦ rw e (c.0, insert_sorted-Chain (get_key y) hi x ys (ground arith) b c.1)
  ]

  items-insert_below :
      (lo hi x : ℕ) (t : Tree)
      → get_key x < 2 ^ 31
      → hi < 2 ^ 31
      → Chain get_key lo hi (items t)
      → items (insert_below x t) ≡ insert_sorted x (items t)
  unfolding insert_below items insert_sorted
  items-insert_below lo hi x nil hx hh c = items-fix (make_andnode x)
  items-insert_below lo hi x (node k l y r) hx hh c =
      let cl = Chain-left get_key lo hi (items l) y (items r) c in
      let cr = Chain-right get_key lo hi (items l) y (items r) c in
      let top = Chain-le get_key (get_key y) hi (items r) cr in
      let test = negative-compare (get_key x) (get_key y) hx (omega arith) in
      elim (dec_lt (get_key x) (get_key y)) [
        | yes p ↦
            let e : is_negative (andtree_compare get_key (get_key x) y) ≡ true =
              ground (arith, test) in
            rw (e, insert_sorted-before x (items l) y (items r) p)
              (items-fix (node k (insert_below x l) y r)
                ∙ ap (λ zs. zs ++ y ∷ items r)
                    (items-insert_below lo (get_key y) x l hx (omega arith) cl))
        | no np ↦
            let e : is_negative (andtree_compare get_key (get_key x) y) ≡ false =
              ground (arith, test) in
            rw (e, insert_sorted-behind lo x (items l) y (items r) (omega arith) cl)
              (items-fix (node k l y (insert_below x r))
                ∙ ap (λ zs. items l ++ y ∷ zs) (items-insert_below (get_key y) hi x r hx hh cr))
      ]

  length-insert_sorted : (x : ℕ) (xs : List ℕ) → length (insert_sorted x xs) ≡ length xs + 1
  unfolding insert_sorted
  length-insert_sorted x [] = omega arith
  length-insert_sorted x (y ∷ ys) = ground (arith, length-insert_sorted x ys)

  insert_below-IsGrown : (x : ℕ) (t : Tree) → IsBalanced t → IsGrown t (insert_below x t)
  unfolding insert_below andtree_skew andtree_split
  insert_below-IsGrown x nil b = record {
    balanced = (tt, tt, omega arith, omega arith, omega arith, omega arith);
    grown = inr (omega arith);
  }
  insert_below-IsGrown x (node k l y r) b =
      elim (Bool-cases (is_negative (andtree_compare get_key (get_key x) y))) [
        | inl e ↦ rw e (fix-left k l (insert_below x l) y r b (insert_below-IsGrown x l b.0))
        | inr e ↦ rw e (fix-right k l y r (insert_below x r) b (insert_below-IsGrown x r b.1))
      ]

  andtree_insert-insert_below :
      (x : ℕ) (t : AndTree) → (andtree_insert get_key x t).root ≡ insert_below x t.root
  unfolding andtree_insert repair_above
  andtree_insert-insert_below x t = insert_repair-bin_insert x t.root []

  -- `andtree_insert` into a tree in order puts the item behind those whose key is not greater and
  -- moves no other, so the tree stays in order, if keys are not negative.
  pub items-andtree_insert :
      (x : ℕ) (t : AndTree)
      → get_key x < 2 ^ 31
      → IsOrdered get_key t.root
      → (items (andtree_insert get_key x t).root ≡ insert_sorted x (items t.root))
        × IsOrdered get_key (andtree_insert get_key x t).root
  items-andtree_insert x t hx c =
      let e =
        ap items (andtree_insert-insert_below x t)
        ∙ items-insert_below 0 (2 ^ 31 - 1) x t.root hx (omega arith) c in
      (e, rw e (insert_sorted-Chain 0 (2 ^ 31 - 1) x (items t.root) (omega arith) (omega arith) c))

  -- `andtree_insert` into a tree in order, of an item whose key is not negative, keeps `nodes` the
  -- number of nodes, if it was and stays below 2 ^ 32.
  pub nodes-andtree_insert :
      (x : ℕ) (t : AndTree)
      → get_key x < 2 ^ 31
      → IsOrdered get_key t.root
      → t.nodes ≡ count_nodes t.root
      → t.nodes + 1 < 2 ^ 32
      → (andtree_insert get_key x t).nodes ≡ count_nodes (andtree_insert get_key x t).root
  unfolding andtree_insert
  nodes-andtree_insert x t hx c same few =
      let whole = (items-andtree_insert x t hx c).0 in
      omega (
        arith,
        length-items t.root,
        length-items (andtree_insert get_key x t).root,
        ap length whole,
        length-insert_sorted x (items t.root),
        same,
      )

  -- `andtree_insert` keeps the balance of an AA tree, and the root rises by at most one level,
  -- whatever the keys.
  pub IsBalanced-andtree_insert :
      (x : ℕ) (t : AndTree)
      → IsBalanced t.root
      → IsBalanced (andtree_insert get_key x t).root
        × (level (andtree_insert get_key x t).root ≤ level t.root + 1)
  IsBalanced-andtree_insert x t b =
      let g = insert_below-IsGrown x t.root b in
      rw (andtree_insert-insert_below x t) (g.balanced, ground (arith, g.grown))
