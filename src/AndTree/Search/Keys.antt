-- ===== src/AndTree/Search/Keys.antt =====
-- Search by key: `andtree_find_key`.
use native.Mathlib.Decide.{dec_lt}
use c4_os.Prelude.{
  ℕ, ◌-◌, ◌^◌, ◌<◌, ◌≡◌, ◌≢◌, refl, Option, none, some, List, [], ◌∷◌, arith, All, All-append,
}
use c4_os.AndTree.Nodes.{Tree, nil, node, Frame, from_left, from_right, Place, plug}
use c4_os.AndTree.Lists.{items}
use c4_os.AndTree.Order.{
  zero-compare, direction-compare, Chain, IsOrdered, Chain-le, Chain-left, Chain-right, Chain-above,
  Chain-below,
}
use c4_os.AndTree.Search.{find_key_from, andtree_find_key}

module _ (get_key : ℕ → ℕ) where
  -- Null, where no item has the key; otherwise a node of the tree whose item has it.
  abbrev pub HasKey : ℕ → List ℕ → Tree → Option Place → Type 0
  HasKey key xs root none = All (λ x. get_key x ≢ key) xs
  HasKey key xs root (some (nil, fs)) = ⊥
  HasKey key xs root (some (node k l x r, fs)) = (get_key x ≡ key) × (plug (node k l x r) fs ≡ root)

  HasKey-widen :
      (key : ℕ) (xs ys : List ℕ) (root : Tree) (p : Option Place)
      → HasKey key xs root p
      → (All (λ x. get_key x ≢ key) xs → All (λ x. get_key x ≢ key) ys)
      → HasKey key ys root p
  HasKey-widen key xs ys root none h f = f h
  HasKey-widen key xs ys root (some (nil, fs)) h f = h
  HasKey-widen key xs ys root (some (node k l x r, fs)) h f = h

  module _ (key k : ℕ) (l : Tree) (x : ℕ) (r : Tree) (fs : List Frame) where
    find_key-left :
        key < get_key x
        → get_key x < 2 ^ 31
        → find_key_from get_key key (node k l x r) fs
          ≡ find_key_from get_key key l (from_left k x r ∷ fs)
    unfolding find_key_from
    find_key-left h small =
        ground (arith, zero-compare key (get_key x), direction-compare key (get_key x))

    find_key-right :
        get_key x < key
        → key < 2 ^ 31
        → find_key_from get_key key (node k l x r) fs
          ≡ find_key_from get_key key r (from_right k l x ∷ fs)
    unfolding find_key_from
    find_key-right h small =
        ground (arith, zero-compare key (get_key x), direction-compare key (get_key x))

    find_key-here :
        get_key x ≡ key
        → key < 2 ^ 31
        → find_key_from get_key key (node k l x r) fs ≡ some (node k l x r, fs)
    unfolding find_key_from
    find_key-here h small = ground (arith, zero-compare key (get_key x))

  find_key_from-HasKey :
      (key lo hi : ℕ) (t : Tree) (fs : List Frame)
      → key < 2 ^ 31
      → hi < 2 ^ 31
      → Chain get_key lo hi (items t)
      → HasKey key (items t) (plug t fs) (find_key_from get_key key t fs)
  unfolding items plug find_key_from
  find_key_from-HasKey key lo hi nil fs hk hh c = tt
  find_key_from-HasKey key lo hi (node k l x r) fs hk hh c =
      let cl = Chain-left get_key lo hi (items l) x (items r) c in
      let cr = Chain-right get_key lo hi (items l) x (items r) c in
      let top = Chain-le get_key (get_key x) hi (items r) cr in
      elim (dec_lt key (get_key x)) [
        | yes p ↦ rw (find_key-left key k l x r fs p (omega arith)) (
            HasKey-widen key (items l) _ _ _
              (find_key_from-HasKey key lo (get_key x) l (from_left k x r ∷ fs) hk (omega arith) cl)
              λ none_left.
                All-append (λ y. get_key y ≢ key) (items l) (x ∷ items r) none_left
                  (
                    omega arith,
                    Chain-above get_key _ (get_key x) hi (items r) cr λ y b. omega arith,
                  ))
        | no np ↦ elim (dec_lt (get_key x) key) [
          | yes p ↦ rw (find_key-right key k l x r fs p hk) (
              HasKey-widen key (items r) _ _ _
                (find_key_from-HasKey key (get_key x) hi r (from_right k l x ∷ fs) hk hh cr)
                λ none_right.
                  All-append (λ y. get_key y ≢ key) (items l) (x ∷ items r)
                    (Chain-below get_key _ lo (get_key x) (items l) cl λ y b. omega arith)
                    (omega arith, none_right))
          | no nq ↦ rw (find_key-here key k l x r fs (omega arith) hk) (omega arith, refl)
        ]
      ]

  -- On a tree in order, with keys that are not negative, `andtree_find_key` returns null exactly
  -- where no item has the key, and otherwise a node of the tree whose item has it.
  pub andtree_find_key-HasKey :
      (key : ℕ) (root : Tree)
      → key < 2 ^ 31
      → IsOrdered get_key root
      → HasKey key (items root) root (andtree_find_key get_key key root)
  unfolding andtree_find_key plug
  andtree_find_key-HasKey key root small c =
      find_key_from-HasKey key 0 (2 ^ 31 - 1) root [] small (omega arith) c
