-- ===== src/AndTree/Search/AtLeast.antt =====
-- Search by least key: `andtree_find_at_least`.
use native.Mathlib.Decide.{dec_lt}
use c4_os.Prelude.{
  ℕ, ◌-◌, ◌^◌, ◌≤◌, ◌<◌, ◌≡◌, refl, true, false, Option, none, some, List, [], ◌∷◌, ◌++◌, arith,
  ltb, sub32, All, All-append, All-mono,
}
use c4_os.AndTree.Nodes.{Tree, nil, node, Frame, from_left, from_right, Place, plug}
use c4_os.AndTree.Lists.{items}
use c4_os.AndTree.Order.{
  zero-compare, negative-compare, direction-compare, greater-compare, Chain, IsOrdered, Chain-le,
  Chain-left, Chain-right, Chain-above, Chain-below,
}
use c4_os.AndTree.Search.{closer, do_find_at_least, andtree_find_at_least}

ltb-true : (a b : ℕ) → a < b → ltb a b ≡ true
ltb-true a b h = ground arith

ltb-false : (a b : ℕ) → ¬ (a < b) → ltb a b ≡ false
ltb-false a b h = ground arith

module _ (get_key : ℕ → ℕ) where
  -- Null, where every key is smaller; otherwise a node of the tree with the least key of those that
  -- are not smaller, and none is above `hi`.
  abbrev pub HasLeast : ℕ → ℕ → List ℕ → Tree → Option Place → Type 0
  HasLeast hi key xs root none = All (λ y. get_key y < key) xs
  HasLeast hi key xs root (some (nil, fs)) = ⊥
  HasLeast hi key xs root (some (node k l x r, fs)) =
      (key ≤ get_key x)
      × (get_key x ≤ hi)
      × All (λ y. key ≤ get_key y → get_key x ≤ get_key y) xs
      × (plug (node k l x r) fs ≡ root)

  module _ (key k : ℕ) (l : Tree) (x : ℕ) (r : Tree) (fs : List Frame) where
    at_least-left :
        key < get_key x
        → get_key x < 2 ^ 31
        → do_find_at_least get_key key (node k l x r) fs
          ≡ closer get_key key
              (sub32 key (get_key x))
              (do_find_at_least get_key key l (from_left k x r ∷ fs))
              (node k l x r, fs)
    unfolding do_find_at_least
    at_least-left h small = ground (
      arith,
      zero-compare key (get_key x),
      direction-compare key (get_key x),
      negative-compare key (get_key x),
    )

    at_least-right :
        get_key x < key
        → key < 2 ^ 31
        → do_find_at_least get_key key (node k l x r) fs
          ≡ do_find_at_least get_key key r (from_right k l x ∷ fs)
    unfolding do_find_at_least
    at_least-right h small = ground (
      arith,
      zero-compare key (get_key x),
      direction-compare key (get_key x),
      negative-compare key (get_key x),
    )

    at_least-here :
        get_key x ≡ key
        → key < 2 ^ 31
        → do_find_at_least get_key key (node k l x r) fs ≡ some (node k l x r, fs)
    unfolding do_find_at_least
    at_least-here h small = ground (arith, zero-compare key (get_key x))

  -- What the search in the right leaf finds serves for the node.
  HasLeast-right :
      (key lo hi : ℕ) (xs : List ℕ) (x : ℕ) (ys : List ℕ) (root : Tree) (p : Option Place)
      → get_key x < key
      → Chain get_key lo (get_key x) xs
      → HasLeast hi key ys root p
      → HasLeast hi key (xs ++ x ∷ ys) root p
  HasLeast-right key lo hi xs x ys root none h cl least =
      All-append (λ y. get_key y < key) xs (x ∷ ys)
        (Chain-below get_key _ lo (get_key x) xs cl λ y b. omega arith) (h, least)
  HasLeast-right key lo hi xs x ys root (some (nil, fs)) h cl least = least
  HasLeast-right key lo hi xs x ys root (some (node k l z r, fs)) h cl least = (
    least.0,
    least.1,
    All-append _ xs (x ∷ ys)
        (Chain-below get_key _ lo (get_key x) xs cl λ y b up. absurd (omega arith))
        ((λ up. absurd (omega arith)), least.2),
    least.3,
  )

  -- The choice between what the left leaf has and the node itself.
  closer-HasLeast :
      (key lo hi k : ℕ) (l : Tree) (x : ℕ) (r : Tree) (fs : List Frame) (temp : Option Place)
      → key < get_key x
      → get_key x ≤ hi
      → hi < 2 ^ 31
      → Chain get_key (get_key x) hi (items r)
      → HasLeast (get_key x) key (items l) (plug (node k l x r) fs) temp
      → HasLeast hi key
          (items l ++ x ∷ items r)
          (plug (node k l x r) fs)
          (closer get_key key (sub32 key (get_key x)) temp (node k l x r, fs))
  unfolding closer
  closer-HasLeast key lo hi k l x r fs none h top small cr least = (
    omega arith,
    top,
    All-append _ (items l) (x ∷ items r)
        (All-mono _ _ (items l) (λ y b up. absurd (omega arith)) least)
        ((λ up. omega arith), Chain-above get_key _ (get_key x) hi (items r) cr λ y b up. b),
    refl,
  )
  closer-HasLeast key lo hi k l x r fs (some (nil, gs)) h top small cr least = absurd least
  closer-HasLeast key lo hi k l x r fs (some (node j m z n, gs)) h top small cr least =
      elim (dec_lt (get_key z) (get_key x)) [
        | yes p ↦
            rw
              (
                greater-compare key (get_key z) (get_key x) (omega arith) (omega arith)
                    (omega arith),
                ltb-true _ _ p,
              )
              (
                least.0,
                omega arith,
                All-append _ (items l) (x ∷ items r) least.2 (
                  (λ up. omega arith),
                  Chain-above get_key _ (get_key x) hi (items r) cr λ y b up. omega arith,
                ),
                least.3,
              )
        | no np ↦
            rw
              (
                greater-compare key (get_key z) (get_key x) (omega arith) (omega arith)
                    (omega arith),
                ltb-false _ _ np,
              )
              (
                omega arith,
                top,
                All-append _ (items l) (x ∷ items r)
                    (All-mono _ _ (items l) (λ y b up. omega (arith, b up)) least.2)
                    (
                      (λ up. omega arith),
                      Chain-above get_key _ (get_key x) hi (items r) cr λ y b up. b,
                    ),
                refl,
              )
      ]

  do_find_at_least-HasLeast :
      (key lo hi : ℕ) (t : Tree) (fs : List Frame)
      → key < 2 ^ 31
      → hi < 2 ^ 31
      → Chain get_key lo hi (items t)
      → HasLeast hi key (items t) (plug t fs) (do_find_at_least get_key key t fs)
  unfolding items plug do_find_at_least
  do_find_at_least-HasLeast key lo hi nil fs hk hh c = tt
  do_find_at_least-HasLeast key lo hi (node k l x r) fs hk hh c =
      let cl = Chain-left get_key lo hi (items l) x (items r) c in
      let cr = Chain-right get_key lo hi (items l) x (items r) c in
      let top = Chain-le get_key (get_key x) hi (items r) cr in
      elim (dec_lt key (get_key x)) [
        | yes p ↦ rw (at_least-left key k l x r fs p (omega arith)) (
            closer-HasLeast key lo hi k l x r fs _ p top hh cr (
              do_find_at_least-HasLeast key lo (get_key x) l (from_left k x r ∷ fs) hk (omega arith)
                cl))
        | no np ↦ elim (dec_lt (get_key x) key) [
          | yes p ↦ rw (at_least-right key k l x r fs p hk) (
              HasLeast-right key lo hi (items l) x (items r) _ _ p cl
                (do_find_at_least-HasLeast key (get_key x) hi r (from_right k l x ∷ fs) hk hh cr))
          | no nq ↦ rw (at_least-here key k l x r fs (omega arith) hk) (
            omega arith,
            top,
            All-append _ (items l) (x ∷ items r)
                (Chain-below get_key _ lo (get_key x) (items l) cl λ y b up. omega arith)
                (
                  (λ up. omega arith),
                  Chain-above get_key _ (get_key x) hi (items r) cr λ y b up. b,
                ),
            refl,
          )
        ]
      ]

  -- On a tree in order, with keys that are not negative, `andtree_find_at_least` returns null
  -- exactly where every key is smaller, and otherwise a node of the tree with the least key of
  -- those that are not smaller.
  pub andtree_find_at_least-HasLeast :
      (key : ℕ) (root : Tree)
      → key < 2 ^ 31
      → IsOrdered get_key root
      → HasLeast (2 ^ 31 - 1) key (items root) root (andtree_find_at_least get_key key root)
  unfolding andtree_find_at_least plug
  andtree_find_at_least-HasLeast key root small c =
      do_find_at_least-HasLeast key 0 (2 ^ 31 - 1) root [] small (omega arith) c
