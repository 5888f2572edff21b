-- ===== src/AndTree/Remove/Correct.antt =====
-- Removal takes out just the place's item and keeps the others in order.
use c4_os.Prelude.{
  ℕ, ◌-◌, ◌≡◌, ◌≢◌, refl, ap, sym, ◌∙◌, inl, inr, Option, none, some, List, [], ◌∷◌, ◌++◌,
  append_assoc, append-nil, arith, ltb, ◌||◌, Bool-cases,
}
use c4_os.AndTree.Nodes.{
  Tree, nil, node, level, Frame, from_left, from_right, Place, plug, find_min_node, find_max_node,
}
use c4_os.AndTree.Lists.{items, earlier, later, before, after}
use c4_os.AndTree.Walk.{IsFirst, IsLast, middle-ne-nil, find_min_node-IsFirst, find_max_node-IsLast}
use c4_os.AndTree.Balance.{items-skew, items-split}
use c4_os.AndTree.Remove.{
  lower_to, split_left, rebalance, remove_repair, only_leaf, move_first, move_last,
  andtree_remove_repair,
}

items-lower_to : (k : ℕ) (t : Tree) → items (lower_to k t) ≡ items t
unfolding lower_to items
items-lower_to k nil = refl
items-lower_to k (node j l x r) = ground arith

items-split_left : (t : Tree) → items (split_left t) ≡ items t
unfolding split_left items
items-split_left nil = refl
items-split_left (node k l x r) = ap (λ zs. zs ++ x ∷ items r) (items-split l)

items-rebalance : (t : Tree) → items (rebalance t) ≡ items t
unfolding rebalance items
items-rebalance nil = refl
items-rebalance (node k l x r) =
    elim (Bool-cases (ltb (level l) (k - 1) || ltb (level r) (k - 1))) [
      | inl e ↦ rw e (
          items-skew _
          ∙ items-split_left _
          ∙ items-split _
          ∙ items-skew _
          ∙ ap (λ zs. items l ++ x ∷ zs) (items-lower_to (k - 1) r))
      | inr e ↦ rw e
    ]

items-remove_repair :
    (t : Tree) (fs : List Frame) → items (remove_repair t fs) ≡ earlier fs ++ items t ++ later fs
unfolding remove_repair items earlier later
items-remove_repair t [] = simp append-nil
items-remove_repair t (from_left k x r ∷ fs) =
    simp (items-remove_repair (rebalance (node k t x r)) fs, items-rebalance, append_assoc)
items-remove_repair t (from_right k l x ∷ fs) =
    simp (items-remove_repair (rebalance (node k l x t)) fs, items-rebalance, append_assoc)

earlier-append : (gs hs : List Frame) → earlier (gs ++ hs) ≡ earlier hs ++ earlier gs
unfolding earlier
earlier-append [] hs = sym (append-nil (earlier hs))
earlier-append (from_left k x r ∷ gs) hs = earlier-append gs hs
earlier-append (from_right k l x ∷ gs) hs = simp (earlier-append gs hs, append_assoc)

later-append : (gs hs : List Frame) → later (gs ++ hs) ≡ later gs ++ later hs
unfolding later
later-append [] hs = refl
later-append (from_left k x r ∷ gs) hs = simp (later-append gs hs, append_assoc)
later-append (from_right k l x ∷ gs) hs = later-append gs hs

both_nil : (xs ys : List ℕ) → xs ++ ys ≡ [] → (xs ≡ []) × (ys ≡ [])
both_nil [] ys h = (refl, h)
both_nil (x ∷ xs) ys h = cc

-- A node with nothing after it in its subtree leaves its left leaf, one with nothing before it its
-- right leaf.
items-only_leaf_last :
    (k : ℕ) (l : Tree) (x : ℕ) (r : Tree)
    → items r ≡ []
    → items (only_leaf (node k l x r)) ≡ items l
unfolding only_leaf items
items-only_leaf_last k nil x r h = h
items-only_leaf_last k (node j ll y lr) x r h = refl

items-only_leaf_first :
    (k : ℕ) (l : Tree) (x : ℕ) (r : Tree)
    → items l ≡ []
    → items (only_leaf (node k l x r)) ≡ items r
unfolding only_leaf items
items-only_leaf_first k nil x r h = refl
items-only_leaf_first k (node j ll y lr) x r h =
    absurd (middle-ne-nil (items ll) y (items lr) [] (simp append-nil h))

-- The item that moves up from the left leaf, and the one from the right leaf.
items-moved_last :
    (k : ℕ) (l r : Tree) (fs gs : List Frame) (j : ℕ) (m : Tree) (z : ℕ) (n : Tree)
    → IsLast (items l) [] l (some (node j m z n, gs))
    → items (remove_repair (only_leaf (node j m z n)) (gs ++ from_left k z r ∷ fs))
      ≡ earlier fs ++ items l ++ items r ++ later fs
unfolding before after earlier later
items-moved_last k l r fs gs j m z n h =
    let (no_items, no_frames) = both_nil (items n) (later gs) h.0 in
    simp (
      items-remove_repair,
      earlier-append,
      later-append,
      items-only_leaf_last j m z n no_items,
      no_frames,
      h.1,
      append_assoc,
    )

items-moved_first :
    (k : ℕ) (l r : Tree) (fs gs : List Frame) (j : ℕ) (m : Tree) (z : ℕ) (n : Tree)
    → IsFirst [] (items r) r (some (node j m z n, gs))
    → items (remove_repair (only_leaf (node j m z n)) (gs ++ from_right k l z ∷ fs))
      ≡ earlier fs ++ items l ++ items r ++ later fs
unfolding before after earlier later
items-moved_first k l r fs gs j m z n h =
    let (no_frames, no_items) = both_nil (earlier gs) (items m) h.0 in
    simp (
      items-remove_repair,
      earlier-append,
      later-append,
      items-only_leaf_first j m z n no_items,
      no_frames,
      h.1,
      append_assoc,
      append-nil,
    )

items-move_first :
    (k : ℕ) (l r : Tree) (fs : List Frame) (p : Option Place)
    → items r ≢ []
    → IsFirst [] (items r) r p
    → items (move_first k l fs p) ≡ earlier fs ++ items l ++ items r ++ later fs
unfolding move_first
items-move_first k l r fs none ne h = absurd (ne h)
items-move_first k l r fs (some (nil, gs)) ne h = absurd h
items-move_first k l r fs (some (node j m z n, gs)) ne h = items-moved_first k l r fs gs j m z n h

items-move_last :
    (k : ℕ) (l r : Tree) (fs : List Frame) (other : Tree) (p : Option Place)
    → items l ≢ []
    → IsLast (items l) [] l p
    → items (move_last k r fs other p) ≡ earlier fs ++ items l ++ items r ++ later fs
unfolding move_last
items-move_last k l r fs other none ne h = absurd (ne h)
items-move_last k l r fs other (some (nil, gs)) ne h = absurd h
items-move_last k l r fs other (some (node j m z n, gs)) ne h =
    items-moved_last k l r fs gs j m z n h

items-ne-nil : (j : ℕ) (l : Tree) (y : ℕ) (r : Tree) → items (node j l y r) ≢ []
unfolding items
items-ne-nil j l y r h = middle-ne-nil (items l) y (items r) [] (simp append-nil h)

found-IsFirst :
    (j : ℕ) (l : Tree) (y : ℕ) (r : Tree)
    → IsFirst [] (items (node j l y r)) (node j l y r) (find_min_node (node j l y r) [])
unfolding earlier later plug
found-IsFirst j l y r = rw append-nil at (find_min_node-IsFirst j l y r [])

found-IsLast :
    (j : ℕ) (l : Tree) (y : ℕ) (r : Tree)
    → IsLast (items (node j l y r)) [] (node j l y r) (find_max_node (node j l y r) [])
unfolding earlier later plug
found-IsLast j l y r = find_max_node-IsLast j l y r []

-- The repaired tree of a removal holds the items before and after the place, in order.
pub items-andtree_remove_repair :
    (k : ℕ) (l : Tree) (x : ℕ) (r : Tree) (fs : List Frame)
    → items (andtree_remove_repair (node k l x r, fs))
      ≡ before (node k l x r, fs) ++ after (node k l x r, fs)
unfolding andtree_remove_repair before after items earlier later
items-andtree_remove_repair k nil x nil fs = simp (items-remove_repair, append-nil)
items-andtree_remove_repair k nil x (node j rl y rr) fs =
    items-move_first k nil (node j rl y rr) fs _ (items-ne-nil j rl y rr) (found-IsFirst j rl y rr)
    ∙ simp append_assoc
items-andtree_remove_repair k (node j ll y lr) x r fs =
    items-move_last k (node j ll y lr) r fs _ _ (items-ne-nil j ll y lr) (found-IsLast j ll y lr)
    ∙ simp append_assoc
