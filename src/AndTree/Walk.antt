-- ===== src/AndTree/Walk.antt =====
-- `andtree_start`, `andtree_end`, `andtree_next` and `andtree_previous` against the items in order.
use c4_os.Prelude.{
  ℕ, zero, suc, ◌≤◌, ◌≡◌, ◌≢◌, refl, sym, ap, ◌∙◌, Option, none, some, List, [], ◌∷◌, ◌++◌,
  append_assoc, append-nil, arith, length, length-append,
}
use mathlib.Core.Path.{subst}
use c4_os.AndTree.Nodes.{
  Tree, nil, node, item, Frame, from_left, from_right, Place, plug, find_min_node, find_max_node,
  climb_next, climb_previous, or_else, andtree_next, andtree_previous, andtree_start, count_nodes,
}
use c4_os.AndTree.Lists.{items, earlier, later, before, after, length-items}

-- What is found is the place of the first item that follows `front`, of which there are `rest`.
abbrev pub IsFirst : List ℕ → List ℕ → Tree → Option Place → Type 0
IsFirst front rest root none = rest ≡ []
IsFirst front rest root (some (nil, fs)) = ⊥
IsFirst front rest root (some (node k l x r, fs)) =
    (before (node k l x r, fs) ≡ front)
    × (rest ≡ x ∷ after (node k l x r, fs))
    × (plug (node k l x r) fs ≡ root)

-- The same from the other end.
abbrev pub IsLast : List ℕ → List ℕ → Tree → Option Place → Type 0
IsLast rest back root none = rest ≡ []
IsLast rest back root (some (nil, fs)) = ⊥
IsLast rest back root (some (node k l x r, fs)) =
    (after (node k l x r, fs) ≡ back)
    × (rest ≡ before (node k l x r, fs) ++ x ∷ [])
    × (plug (node k l x r) fs ≡ root)

pub find_min_node-IsFirst :
    (k : ℕ) (l : Tree) (x : ℕ) (r : Tree) (fs : List Frame)
    → IsFirst
        (earlier fs)
        (items (node k l x r) ++ later fs)
        (plug (node k l x r) fs)
        (find_min_node (node k l x r) fs)
unfolding find_min_node items earlier later before after plug
find_min_node-IsFirst k nil x r fs = (append-nil (earlier fs), refl, refl)
find_min_node-IsFirst k (node j ll y lr) x r fs =
    rw (append_assoc (items ll ++ y ∷ items lr) (x ∷ items r) (later fs))
      (find_min_node-IsFirst j ll y lr (from_left k x r ∷ fs))

climb_next-IsFirst :
    (k : ℕ) (l : Tree) (x : ℕ) (r : Tree) (fs : List Frame)
    → IsFirst
        (earlier fs ++ items (node k l x r))
        (later fs)
        (plug (node k l x r) fs)
        (climb_next (node k l x r) fs)
unfolding climb_next items earlier later before after plug
climb_next-IsFirst k l x r [] = refl
climb_next-IsFirst k l x r (from_left j y s ∷ fs) = (refl, refl, refl)
climb_next-IsFirst k l x r (from_right j s y ∷ fs) =
    let up = climb_next-IsFirst j s y (node k l x r) fs in
    subst
      (λ f.
        IsFirst f (later fs) (plug (node j s y (node k l x r)) fs)
          (climb_next (node j s y (node k l x r)) fs))
      (simp append_assoc) up

pub middle-ne-nil : (xs : List ℕ) (x : ℕ) (ys zs : List ℕ) → xs ++ x ∷ ys ++ zs ≢ []
middle-ne-nil [] x ys zs h = cc
middle-ne-nil (w ∷ xs) x ys zs h = cc

or_else-IsFirst :
    (front rest : List ℕ) (root : Tree) (p q : Option Place)
    → rest ≢ []
    → IsFirst front rest root p
    → IsFirst front rest root (or_else p q)
unfolding or_else
or_else-IsFirst _ _ _ none q some_left h = absurd (some_left h)
or_else-IsFirst _ _ _ (some p) q some_left h = h

or_else-IsLast :
    (rest back : List ℕ) (root : Tree) (p q : Option Place)
    → rest ≢ []
    → IsLast rest back root p
    → IsLast rest back root (or_else p q)
unfolding or_else
or_else-IsLast _ _ _ none q some_left h = absurd (some_left h)
or_else-IsLast _ _ _ (some p) q some_left h = h

-- `andtree_next` of a node's place is null exactly if no item comes after it; otherwise it is the
-- place, in the same tree, of the item that comes next in order.
pub andtree_next-IsFirst :
    (k : ℕ) (l : Tree) (x : ℕ) (r : Tree) (fs : List Frame)
    → IsFirst
        (before (node k l x r, fs) ++ x ∷ [])
        (after (node k l x r, fs))
        (plug (node k l x r) fs)
        (andtree_next (node k l x r, fs))
unfolding andtree_next before after items or_else plug
andtree_next-IsFirst k l x nil fs =
    subst (λ f. IsFirst f (later fs) (plug (node k l x nil) fs) (climb_next (node k l x nil) fs))
      (simp append_assoc) (climb_next-IsFirst k l x nil fs)
andtree_next-IsFirst k l x (node j rl y rr) fs =
    or_else-IsFirst _ _ _ (find_min_node (node j rl y rr) (from_right k l x ∷ fs))
      (climb_next (node k l x (node j rl y rr)) fs)
      (middle-ne-nil (items rl) y (items rr) (later fs))
      (find_min_node-IsFirst j rl y rr (from_right k l x ∷ fs))

pub find_max_node-IsLast :
    (k : ℕ) (l : Tree) (x : ℕ) (r : Tree) (fs : List Frame)
    → IsLast
        (earlier fs ++ items (node k l x r))
        (later fs)
        (plug (node k l x r) fs)
        (find_max_node (node k l x r) fs)
unfolding find_max_node items earlier later before after plug
find_max_node-IsLast k l x nil fs = (refl, simp append_assoc, refl)
find_max_node-IsLast k l x (node j rl y rr) fs =
    subst
      (λ f.
        IsLast f (later fs) (plug (node k l x (node j rl y rr)) fs)
          (find_max_node (node j rl y rr) (from_right k l x ∷ fs)))
      (simp append_assoc) (find_max_node-IsLast j rl y rr (from_right k l x ∷ fs))

climb_previous-IsLast :
    (k : ℕ) (l : Tree) (x : ℕ) (r : Tree) (fs : List Frame)
    → IsLast
        (earlier fs)
        (items (node k l x r) ++ later fs)
        (plug (node k l x r) fs)
        (climb_previous (node k l x r) fs)
unfolding climb_previous items earlier later before after plug
climb_previous-IsLast k l x r [] = refl
climb_previous-IsLast k l x r (from_right j s y ∷ fs) = (refl, simp append_assoc, refl)
climb_previous-IsLast k l x r (from_left j y s ∷ fs) =
    subst
      (λ b.
        IsLast (earlier fs) b (plug (node j (node k l x r) y s) fs)
          (climb_previous (node j (node k l x r) y s) fs))
      (simp append_assoc) (climb_previous-IsLast j (node k l x r) y s fs)

-- `andtree_previous` of a node's place is null exactly if no item comes before it; otherwise it is
-- the place, in the same tree, of the item that comes last before it.
pub andtree_previous-IsLast :
    (k : ℕ) (l : Tree) (x : ℕ) (r : Tree) (fs : List Frame)
    → IsLast
        (before (node k l x r, fs))
        (x ∷ after (node k l x r, fs))
        (plug (node k l x r) fs)
        (andtree_previous (node k l x r, fs))
unfolding andtree_previous before after items or_else plug
andtree_previous-IsLast k nil x r fs =
    rw (append-nil (earlier fs)) (climb_previous-IsLast k nil x r fs)
andtree_previous-IsLast k (node j ll y lr) x r fs =
    or_else-IsLast _ _ _ (find_max_node (node j ll y lr) (from_left k x r ∷ fs))
      (climb_previous (node k (node j ll y lr) x r) fs)
      (λ e.
        middle-ne-nil (earlier fs ++ items ll) y (items lr) [] (simp (append_assoc, append-nil) e))
      (find_max_node-IsLast j ll y lr (from_left k x r ∷ fs))

-- What a client that walks from `andtree_start` by `andtree_next` meets in `n` rounds.
unfoldable pub visit : ℕ → Option Place → List ℕ
visit zero p = []
visit (suc n) none = []
visit (suc n) (some (t, fs)) = item t ∷ visit n (andtree_next (t, fs))

visit-none : (n : ℕ) → visit n none ≡ []
unfolding visit
visit-none zero = refl
visit-none (suc n) = refl

visit-IsFirst :
    (n : ℕ) (front rest : List ℕ) (root : Tree) (p : Option Place)
    → IsFirst front rest root p
    → length rest ≤ n
    → visit n p ≡ rest
unfolding visit
visit-IsFirst n front rest root none e h = visit-none n ∙ sym e
visit-IsFirst n front rest root (some (nil, fs)) e h = absurd e
visit-IsFirst zero front rest root (some (node k l x r, fs)) e h =
    absurd (omega (arith, ap length e.1))
visit-IsFirst (suc n) front rest root (some (node k l x r, fs)) e h =
    let step = andtree_next-IsFirst k l x r fs in
    let fits = ap length e.1 in
    ap (λ ys. x ∷ ys) (visit-IsFirst n _ _ _ (andtree_next (node k l x r, fs)) step (omega arith))
    ∙ sym e.1

-- A walk by `andtree_next` from `andtree_start` meets every item once, in order, and ends.
pub visit-items :
    (root : Tree) (n : ℕ) → count_nodes root ≤ n → visit n (andtree_start root) ≡ items root
unfolding andtree_start items later
visit-items nil n enough = visit-none n
visit-items (node k l x r) n enough =
    visit-IsFirst n _ _ _ (find_min_node (node k l x r) []) (find_min_node-IsFirst k l x r [])
      (omega (arith, length-append (items (node k l x r)) [], length-items (node k l x r)))
    ∙ append-nil (items (node k l x r))
