-- ===== src/AndTree/Balance.antt =====
-- `andtree_skew` and `andtree_split`, and the balance that they restore. A rotation (`rotate`, with
-- `replace_in_parent`) is written out as the subtree that it leaves: the place above it stays.
-- Every node's level is at least 1: `make_andnode` gives 1, and a level is lowered only to that
-- of a node that is left above one of its leaves.
pub mod Grown
use c4_os.Prelude.{
  ℕ, suc, ◌+◌, ◌≤◌, ◌<◌, ◌≡◌, ◌≢◌, refl, ◌⊎◌, Bool-cases, inl, inr, append_assoc, arith, ◌==◌,
  ==_iff, if◌then◌else◌,
}
use c4_os.AndTree.Nodes.{Tree, nil, node, level, left, right}
use c4_os.AndTree.Lists.{items}

-- Where the left leaf has the node's level it is turned up, and the call on the right leaf of what
-- came up goes on.
unfoldable pub andtree_skew : Tree → Tree
andtree_skew nil = nil
andtree_skew (node k nil x r) = node k nil x r
andtree_skew (node k (node j ll y lr) x r) =
    let turned = node j ll y (andtree_skew (node k lr x r)) in
    if j == k then turned else node k (node j ll y lr) x r

-- Where the right leaf's right leaf has the node's level the right leaf is turned up and raised.
-- The sentinel's leaves are the sentinel, of level 0.
unfoldable pub andtree_split : Tree → Tree
andtree_split nil = nil
andtree_split (node k l x nil) = node k l x nil
andtree_split (node k l x (node j rl y rr)) =
    let raised = node (j + 1) (node k l x rl) y (andtree_split rr) in
    if k == level rr then raised else node k l x (node j rl y rr)

pub items-skew : (t : Tree) → items (andtree_skew t) ≡ items t
unfolding andtree_skew items
items-skew nil = refl
items-skew (node k nil x r) = refl
items-skew (node k (node j ll y lr) x r) = elim (Bool-cases (j == k)) [
  | inl e ↦ rw e (simp (items-skew (node k lr x r), append_assoc))
  | inr e ↦ rw e
]

pub items-split : (t : Tree) → items (andtree_split t) ≡ items t
unfolding andtree_split items
items-split nil = refl
items-split (node k l x nil) = refl
items-split (node k l x (node j rl y rr)) = elim (Bool-cases (k == level rr)) [
  | inl e ↦ rw e (simp (items-split rr, append_assoc))
  | inr e ↦ rw e
]

-- What a rotation does, and where there is none.
pub skew-flat :
    (k : ℕ) (l : Tree) (x : ℕ) (r : Tree) → level l ≢ k → andtree_skew (node k l x r) ≡ node k l x r
unfolding andtree_skew
skew-flat k nil x r h = refl
skew-flat k (node j ll y lr) x r h = ground arith

pub skew-turn :
    (j k : ℕ) (ll : Tree) (y : ℕ) (lr : Tree) (x : ℕ) (r : Tree)
    → j ≡ k
    → andtree_skew (node k (node j ll y lr) x r) ≡ node j ll y (andtree_skew (node k lr x r))
unfolding andtree_skew
skew-turn j k ll y lr x r h = ground arith

pub split-flat :
    (k : ℕ) (l : Tree) (x : ℕ) (r : Tree)
    → level (right r) ≢ k
    → andtree_split (node k l x r) ≡ node k l x r
unfolding andtree_split
split-flat k l x nil h = refl
split-flat k l x (node j rl y rr) h = ground arith

pub split-raise :
    (k : ℕ) (l : Tree) (x j : ℕ) (rl : Tree) (y : ℕ) (rr : Tree)
    → k ≡ level rr
    → andtree_split (node k l x (node j rl y rr))
      ≡ node (j + 1) (node k l x rl) y (andtree_split rr)
unfolding andtree_split
split-raise k l x j rl y rr h = ground arith

-- An AA tree: a left leaf is one level down, a right leaf is level or one down, and no two right
-- leaves in a row are level.
abbrev pub IsBalanced : Tree → Type 0
IsBalanced nil = Unit
IsBalanced (node k l x r) =
    IsBalanced l
    × IsBalanced r
    × (suc (level l) ≡ k)
    × (level r ≤ k)
    × (k ≤ suc (level r))
    × (level (right r) < k)

pub level-right-le : (t : Tree) → IsBalanced t → level (right t) ≤ level t
level-right-le nil b = omega arith
level-right-le (node k l x r) b = omega arith

pub split-balanced : (t : Tree) → IsBalanced t → andtree_split t ≡ t
unfolding andtree_split
split-balanced nil b = refl
split-balanced (node k l x r) b = split-flat k l x r (omega arith)
