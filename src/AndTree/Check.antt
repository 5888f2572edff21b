-- ===== src/AndTree/Check.antt =====
-- `andtree_check` and the height of a balanced tree.
use native.Mathlib.Nat.{pow-suc, pow-le-pow_right}
use c4_os.Prelude.{
  ℕ, suc, ◌+◌, ◌-◌, ◌*◌, ◌/◌, ◌^◌, ◌≤◌, ◌<◌, ◌≡◌, ◌≢◌, refl, ap, max, Bool, true, false, not, ◌&&◌,
  ◌||◌, arith, ◌==◌, ltb,
}
use c4_os.AndTree.Nodes.{Tree, nil, node, level, right, is_nil, count_nodes}
use c4_os.AndTree.Balance.{IsBalanced}

-- The tests of one leaf: no missing and no inverted level.
leaf_valid : ℕ → Tree → Bool
leaf_valid k leaf = is_nil leaf || (not (ltb (level leaf) (k - 1)) && not (ltb k (level leaf)))

unfoldable pub check_tree : Tree → Bool
unfolding leaf_valid
check_tree nil = true
check_tree (node k l x r) =
    check_tree l
    && check_tree r
    && (not (ltb 1 k) || (not (is_nil l && is_nil r) && leaf_valid k l && leaf_valid k r))
    && not (level l == k)
    && not (level (right r) == k)

leaf_valid-balanced : (k : ℕ) (t : Tree) → level t ≤ k → k ≤ suc (level t) → leaf_valid k t ≡ true
unfolding leaf_valid
leaf_valid-balanced k nil low high = refl
leaf_valid-balanced k (node j l x r) low high = ground arith

==-false : (a b : ℕ) → a ≢ b → (a == b) ≡ false
==-false a b h = ground arith

-- The tests at one node, once its leaves pass theirs.
here_valid :
    (k : ℕ) (l : Tree) (x : ℕ) (r : Tree)
    → IsBalanced (node k l x r)
    → (not (ltb 1 k) || (not (is_nil l && is_nil r) && leaf_valid k l && leaf_valid k r)) ≡ true
here_valid k nil x r b = ground arith
here_valid k (node j ll y lr) x r b =
    rw
      (
        leaf_valid-balanced k (node j ll y lr) (omega arith) (omega arith),
        leaf_valid-balanced k r (omega arith) (omega arith),
      )
      (ground arith)

-- `andtree_check` accepts every AA tree.
pub check_tree-IsBalanced : (t : Tree) → IsBalanced t → check_tree t ≡ true
unfolding check_tree
check_tree-IsBalanced nil b = refl
check_tree-IsBalanced (node k l x r) b = rw (
  check_tree-IsBalanced l b.0,
  check_tree-IsBalanced r b.1,
  here_valid k l x r b,
  ==-false (level l) k (omega arith),
  ==-false (level (right r)) k (omega arith),
)

unfoldable pub height : Tree → ℕ
height nil = 0
height (node k l x r) = max (height l) (height r) + 1

height-level :
    (t : Tree)
    → IsBalanced t
    → (height t ≤ 2 * level t) × (level (right t) < level t → height t + 1 ≤ 2 * level t)
unfolding height
height-level nil b = (omega arith, λ h. omega arith)
height-level (node k l x r) b =
    let (hl, hl') = height-level l b.0 in
    let (hr, hr') = height-level r b.1 in (ground arith, λ h. omega arith)

pow-level : (t : Tree) → IsBalanced t → 2 ^ level t ≤ count_nodes t + 1
unfolding count_nodes
pow-level nil b = omega arith
pow-level (node k l x r) b =
    let e : 2 ^ k ≡ 2 ^ suc (level l) = ap (λ (n : ℕ). 2 ^ n) (omega arith) in
    omega (
      arith,
      e,
      pow-suc 2 (level l),
      pow-level l b.0,
      pow-level r b.1,
      pow-le-pow_right {n = 2} (omega arith) {i = level l} {j = level r} (omega arith),
    )

-- A balanced tree's height is at most twice the binary logarithm of its size and one.
pub height-count_nodes : (t : Tree) → IsBalanced t → 2 ^ (height t / 2) ≤ count_nodes t + 1
height-count_nodes t b = omega (
  arith,
  pow-level t b,
  pow-le-pow_right {n = 2} (omega arith) {i = height t / 2} {j = level t}
      (omega (arith, (height-level t b).0)),
)
