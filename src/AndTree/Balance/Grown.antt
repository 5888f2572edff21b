-- ===== src/AndTree/Balance/Grown.antt =====
-- What `andtree_skew` and `andtree_split` make of a node whose left or right leaf may have grown.
use c4_os.Prelude.{
  ℕ, suc, ◌+◌, ◌≤◌, ◌≡◌, ◌≢◌, refl, ◌⊎◌, Bool-cases, inl, inr, arith, ◌==◌, ==_iff, if◌then◌else◌,
}
use c4_os.AndTree.Nodes.{Tree, nil, node, level, left, right}
use c4_os.AndTree.Balance.{
  andtree_skew, andtree_split, skew-flat, skew-turn, split-flat, split-raise, IsBalanced,
  level-right-le, split-balanced,
}

-- `u` is balanced, and as high as `t` or one level higher; then both its leaves are as high as `t`
-- was, and `t` had a level right leaf or was the sentinel.
pub record IsGrown (t u : Tree) : Type 0 where
  pub balanced : IsBalanced u
  pub grown :
      (level u ≡ level t)
      ⊎ ((level u ≡ suc (level t))
          × (level (left u) ≡ level t)
          × (level (right u) ≡ level t)
          × (level (right t) ≡ level t))

abbrev pub fix : Tree → Tree
fix t = andtree_split (andtree_skew t)

-- A balanced node is left as it is.
fix-balanced :
    (k : ℕ) (l : Tree) (x : ℕ) (r : Tree)
    → IsBalanced (node k l x r)
    → fix (node k l x r) ≡ node k l x r
fix-balanced k l x r b = rw (skew-flat k l x r (omega arith)) (split-flat k l x r (omega arith))

-- A left leaf as high as its node, with leaves one lower, is turned up; a level right leaf then
-- makes two in a row.
fix-turned :
    (j k : ℕ) (ll : Tree) (y : ℕ) (lr : Tree) (x : ℕ) (r : Tree)
    → j ≡ k
    → suc (level lr) ≡ k
    → IsBalanced r
    → level r ≤ k
    → fix (node k (node j ll y lr) x r)
      ≡ (if j == level r then node (k + 1) (node j ll y lr) x r else node j ll y (node k lr x r))
fix-turned j k ll y lr x r e low br h =
    rw (skew-turn j k ll y lr x r e, skew-flat k lr x r (omega arith))
      (elim (Bool-cases (j == level r)) [
        | inl up ↦ rw (up, split-raise j ll y k lr x r (ground arith), split-balanced r br)
        | inr flat ↦ rw (flat, split-flat j ll y (node k lr x r) (ground arith))
      ])

fix-left_cases :
    (k : ℕ) (l u : Tree) (x : ℕ) (r : Tree)
    → IsBalanced (node k l x r)
    → IsBalanced u
    → (level u ≡ level l)
      ⊎ ((level u ≡ suc (level l))
          × (level (left u) ≡ level l)
          × (level (right u) ≡ level l)
          × (level (right l) ≡ level l))
    → IsGrown (node k l x r) (fix (node k u x r))
fix-left_cases k l u x r b bu (inl same) =
    rw (fix-balanced k u x r (ground arith)) (record { balanced = ground arith; grown = inl refl })
fix-left_cases k l nil x r b bu (inr up) = absurd (omega arith)
fix-left_cases k l (node j ll y lr) x r b bu (inr up) =
    rw (fix-turned j k ll y lr x r (omega arith) (omega arith) b.1 (omega arith))
      (elim (Bool-cases (j == level r)) [
        | inl e ↦
            let level_up : j ≡ level r = (==_iff j (level r)).0 e in
            rw e (record {
              balanced = (bu, b.1, omega arith, omega arith, omega arith, omega arith);
              grown = inr (omega arith);
            })
        | inr e ↦
            let apart : level r ≢ j = ground arith in
            rw e (record {
              balanced = (
                bu.0,
                (bu.1, b.1, omega arith, omega arith, omega arith, omega arith),
                omega arith,
                omega arith,
                omega arith,
                omega arith,
              );
              grown = inl (omega arith);
            })
      ])

-- Repairing a node over a left leaf that may have grown.
pub fix-left :
    (k : ℕ) (l u : Tree) (x : ℕ) (r : Tree)
    → IsBalanced (node k l x r)
    → IsGrown l u
    → IsGrown (node k l x r) (fix (node k u x r))
fix-left k l u x r b g = fix-left_cases k l u x r b g.balanced g.grown

fix-right_cases :
    (k : ℕ) (l : Tree) (x : ℕ) (r u : Tree)
    → IsBalanced (node k l x r)
    → IsBalanced u
    → (level u ≡ level r)
      ⊎ ((level u ≡ suc (level r))
          × (level (left u) ≡ level r)
          × (level (right u) ≡ level r)
          × (level (right r) ≡ level r))
    → IsGrown (node k l x r) (fix (node k l x u))
fix-right_cases k l x r nil b bu g =
    rw (skew-flat k l x nil (omega arith), split-flat k l x nil (omega arith))
      (record { balanced = ground arith; grown = inl refl })
fix-right_cases k l x r (node j rl y rr) b bu g =
    rw (skew-flat k l x (node j rl y rr) (omega arith)) (elim (Bool-cases (level rr == k)) [
      | inl e ↦
          let level_up : level rr ≡ k = (==_iff (level rr) k).0 e in
          let inner = level-right-le rl bu.0 in
          rw (split-raise k l x j rl y rr (omega arith), split-balanced rr bu.1)
            (record {
              balanced = (
                (b.0, bu.0, omega arith, omega arith, omega arith, omega arith),
                bu.1,
                omega arith,
                omega arith,
                omega arith,
                omega arith,
              );
              grown = inr (omega arith);
            })
      | inr e ↦
          let apart : level rr ≢ k = ground arith in
          rw (split-flat k l x (node j rl y rr) apart) (record {
            balanced = (b.0, bu, omega arith, omega arith, omega arith, omega arith);
            grown = inl refl;
          })
    ])

-- Repairing a node over a right leaf that may have grown.
pub fix-right :
    (k : ℕ) (l : Tree) (x : ℕ) (r u : Tree)
    → IsBalanced (node k l x r)
    → IsGrown r u
    → IsGrown (node k l x r) (fix (node k l x u))
fix-right k l x r u b g = fix-right_cases k l x r u b g.balanced g.grown
