-- ===== src/AndTree/Insert.antt =====
-- `andtree_insert`: down to a free leaf, then `andtree_skew` and `andtree_split` at every node on
-- the way back up.
pub mod Correct
use c4_os.Prelude.{ℕ, ◌+◌, ◌%◌, ◌^◌, List, [], ◌∷◌, if◌then◌else◌}
use c4_os.AndTree.Nodes.{
  Tree, nil, node, Frame, from_left, from_right, attach, Side, left_side, right_side, is_negative,
  andtree_compare,
}
use c4_os.AndTree.Balance.{andtree_skew, andtree_split}

-- `c4rt_andtree_t`; `get_key` is a parameter of the operations.
pub record AndTree : Type 0 where
  pub root : Tree
  pub nodes : ℕ

unfoldable pub andtree_init : AndTree
andtree_init = record { root = nil; nodes = 0 }

-- What `calloc` returns is not null: the code does not test it.
abbrev pub make_andnode : ℕ → Tree
make_andnode item = node 1 nil item nil

-- The loop of `andtree_insert_repair`, at a subtree and on up through its parents.
unfoldable pub insert_repair : Tree → List Frame → Tree
insert_repair temp [] = andtree_split (andtree_skew temp)
insert_repair temp (f ∷ fs) = insert_repair (attach (andtree_split (andtree_skew temp)) f) fs

module _ (get_key : ℕ → ℕ) where
  -- The loop of `andtree_bin_insert`: the frames above the free leaf that takes the new node. An
  -- equal key goes to the right.
  unfoldable pub bin_insert : ℕ → Tree → List Frame → List Frame
  bin_insert x nil fs = fs
  bin_insert x (node k l y r) fs =
      let diff = andtree_compare get_key (get_key x) y in
      let in_left = bin_insert x l (from_left k y r ∷ fs) in
      let in_right = bin_insert x r (from_right k l y ∷ fs) in
      if is_negative diff then in_left else in_right

  unfoldable pub andtree_insert : ℕ → AndTree → AndTree
  unfolding insert_repair bin_insert
  andtree_insert x t = record {
    root = insert_repair (make_andnode x) (bin_insert x t.root []);
    nodes = (t.nodes + 1) % 2 ^ 32;
  }
