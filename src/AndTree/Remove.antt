-- ===== src/AndTree/Remove.antt =====
-- `andtree_remove`, `andtree_remove_key` and `andtree_remove_data`: the item before or after the
-- node's takes its place, and levels are lowered and repaired on the way up from there.
pub mod Correct
pub mod Found
use c4_os.Prelude.{
  ℕ, ◌+◌, ◌-◌, ◌%◌, ◌^◌, Bool, ◌||◌, Option, none, some, List, [], ◌∷◌, ◌++◌, ltb, if◌then◌else◌,
  sub32,
}
use c4_os.AndTree.Nodes.{
  Tree, nil, node, level, left, right, item, Frame, from_left, from_right, Place, attach, plug,
  find_min_node, find_max_node,
}
use c4_os.AndTree.Balance.{andtree_skew, andtree_split}
use c4_os.AndTree.Search.{andtree_find_key, andtree_find_data}
use c4_os.AndTree.Insert.{AndTree}

-- `if (leaf->level > level) leaf->level = level`; the sentinel's level 0 never is.
lower_to : ℕ → Tree → Tree
lower_to k nil = nil
lower_to k (node j l x r) = if ltb k j then node k l x r else node j l x r

split_left : Tree → Tree
split_left nil = nil
split_left (node k l x r) = node k (andtree_split l) x r

-- The body of the loop of `andtree_remove_repair`. A level is at least 1, so `level - 1` does not
-- wrap.
unfoldable pub rebalance : Tree → Tree
unfolding lower_to split_left
rebalance nil = nil
rebalance (node k l x r) =
    let lowered = node (k - 1) l x (lower_to (k - 1) r) in
    let repaired = andtree_skew (split_left (andtree_split (andtree_skew lowered))) in
    if ltb (level l) (k - 1) || ltb (level r) (k - 1) then repaired else node k l x r

-- The loop, from the subtree that took the removed node's place up through the parents.
unfoldable pub remove_repair : Tree → List Frame → Tree
remove_repair t [] = t
remove_repair t (f ∷ fs) = remove_repair (rebalance (attach t f)) fs

-- `successor->leaves[is_nil(successor->leaves[LEFT])]`
only_leaf : Tree → Tree
only_leaf nil = nil
only_leaf (node k nil x r) = r
only_leaf (node k (node j ll y lr) x r) = node j ll y lr

-- With the first item of the right leaf, where there is one, in the node's place. The frames of
-- the item that moves are first those within the leaf.
move_first : ℕ → Tree → List Frame → Option Place → Tree
unfolding remove_repair only_leaf
move_first k l fs none = remove_repair nil fs
move_first k l fs (some p) = remove_repair (only_leaf p.0) (p.1 ++ from_right k l (item p.0) ∷ fs)

-- With the last item of the left leaf, else as `other` says.
move_last : ℕ → Tree → List Frame → Tree → Option Place → Tree
unfolding remove_repair only_leaf
move_last k r fs other none = other
move_last k r fs other (some p) =
    remove_repair (only_leaf p.0) (p.1 ++ from_left k (item p.0) r ∷ fs)

unfoldable pub andtree_remove_repair : Place → Tree
unfolding move_first move_last find_max_node find_min_node
andtree_remove_repair (nil, fs) = plug nil fs
andtree_remove_repair (node k l x r, fs) =
    move_last k r fs (move_first k l fs (find_min_node r [])) (find_max_node l [])

unfoldable pub andtree_remove : AndTree → Place → AndTree
unfolding andtree_remove_repair
andtree_remove t p = record { root = andtree_remove_repair p; nodes = sub32 t.nodes 1 }

-- The data that was removed, null where there was none, and the tree.
remove_found : AndTree → Option Place → Option ℕ × AndTree
remove_found t none = (none, t)
remove_found t (some p) = (some (item p.0), andtree_remove t p)

module _ (get_key : ℕ → ℕ) where
  unfoldable pub andtree_remove_key : AndTree → ℕ → Option ℕ × AndTree
  unfolding remove_found andtree_remove
  andtree_remove_key t key = remove_found t (andtree_find_key get_key key t.root)

  unfoldable pub andtree_remove_data : AndTree → ℕ → Option ℕ × AndTree
  unfolding remove_found andtree_remove
  andtree_remove_data t target = remove_found t (andtree_find_data get_key target t.root)
