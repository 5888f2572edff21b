-- ===== src/AndTree/Tests.antt =====
-- Runs of the trees of libraries/c4rt/src/andtree.c, and their theorems at concrete trees.
use c4_os.Prelude.{ℕ, ◌+◌, ◌-◌, ◌/◌, ◌^◌, ◌≤◌, ◌≡◌, refl, true, arith}
use c4_os.AndTree.Nodes.{Tree, nil, node, level, andtree_start, count_nodes}
use c4_os.AndTree.Lists.{items}
use c4_os.AndTree.Order.{IsOrdered}
use c4_os.AndTree.Balance.{IsBalanced, andtree_skew, andtree_split}
use c4_os.AndTree.Check.{check_tree}
use c4_os.AndTree.Walk.{visit, visit-items}
use c4_os.AndTree.Search.{andtree_find_at_least}
use c4_os.AndTree.Search.AtLeast.{HasLeast, andtree_find_at_least-HasLeast}
use c4_os.AndTree.Insert.{AndTree, andtree_init, andtree_insert}
use c4_os.AndTree.Insert.Correct.{insert_sorted, items-andtree_insert, IsBalanced-andtree_insert}
use c4_os.AndTree.Remove.{andtree_remove_data}
use c4_os.AndTree.Remove.Found.{RemovedData, andtree_remove_data-RemovedData}

-- Two data pointers to a key.
abbrev half : ℕ → ℕ
half x = x / 2

abbrev five : Tree
five = node 2 (node 1 nil 2 nil) 4 (node 2 (node 1 nil 5 nil) 8 (node 1 nil 9 nil))

abbrev tree : AndTree
tree = record { root = five; nodes = 5 }

five-IsOrdered : IsOrdered half five
unfolding items
five-IsOrdered = omega arith

five-IsBalanced : IsBalanced five
five-IsBalanced = omega arith

abbrev fill : AndTree
fill = andtree_insert half 9 (
    andtree_insert half 5
      (andtree_insert half 8 (andtree_insert half 2 (andtree_insert half 4 andtree_init))))

-- Built by insertions, and taken down again.
fill_lem : (fill.root ≡ five) × (check_tree five ≡ true)
unfolding andtree_insert andtree_init check_tree andtree_split andtree_skew
fill_lem = (refl, refl)

visit-items_example : visit 5 (andtree_start five) ≡ items five
unfolding count_nodes
visit-items_example = visit-items five 5 (omega arith)

andtree_find_at_least-HasLeast_example :
    HasLeast half (2 ^ 31 - 1) 3 (items five) five (andtree_find_at_least half 3 five)
andtree_find_at_least-HasLeast_example =
    andtree_find_at_least-HasLeast half 3 five (omega arith) five-IsOrdered

items-andtree_insert_example :
    (items (andtree_insert half 3 tree).root ≡ insert_sorted half 3 (items five))
    × IsOrdered half (andtree_insert half 3 tree).root
items-andtree_insert_example = items-andtree_insert half 3 tree (omega arith) five-IsOrdered

IsBalanced-andtree_insert_example :
    IsBalanced (andtree_insert half 3 tree).root
    × (level (andtree_insert half 3 tree).root ≤ level five + 1)
IsBalanced-andtree_insert_example = IsBalanced-andtree_insert half 3 tree five-IsBalanced

andtree_remove_data-RemovedData_example : RemovedData half 9 tree (andtree_remove_data half tree 9)
andtree_remove_data-RemovedData_example =
    andtree_remove_data-RemovedData half 9 tree (omega arith) five-IsOrdered
