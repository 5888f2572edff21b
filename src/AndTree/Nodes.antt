-- ===== src/AndTree/Nodes.antt =====
-- Nodes, places in a tree and the keys' comparison, with the walks that read only the shape.
use c4_os.Prelude.{
  ℕ, ◌+◌, ◌^◌, Bool, true, false, ◌||◌, Option, none, some, List, [], ◌∷◌, ◌==◌, ltb, leb,
  if◌then◌else◌, add32, sub32,
}

-- `nil` is the sentinel, the one node of level 0, whose leaves are itself and whose data is null.
pub data Tree : Type 0 where
  nil : Tree
  node : ℕ → Tree → ℕ → Tree → Tree

abbrev pub level : Tree → ℕ
level nil = 0
level (node k l x r) = k

abbrev pub left : Tree → Tree
left nil = nil
left (node k l x r) = l

abbrev pub right : Tree → Tree
right nil = nil
right (node k l x r) = r

abbrev pub item : Tree → ℕ
item nil = 0
item (node k l x r) = x

abbrev pub is_nil : Tree → Bool
is_nil nil = true
is_nil (node k l x r) = false

-- A parent without the leaf that one came from: `from_left` came from its left leaf.
pub data Frame : Type 0 where
  from_left : ℕ → ℕ → Tree → Frame
  from_right : ℕ → Tree → ℕ → Frame

abbrev pub Place : Type 0
Place = Tree × List Frame

-- The parent, with the leaf that one came from replaced.
abbrev pub attach : Tree → Frame → Tree
attach t (from_left k x r) = node k t x r
attach t (from_right k l x) = node k l x t

-- The whole tree round a place.
unfoldable pub plug : Tree → List Frame → Tree
plug t [] = t
plug t (f ∷ fs) = plug (attach t f) fs

-- `int` is a 32-bit word in two's complement.
abbrev pub is_negative : ℕ → Bool
is_negative w = leb (2 ^ 31) w

-- `a > b` of two `int`s.
abbrev pub greater : ℕ → ℕ → Bool
greater a b = ltb (add32 b (2 ^ 31)) (add32 a (2 ^ 31))

pub data Side : Type 0 where
  left_side right_side : Side

-- `!(n <= 0)`, as an index into `leaves`.
unfoldable pub direction : ℕ → Side
direction n = if n == 0 || is_negative n then left_side else right_side

-- The keys come from `get_key`.
module _ (get_key : ℕ → ℕ) where
  abbrev pub andtree_compare : ℕ → ℕ → ℕ
  andtree_compare key x = sub32 key (get_key x)

unfoldable pub find_min_node : Tree → List Frame → Option Place
find_min_node nil fs = none
find_min_node (node k nil x r) fs = some (node k nil x r, fs)
find_min_node (node k (node j ll y lr) x r) fs =
    find_min_node (node j ll y lr) (from_left k x r ∷ fs)

unfoldable pub find_max_node : Tree → List Frame → Option Place
find_max_node nil fs = none
find_max_node (node k l x nil) fs = some (node k l x nil, fs)
find_max_node (node k l x (node j rl y rr)) fs =
    find_max_node (node j rl y rr) (from_right k l x ∷ fs)

-- The loop of `andtree_next`: up while one comes from a right leaf.
unfoldable pub climb_next : Tree → List Frame → Option Place
climb_next last [] = none
climb_next last (from_right k l x ∷ fs) = climb_next (node k l x last) fs
climb_next last (from_left k x r ∷ fs) = some (node k last x r, fs)

unfoldable pub climb_previous : Tree → List Frame → Option Place
climb_previous last [] = none
climb_previous last (from_left k x r ∷ fs) = climb_previous (node k last x r) fs
climb_previous last (from_right k l x ∷ fs) = some (node k l x last, fs)

unfoldable pub or_else : Option Place → Option Place → Option Place
or_else none q = q
or_else (some p) q = some p

-- On the place of a node; no caller asks for the sentinel's.
unfoldable pub andtree_next : Place → Option Place
unfolding or_else find_min_node climb_next
andtree_next (nil, fs) = none
andtree_next (node k l x r, fs) =
    or_else (find_min_node r (from_right k l x ∷ fs)) (climb_next (node k l x r) fs)

unfoldable pub andtree_previous : Place → Option Place
unfolding or_else find_max_node climb_previous
andtree_previous (nil, fs) = none
andtree_previous (node k l x r, fs) =
    or_else (find_max_node l (from_left k x r ∷ fs)) (climb_previous (node k l x r) fs)

unfoldable pub andtree_start : Tree → Option Place
unfolding find_min_node
andtree_start root = find_min_node root []

unfoldable pub andtree_end : Tree → Option Place
unfolding find_max_node
andtree_end root = find_max_node root []

unfoldable pub count_nodes : Tree → ℕ
count_nodes nil = 0
count_nodes (node k l x r) = count_nodes l + count_nodes r + 1
