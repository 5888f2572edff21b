-- ===== src/AndTree/Lists.antt =====
-- The items of a tree in order, and those before and after a place.
use c4_os.Prelude.{
  ℕ, ◌≡◌, refl, List, [], ◌∷◌, ◌++◌, append_assoc, append-nil, arith, length, length-append,
}
use c4_os.AndTree.Nodes.{Tree, nil, node, Frame, from_left, from_right, Place, plug, count_nodes}

unfoldable pub items : Tree → List ℕ
items nil = []
items (node k l x r) = items l ++ x ∷ items r

-- The items of the frames to the left of a subtree, and those to its right.
unfoldable pub earlier : List Frame → List ℕ
earlier [] = []
earlier (from_left k x r ∷ fs) = earlier fs
earlier (from_right k l x ∷ fs) = earlier fs ++ items l ++ x ∷ []

unfoldable pub later : List Frame → List ℕ
later [] = []
later (from_left k x r ∷ fs) = x ∷ items r ++ later fs
later (from_right k l x ∷ fs) = later fs

-- The same beside the item of a place.
unfoldable pub before : Place → List ℕ
unfolding items earlier
before (nil, fs) = earlier fs
before (node k l x r, fs) = earlier fs ++ items l

unfoldable pub after : Place → List ℕ
unfolding items later
after (nil, fs) = later fs
after (node k l x r, fs) = items r ++ later fs

pub items-plug :
    (t : Tree) (fs : List Frame) → items (plug t fs) ≡ earlier fs ++ items t ++ later fs
unfolding plug items earlier later
items-plug t [] = simp append-nil
items-plug t (from_left k x r ∷ fs) = simp (items-plug (node k t x r) fs, append_assoc)
items-plug t (from_right k l x ∷ fs) = simp (items-plug (node k l x t) fs, append_assoc)

pub length-items : (t : Tree) → length (items t) ≡ count_nodes t
unfolding items count_nodes
length-items nil = refl
length-items (node k l x r) =
    omega (arith, length-append (items l) (x ∷ items r), length-items l, length-items r)
