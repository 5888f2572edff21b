-- ===== src/AndTree/Search.antt =====
-- `andtree_find_key`, `andtree_find_data` and `andtree_find_at_least`.
pub mod AtLeast
pub mod Keys
pub mod Data
use c4_os.Prelude.{
  ℕ, Bool, true, false, ◌&&◌, Option, none, some, List, [], ◌∷◌, ◌==◌, if◌then◌else◌,
}
use c4_os.AndTree.Nodes.{
  Tree, nil, node, item, Frame, from_left, from_right, Place, or_else, Side, left_side, right_side,
  direction, is_negative, greater, andtree_compare,
}

module _ (get_key : ℕ → ℕ) where
  -- The loop of `andtree_find_key`.
  find_key_from : ℕ → Tree → List Frame → Option Place
  find_key_from key nil fs = none
  find_key_from key (node k l x r) fs =
      let diff = andtree_compare get_key key x in
      let down : Option Place = elim (direction diff) [
        | left_side ↦ find_key_from key l (from_left k x r ∷ fs)
        | right_side ↦ find_key_from key r (from_right k l x ∷ fs)
      ] in
      if diff == 0 then some (node k l x r, fs) else down

  unfoldable pub andtree_find_key : ℕ → Tree → Option Place
  unfolding find_key_from
  andtree_find_key key root = find_key_from key root []

  -- Data pointers are compared as addresses.
  unfoldable pub andtree_find_dupe_data : ℕ → Tree → List Frame → Option Place
  unfolding or_else
  andtree_find_dupe_data target nil fs = none
  andtree_find_dupe_data target (node k l x r) fs =
      let diff = andtree_compare get_key (get_key target) x in
      let in_left = andtree_find_dupe_data target l (from_left k x r ∷ fs) in
      let in_right = andtree_find_dupe_data target r (from_right k l x ∷ fs) in
      let down : Option Place = elim (direction diff) [
        | left_side ↦ in_left
        | right_side ↦ in_right
      ] in
      let both = or_else in_left (or_else in_right down) in
      if x == target then some (node k l x r, fs) else if diff == 0 then both else down

  -- The loop of `andtree_find_data`.
  find_data_from : ℕ → Tree → List Frame → Option Place
  find_data_from target nil fs = none
  find_data_from target (node k l x r) fs =
      let diff = andtree_compare get_key (get_key target) x in
      let here = andtree_find_dupe_data target (node k l x r) fs in
      let down : Option Place = elim (direction diff) [
        | left_side ↦ find_data_from target l (from_left k x r ∷ fs)
        | right_side ↦ find_data_from target r (from_right k l x ∷ fs)
      ] in
      if diff == 0 then here else down

  unfoldable pub andtree_find_data : ℕ → Tree → Option Place
  unfolding find_data_from
  andtree_find_data target root = find_data_from target root []

  -- `(temp && andtree_compare(tree, key, temp) > diff)? temp : node`
  closer : ℕ → ℕ → Option Place → Place → Option Place
  closer key diff none here = some here
  closer key diff (some (t, fs)) here =
      if greater (andtree_compare get_key key (item t)) diff then some (t, fs) else some here

  do_find_at_least : ℕ → Tree → List Frame → Option Place
  do_find_at_least key nil fs = none
  do_find_at_least key (node k l x r) fs =
      let diff = andtree_compare get_key key x in
      let temp : Option Place = elim (direction diff) [
        | left_side ↦ do_find_at_least key l (from_left k x r ∷ fs)
        | right_side ↦ do_find_at_least key r (from_right k l x ∷ fs)
      ] in
      let best = closer key diff temp (node k l x r, fs) in
      if diff == 0 then some (node k l x r, fs) else if is_negative diff then best else temp

  unfoldable pub andtree_find_at_least : ℕ → Tree → Option Place
  unfolding do_find_at_least closer
  andtree_find_at_least key root = do_find_at_least key root []
