-- ===== src/AndTree/Remove/Found.antt =====
-- `andtree_remove_data` and `andtree_remove_key`: what is removed, what is returned, and that the
-- tree stays in order and counted.
use c4_os.Prelude.{
  ℕ, ◌-◌, ◌^◌, ◌<◌, ◌≡◌, ◌≢◌, refl, ap, sym, ◌∙◌, Option, none, some, List, [], ◌∷◌, ◌++◌,
  append_assoc, arith, All, length, length-append,
}
use c4_os.AndTree.Nodes.{Tree, nil, node, Frame, Place, plug, count_nodes}
use c4_os.AndTree.Lists.{items, before, after, length-items, items-plug}
use c4_os.AndTree.Order.{Chain, IsOrdered, Chain-lower}
use c4_os.AndTree.Search.Keys.{HasKey, andtree_find_key-HasKey}
use c4_os.AndTree.Search.Data.{HasData, andtree_find_data-HasData}
use c4_os.AndTree.Insert.{AndTree}
use c4_os.AndTree.Remove.{
  andtree_remove_repair, andtree_remove, remove_found, andtree_remove_key, andtree_remove_data,
}
use c4_os.AndTree.Remove.Correct.{items-andtree_remove_repair}

items-place :
    (k : ℕ) (l : Tree) (x : ℕ) (r : Tree) (fs : List Frame)
    → items (plug (node k l x r) fs) ≡ before (node k l x r, fs) ++ x ∷ after (node k l x r, fs)
unfolding before after items
items-place k l x r fs = simp (items-plug, append_assoc)

module _ (get_key : ℕ → ℕ) where
  Chain-drop :
      (lo hi : ℕ) (xs : List ℕ) (y : ℕ) (ys : List ℕ)
      → Chain get_key lo hi (xs ++ y ∷ ys)
      → Chain get_key lo hi (xs ++ ys)
  Chain-drop lo hi [] y ys c = Chain-lower get_key (get_key y) lo hi ys c.0 c.1
  Chain-drop lo hi (x ∷ xs) y ys c = (c.0, Chain-drop (get_key x) hi xs y ys c.1)

  -- `x` was removed: once, from between `xs` and `ys`.
  pub record IsRemoved (t u : AndTree) (x : ℕ) : Type 0 where
    pub xs : List ℕ
    pub ys : List ℕ
    pub old_items : items t.root ≡ xs ++ x ∷ ys
    pub new_items : items u.root ≡ xs ++ ys
    pub ordered : IsOrdered get_key u.root
    pub counted : t.nodes ≡ count_nodes t.root → t.nodes < 2 ^ 32 → u.nodes ≡ count_nodes u.root

  andtree_remove-IsRemoved :
      (t : AndTree) (k : ℕ) (l : Tree) (x : ℕ) (r : Tree) (fs : List Frame)
      → plug (node k l x r) fs ≡ t.root
      → IsOrdered get_key t.root
      → IsRemoved t (andtree_remove t (node k l x r, fs)) x
  unfolding andtree_remove
  andtree_remove-IsRemoved t k l x r fs e c =
      let whole = sym (ap items e) ∙ items-place k l x r fs in
      let rest = items-andtree_remove_repair k l x r fs in
      record {
        xs = before (node k l x r, fs);
        ys = after (node k l x r, fs);
        old_items = whole;
        new_items = rest;
        ordered =
            rw rest (Chain-drop 0 (2 ^ 31 - 1) (before (node k l x r, fs)) x _ (rw whole at c));
        counted = λ same few. omega (
          arith,
          length-items t.root,
          length-items (andtree_remove_repair (node k l x r, fs)),
          ap length whole,
          ap length rest,
          length-append (before (node k l x r, fs)) (x ∷ after (node k l x r, fs)),
          length-append (before (node k l x r, fs)) (after (node k l x r, fs)),
        );
      }

  -- The outcome of `andtree_remove_data`.
  abbrev pub RemovedData : ℕ → AndTree → Option ℕ × AndTree → Type 0
  RemovedData d t (none, u) = All (λ x. x ≢ d) (items t.root) × (u ≡ t)
  RemovedData d t (some x, u) = (x ≡ d) × IsRemoved t u x

  RemovedData-found :
      (d : ℕ) (t : AndTree) (p : Option Place)
      → IsOrdered get_key t.root
      → HasData d (items t.root) t.root p
      → RemovedData d t (remove_found t p)
  unfolding remove_found
  RemovedData-found d t none c h = (h, refl)
  RemovedData-found d t (some (nil, fs)) c h = absurd h
  RemovedData-found d t (some (node k l x r, fs)) c h =
      (h.0, andtree_remove-IsRemoved t k l x r fs h.1 c)

  -- On a tree in order, with keys that are not negative, `andtree_remove_data` returns null and
  -- changes nothing exactly where the tree does not hold the data; otherwise it returns the data,
  -- takes it out once, keeps the other items in order, and keeps `nodes` their number, if it was
  -- the number of nodes and below 2 ^ 32.
  pub andtree_remove_data-RemovedData :
      (d : ℕ) (t : AndTree)
      → get_key d < 2 ^ 31
      → IsOrdered get_key t.root
      → RemovedData d t (andtree_remove_data get_key t d)
  unfolding andtree_remove_data
  andtree_remove_data-RemovedData d t small c =
      RemovedData-found d t _ c (andtree_find_data-HasData get_key d small t.root c)

  -- The outcome of `andtree_remove_key`.
  abbrev pub RemovedKey : ℕ → AndTree → Option ℕ × AndTree → Type 0
  RemovedKey key t (none, u) = All (λ x. get_key x ≢ key) (items t.root) × (u ≡ t)
  RemovedKey key t (some x, u) = (get_key x ≡ key) × IsRemoved t u x

  RemovedKey-found :
      (key : ℕ) (t : AndTree) (p : Option Place)
      → IsOrdered get_key t.root
      → HasKey get_key key (items t.root) t.root p
      → RemovedKey key t (remove_found t p)
  unfolding remove_found
  RemovedKey-found key t none c h = (h, refl)
  RemovedKey-found key t (some (nil, fs)) c h = absurd h
  RemovedKey-found key t (some (node k l x r, fs)) c h =
      (h.0, andtree_remove-IsRemoved t k l x r fs h.1 c)

  -- On a tree in order, with keys that are not negative, `andtree_remove_key` returns null and
  -- changes nothing exactly where no item has the key; otherwise it returns an item with the key,
  -- takes it out once, keeps the other items in order, and keeps `nodes` their number, if it was
  -- the number of nodes and below 2 ^ 32.
  pub andtree_remove_key-RemovedKey :
      (key : ℕ) (t : AndTree)
      → key < 2 ^ 31
      → IsOrdered get_key t.root
      → RemovedKey key t (andtree_remove_key get_key t key)
  unfolding andtree_remove_key
  andtree_remove_key-RemovedKey key t small c =
      RemovedKey-found key t _ c (andtree_find_key-HasKey get_key key t.root small c)
