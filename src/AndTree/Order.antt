-- ===== src/AndTree/Order.antt =====
-- Lists of items in the order of their keys, and what the code's `int` comparisons decide where
-- keys are not negative.
use c4_os.Prelude.{
  ℕ, ◌-◌, ◌^◌, ◌≤◌, ◌<◌, ◌≡◌, List, [], ◌∷◌, ◌++◌, arith, ◌==◌, ltb, leb, if◌then◌else◌, sub32, All,
  All-mono,
}
use c4_os.AndTree.Nodes.{Tree, is_negative, greater, direction, left_side, right_side}
use c4_os.AndTree.Lists.{items}

-- The differences that the code branches on, for two keys below 2 ^ 31.
pub zero-compare : (a b : ℕ) → a < 2 ^ 31 → b < 2 ^ 31 → (sub32 a b == 0) ≡ (a == b)
zero-compare a b ha hb = ground arith

pub negative-compare : (a b : ℕ) → a < 2 ^ 31 → b < 2 ^ 31 → is_negative (sub32 a b) ≡ ltb a b
negative-compare a b ha hb = ground arith

pub direction-compare :
    (a b : ℕ)
    → a < 2 ^ 31
    → b < 2 ^ 31
    → direction (sub32 a b) ≡ (if leb a b then left_side else right_side)
unfolding direction
direction-compare a b ha hb = ground arith

pub greater-compare :
    (a b c : ℕ) → a < 2 ^ 31 → b < 2 ^ 31 → c < 2 ^ 31 → greater (sub32 a b) (sub32 a c) ≡ ltb b c
greater-compare a b c ha hb hc = ground arith

module _ (get_key : ℕ → ℕ) where
  -- Keys from `lo` to `hi`, in order.
  abbrev pub Chain : ℕ → ℕ → List ℕ → Type 0
  Chain lo hi [] = lo ≤ hi
  Chain lo hi (x ∷ xs) = (lo ≤ get_key x) × Chain (get_key x) hi xs

  -- The items of the tree are in order, and no key is negative.
  abbrev pub IsOrdered : Tree → Type 0
  IsOrdered t = Chain 0 (2 ^ 31 - 1) (items t)

  pub Chain-le : (lo hi : ℕ) (xs : List ℕ) → Chain lo hi xs → lo ≤ hi
  Chain-le lo hi [] c = c
  Chain-le lo hi (x ∷ xs) c = omega (arith, Chain-le (get_key x) hi xs c.1)

  pub Chain-left :
      (lo hi : ℕ) (xs : List ℕ) (y : ℕ) (ys : List ℕ)
      → Chain lo hi (xs ++ y ∷ ys)
      → Chain lo (get_key y) xs
  Chain-left lo hi [] y ys c = c.0
  Chain-left lo hi (x ∷ xs) y ys c = (c.0, Chain-left (get_key x) hi xs y ys c.1)

  pub Chain-right :
      (lo hi : ℕ) (xs : List ℕ) (y : ℕ) (ys : List ℕ)
      → Chain lo hi (xs ++ y ∷ ys)
      → Chain (get_key y) hi ys
  Chain-right lo hi [] y ys c = c.1
  Chain-right lo hi (x ∷ xs) y ys c = Chain-right (get_key x) hi xs y ys c.1

  pub Chain-join :
      (lo hi : ℕ) (xs : List ℕ) (y : ℕ) (ys : List ℕ)
      → Chain lo (get_key y) xs
      → Chain (get_key y) hi ys
      → Chain lo hi (xs ++ y ∷ ys)
  Chain-join lo hi [] y ys c d = (c, d)
  Chain-join lo hi (x ∷ xs) y ys c d = (c.0, Chain-join (get_key x) hi xs y ys c.1 d)

  pub Chain-lower : (lo lo' hi : ℕ) (xs : List ℕ) → lo' ≤ lo → Chain lo hi xs → Chain lo' hi xs
  Chain-lower lo lo' hi [] h c = omega arith
  Chain-lower lo lo' hi (x ∷ xs) h c = (omega arith, c.1)

  pub Chain-All :
      (lo hi : ℕ) (xs : List ℕ) → Chain lo hi xs → All (λ x. (lo ≤ get_key x) × (get_key x ≤ hi)) xs
  Chain-All lo hi [] c = tt
  Chain-All lo hi (x ∷ xs) c = (
    (c.0, Chain-le (get_key x) hi xs c.1),
    Chain-All lo hi xs (Chain-lower (get_key x) lo hi xs c.0 c.1),
  )

  -- What holds of every key from `lo` on holds of the chain's, and so up to `hi`.
  pub Chain-above :
      (P : ℕ → Type 0) (lo hi : ℕ) (xs : List ℕ)
      → Chain lo hi xs
      → ((x : ℕ) → lo ≤ get_key x → P x)
      → All P xs
  Chain-above P lo hi xs c f = All-mono _ P xs (λ x b. f x b.0) (Chain-All lo hi xs c)

  pub Chain-below :
      (P : ℕ → Type 0) (lo hi : ℕ) (xs : List ℕ)
      → Chain lo hi xs
      → ((x : ℕ) → get_key x ≤ hi → P x)
      → All P xs
  Chain-below P lo hi xs c f = All-mono _ P xs (λ x b. f x b.1) (Chain-All lo hi xs c)
