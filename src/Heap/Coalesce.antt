-- ===== src/Heap/Coalesce.antt =====
-- `c4a_coalesce` and `c4a_free` on the blocks of a region.
use c4_os.Prelude.{
  ℕ, zero, suc, ◌+◌, ◌^◌, ◌≤◌, ◌<◌, ◌≡◌, ◌∙◌, refl, ap, arith, Bool, true, false, Option, some,
  List, inl, inr, length,
}
use c4_os.Heap.{Heap, can_coalesce, do_coalesce, coalesce, status_free}
use c4_os.Heap.Lists.{mem, delete}
use c4_os.Heap.Chains.{Region}
use c4_os.Heap.Join.{before-AreNeighbours, after-AreNeighbours, do_coalesce-IsMerged}

-- A merged block: it is free, holds what `first` and `end` bound, and no neighbour can be added.
pub record IsCoalesced (at stop first end node : ℕ) (m : Heap) : Type 0 where
  pub blocks : List ℕ
  pub whole : Region m at stop blocks
  pub listed : mem node blocks ≡ true
  pub unused : m.status node ≡ status_free
  pub holds_first : node ≤ first
  pub holds_end : end ≤ node + 2 ^ m.bucket node
  pub none_before : can_coalesce (m.phys_prev node) node m ≡ false
  pub none_after : can_coalesce node (m.phys_next node) m ≡ false

abbrev pub Coalesced : Option (ℕ × Heap) → ℕ → ℕ → ℕ → ℕ → Type 0
Coalesced result at stop first end =
    (node : ℕ) × (m : Heap) × (result ≡ some (node, m)) × IsCoalesced at stop first end node m

-- A round of the loop, for each outcome of its two merges.
module _ (fuel : ℕ) (m : Heap) (node : ℕ) where
  round_left :
      (m1 : Heap)
      → (do_coalesce (m.phys_prev node) node m).0 ≡ true
      → (do_coalesce (m.phys_prev node) node m).1 ≡ m1
      → coalesce (suc fuel) node m
        ≡ coalesce fuel
            (m.phys_prev node)
            (do_coalesce (m.phys_prev node) (m1.phys_next (m.phys_prev node)) m1).1
  unfolding coalesce
  round_left m1 e f = rw (e, f) refl

  round_right :
      do_coalesce (m.phys_prev node) node m ≡ (false, m)
      → (do_coalesce node (m.phys_next node) m).0 ≡ true
      → coalesce (suc fuel) node m ≡ coalesce fuel node (do_coalesce node (m.phys_next node) m).1
  unfolding coalesce
  round_right e f = rw e (rw f refl)

  round_none :
      do_coalesce (m.phys_prev node) node m ≡ (false, m)
      → do_coalesce node (m.phys_next node) m ≡ (false, m)
      → coalesce (suc fuel) node m ≡ some (node, m)
  unfolding coalesce
  round_none e f = rw e (rw f refl)

pub coalesce-IsCoalesced :
    (fuel : ℕ) (m : Heap) (at stop first end node : ℕ) (xs : List ℕ)
    → 0 < at
    → length xs < fuel
    → mem node xs ≡ true
    → m.status node ≡ status_free
    → node ≤ first
    → end ≤ node + 2 ^ m.bucket node
    → Region m at stop xs
    → Coalesced (coalesce fuel node m) at stop first end
coalesce-IsCoalesced zero m at stop first end node xs low enough inside idle lo hi region =
    absurd (omega (arith, enough))
coalesce-IsCoalesced (suc fuel) m at stop first end node xs low enough inside idle lo hi region =
    let a : ℕ = m.phys_prev node in
    let m1 : Heap = (do_coalesce a node m).1 in
    let near = before-AreNeighbours m at stop node xs region inside in
    elim (do_coalesce-IsMerged m a node at stop xs low region near) [
      | inl left ↦
          let b : ℕ = m1.phys_next a in
          let l = left.1 in
          let near1 =
            after-AreNeighbours m1 at stop a (delete node xs) l.merged_region l.merged_mem in
          elim (do_coalesce-IsMerged m1 a b at stop (delete node xs) low l.merged_region near1) [
            | inl right ↦
                let r = right.1 in
                let m2 : Heap = (do_coalesce a b m1).1 in
                let rest =
                  coalesce-IsCoalesced fuel m2 at stop first end a (delete b (delete node xs)) low
                    (omega (arith, enough, l.merged_shorter, r.merged_shorter)) r.merged_mem
                    r.merged_status (omega (arith, lo, l.merged_below))
                    (omega (arith, hi, l.merged_end, r.merged_larger)) r.merged_region in
                (rest.0, rest.1, round_left fuel m node m1 left.0 refl ∙ rest.2, rest.3)
            | inr right ↦
                let rest =
                  coalesce-IsCoalesced fuel m1 at stop first end a (delete node xs) low
                    (omega (arith, enough, l.merged_shorter)) l.merged_mem l.merged_status
                    (omega (arith, lo, l.merged_below)) (omega (arith, hi, l.merged_end))
                    l.merged_region in
                (
                  rest.0,
                  rest.1,
                  round_left fuel m node m1 left.0 refl
                      ∙ ap (λ (r : Bool × Heap). coalesce fuel a r.1) right.0
                      ∙ rest.2,
                  rest.3,
                )
          ]
      | inr left ↦
          let b : ℕ = m.phys_next node in
          let near1 = after-AreNeighbours m at stop node xs region inside in
          elim (do_coalesce-IsMerged m node b at stop xs low region near1) [
            | inl right ↦
                let r = right.1 in
                let m2 : Heap = (do_coalesce node b m).1 in
                let rest =
                  coalesce-IsCoalesced fuel m2 at stop first end node (delete b xs) low
                    (omega (arith, enough, r.merged_shorter)) r.merged_mem r.merged_status lo
                    (omega (arith, hi, r.merged_larger)) r.merged_region in
                (rest.0, rest.1, round_right fuel m node left.0 right.0 ∙ rest.2, rest.3)
            | inr right ↦ (
              node,
              m,
              round_none fuel m node left.0 right.0,
              record {
                blocks = xs;
                whole = region;
                listed = inside;
                unused = idle;
                holds_first = lo;
                holds_end = hi;
                none_before = left.1;
                none_after = right.1;
              },
            )
          ]
    ]
