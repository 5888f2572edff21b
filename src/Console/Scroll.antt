-- ===== src/Console/Scroll.antt =====
-- `text_scroll`: the two loops as a map on cells.
use c4_os.Prelude.{ℕ, zero, suc, ◌+◌, ◌-◌, ◌*◌, ◌≤◌, ◌≡◌, ap, arith, ltb, leb, ◌&&◌, if◌then◌else◌}
use c4_os.Console.{Cell, Display, poke, copy_cells, blank_cells, scroll_rows, text_scroll, space}

-- A cell with its text blanked.
abbrev pub blanked : Cell → Cell
blanked c = record c { text = space }

copy_cells_lem :
    (w n to : ℕ) (m : ℕ → Cell) (j : ℕ)
    → copy_cells w n to m j ≡ (if leb to j && ltb j (to + n) then m (j + w) else m j)
unfolding copy_cells poke
copy_cells_lem w zero to m j = ground arith
copy_cells_lem w (suc n) to m j =
    let ih = copy_cells_lem w n (to + 1) (poke m to (m (to + w))) j in ground (arith, ih)

blank_cells_lem :
    (n to : ℕ) (m : ℕ → Cell) (j : ℕ)
    → blank_cells n to m j ≡ (if leb to j && ltb j (to + n) then blanked (m j) else m j)
unfolding blank_cells poke
blank_cells_lem zero to m j = ground arith
blank_cells_lem (suc n) to m j =
    let ih = blank_cells_lem n (to + 1) (poke m to (blanked (m to))) j in ground (arith, ih)

scroll_rows_lem :
    (w n to : ℕ) (m : ℕ → Cell) (j : ℕ)
    → scroll_rows w (suc n) to m j ≡ (
        if leb to j && ltb j (to + suc n * w)
        then m (j + w)
        else if leb to j && ltb j (to + suc n * w + w)
        then blanked (m j)
        else m j)
unfolding scroll_rows
scroll_rows_lem w zero to m j =
    ground (arith, blank_cells_lem w (to + w) (copy_cells w w to m) j, copy_cells_lem w w to m j)
scroll_rows_lem w (suc n) to m j =
    let m' = blank_cells w (to + w) (copy_cells w w to m) in
    ground (
      arith,
      scroll_rows_lem w n (to + w) m' j,
      blank_cells_lem w (to + w) (copy_cells w w to m) j,
      copy_cells_lem w w to m j,
      blank_cells_lem w (to + w) (copy_cells w w to m) (j + w),
      copy_cells_lem w w to m (j + w),
    )

-- On a screen of two rows or more `text_scroll` moves every row up by one with its colours, blanks
-- the text of the last row, whose colours stay, and leaves the memory behind the screen alone.
pub text_scroll_lem :
    (s : Display) (j : ℕ)
    → 2 ≤ s.height
    → (text_scroll s).textbuf j ≡ (
        if ltb j (s.width * (s.height - 1))
        then s.textbuf (j + s.width)
        else if ltb j (s.width * s.height)
        then blanked (s.textbuf j)
        else s.textbuf j)
unfolding text_scroll
text_scroll_lem s j tall =
    let rows : s.height - 1 ≡ suc (s.height - 2) = omega arith in
    let whole : s.width * s.height ≡ suc (s.height - 2) * s.width + s.width =
      let e : s.height ≡ suc (suc (s.height - 2)) = omega arith in
      omega (arith, ap (λ (h : ℕ). s.width * h) e) in
    rw (rows, whole) (ground (arith, scroll_rows_lem s.width (s.height - 2) 0 s.textbuf j))
