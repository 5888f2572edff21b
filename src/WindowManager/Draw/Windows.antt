-- ===== src/WindowManager/Draw/Windows.antt =====
-- What `draw_window` does to one pixel of the screen.
use native.Mathlib.Decide.{dec_lt}
use c4_os.Prelude.{
  ℕ, ◌+◌, ◌-◌, ◌*◌, ◌%◌, ◌≤◌, ◌<◌, ◌^◌, ◌≡◌, ap, ◌∙◌, Bool, true, false, ◌&&◌, ◌||◌, ◌==◌, ltb, leb,
  if◌then◌else◌, arith, add32, sub32, Bool-cases, inl, inr, not, min,
}
use c4_os.WindowManager.{Window, Update, Wm, int_less, clamp, rect_max_coord, normalize_point}
use c4_os.WindowManager.Screen.{inside, dirty, OnScreen}
use c4_os.WindowManager.Draw.{draw_pixel, window_pixel, draw_window_part, draw_window}
use c4_os.WindowManager.Draw.Pixels.{Fits, pixel_at, for_place, draw_pixel_lem, in_rect}
use c4_os.WindowManager.Draw.Colors.{shade-opaque}
use c4_os.WindowManager.Draw.Regions.{for_regions, at_place, IsDrawable}

-- A side of a window that keeps off both ends of the range of coordinates, by the size of its
-- decorations.
abbrev pub IsSide : ℕ → ℕ → Type 0
IsSide a size =
    (a < 2 ^ 32)
    × (size < 2 ^ 32)
    × (25 ≤ add32 a (2 ^ 31))
    × (add32 a (2 ^ 31) + size + 6 < 2 ^ 32)

abbrev start_of : ℕ → ℕ → ℕ
start_of low a = if int_less low a then a else low

abbrev end_of : ℕ → ℕ → ℕ → ℕ
end_of size a long = clamp size (add32 a long)

int_less_plain : (a b : ℕ) → a < 2 ^ 31 → b < 2 ^ 31 → int_less a b ≡ ltb a b
int_less_plain a b ha hb = ground arith

side_end :
    (size a long p : ℕ)
    → IsSide a long
    → size < 2 ^ 31
    → p < size
    → (not (int_less p a) && ltb p (end_of size a long)) ≡ ltb (sub32 p a) long
side_end size a long p is hs hp = ground (arith, is)

-- The part of a window between two bounds, from the order of the coordinates alone.
side_between :
    (a e low high p : ℕ)
    → a < 2 ^ 32
    → e < 2 ^ 31
    → low < 2 ^ 31
    → high < 2 ^ 31
    → p < 2 ^ 31
    → (int_less a high
        && not (ltb e low)
        && (leb (start_of low a) p && ltb p (start_of low a + (min e high - start_of low a))))
      ≡ (leb low p && ltb p high && (not (int_less p a) && ltb p e))
side_between a e low high p ha he hl hh hp = elim (dec_lt a (2 ^ 31)) [
  | yes plain ↦
      rw
        (int_less_plain a high plain hh, int_less_plain low a hl plain, int_less_plain p a hp plain)
        (ground arith)
  | no negative ↦
      let before : int_less a high ≡ true = ground arith in
      let first : int_less low a ≡ false = ground arith in
      let after : int_less p a ≡ false = ground arith in rw (before, first, after) (ground arith)
]

-- One coordinate: the test and the loop together ask whether the place is in the window.
side :
    (size a long low high p : ℕ)
    → IsSide a long
    → size < 2 ^ 31
    → low ≤ size
    → high ≤ size
    → p < size
    → (int_less a high
        && not (int_less (end_of size a long) low)
        && (leb (start_of low a) p
            && ltb p (start_of low a + (min (end_of size a long) high - start_of low a))))
      ≡ (leb low p && ltb p high && ltb (sub32 p a) long)
side size a long low high p is hs hl hh hp =
    let e = end_of size a long in
    let on : e ≤ size = ground arith in
    let plain = int_less_plain e low (omega arith) (omega arith) in
    let between =
      side_between a e low high p is.0 (omega arith) (omega arith) (omega arith) (omega arith) in
    let ending = side_end size a long p is hs hp in
    rw plain (between ∙ ap (λ (t : Bool). leb low p && ltb p high && t) ending)

-- A window that keeps off the ends of the range of coordinates and has no pixel with an alpha value.
pub record IsPlain (window : Window) : Type 0 where
  pub side_x : IsSide window.rect.coord.x window.rect.rect_width
  pub side_y : IsSide window.rect.coord.y window.rect.rect_height
  pub opaque : (i : ℕ) → (if window.has_buffer then window.pixels i else window.color) < 2 ^ 24

window_pixel-opaque :
    (window : Window) (x y : ℕ) → IsPlain window → window_pixel window x y < 2 ^ 24
unfolding window_pixel
window_pixel-opaque window x y plain = plain.opaque (
    add32 (sub32 y window.rect.coord.y * window.rect.rect_width % 2 ^ 32)
      (sub32 x window.rect.coord.x))

window_round :
    (wm : Wm) (window : Window) (up : Update) (px py : ℕ) (buf : ℕ → ℕ)
    → Fits wm.width wm.height
    → IsPlain window
    → OnScreen wm up.lower
    → OnScreen wm up.upper
    → px < wm.width
    → py < wm.height
    → pixel_at wm.width (draw_window_part wm window up buf) px py ≡ (
        if inside up px py && in_rect window.rect px py
        then window_pixel window px py
        else pixel_at wm.width buf px py)
unfolding draw_window_part rect_max_coord normalize_point
window_round wm window up px py buf fits plain low high hx hy =
    let a = window.rect.coord in
    let b = rect_max_coord wm window.rect in
    let y_start = start_of up.lower.y a.y in
    let x_start = start_of up.lower.x a.x in
    let value = window_pixel window px py in
    let in_x =
      side wm.width a.x window.rect.rect_width up.lower.x up.upper.x px plain.side_x
        (omega (arith, fits)) low.0 high.0 hx in
    let in_y =
      side wm.height a.y window.rect.rect_height up.lower.y up.upper.y py plain.side_y
        (omega (arith, fits)) low.1 high.1 hy in
    let loops =
      for_place wm.width wm.height fits
        (λ x y. draw_pixel wm.width wm.height x y (window_pixel window x y)) (λ c. value) px py px
        py (min b.y up.upper.y - y_start) (min b.x up.upper.x - x_start) y_start x_start
        (λ x y s gx lx gy ly.
          draw_pixel_lem wm.width wm.height fits x y (window_pixel window x y) px py s hx hy
            (omega (arith, gx, lx, high, fits)) (omega (arith, gy, ly, high, fits))
          ∙ ap (λ c. if x == px && y == py then c else pixel_at wm.width s px py)
              (shade-opaque (pixel_at wm.width s px py) (window_pixel window x y)
                (window_pixel-opaque window x y plain))
          ∙ at_place (window_pixel window) x y px py (pixel_at wm.width s px py))
        buf in
    elim (Bool-cases (not (int_less a.y up.upper.y) || int_less b.y up.lower.y)) [
      | inl e ↦ rw e (ground (arith, in_x, in_y, e))
      | inr e ↦ elim (Bool-cases (not (int_less a.x up.upper.x) || int_less b.x up.lower.x)) [
        | inl e' ↦ rw (e, e') (ground (arith, in_x, in_y, e, e'))
        | inr e' ↦ rw (e, e') (loops ∙ ground (arith, in_x, in_y, e, e'))
      ]
    ]

-- `draw_window` leaves the window's own pixels where it lies in a region that is to be drawn, and
-- nothing else of the screen changes.
pub draw_window_lem :
    (wm : Wm) (window : Window) (px py : ℕ) (buf : ℕ → ℕ)
    → IsDrawable wm
    → IsPlain window
    → px < wm.width
    → py < wm.height
    → pixel_at wm.width (draw_window wm window buf) px py ≡ (
        if dirty wm px py && in_rect window.rect px py
        then window_pixel window px py
        else pixel_at wm.width buf px py)
unfolding draw_window
draw_window_lem wm window px py buf ok plain hx hy =
    for_regions wm.width px py (window_pixel window px py) wm.updates (in_rect window.rect px py) _
      wm.num_updates
      (λ k b h.
        let (low, high) = ok.1.1 k h in
        window_round wm window (wm.updates k) px py b ok.0 plain low high hx hy)
      buf
