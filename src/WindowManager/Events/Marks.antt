-- ===== src/WindowManager/Events/Marks.antt =====
-- What the regions marked for a window and for the cursor contain.
use native.Mathlib.Decide.{dec_lt}
use c4_os.Prelude.{
  ℕ, ◌+◌, ◌/◌, ◌≤◌, ◌<◌, ◌^◌, ◌≡◌, refl, false, ◌&&◌, ltb, leb, arith, add32, sub32, Bool-cases,
  inl, inr,
}
use c4_os.WindowManager.{
  Point, Rect, Window, Wm, clamp, update_region, update_window_region, write_update,
  set_full_update, rect_max_coord, normalize_point,
}
use c4_os.WindowManager.Screen.{
  dirty, IsValid, dirty-update_region, update_region_next, update_region_last,
}
use c4_os.WindowManager.Draw.{titlebar, text_placeholder, left_border, right_border, bottom_border}
use c4_os.WindowManager.Draw.Pixels.{Fits, in_rect}
use c4_os.WindowManager.Draw.Windows.{IsSide}

-- The sides of what `update_window_region` marks.
abbrev pub mark_from : ℕ → ℕ → ℕ → ℕ
mark_from size a edge = clamp size (sub32 a edge)

abbrev pub mark_to : ℕ → ℕ → ℕ → ℕ
mark_to size a long = clamp size (add32 (clamp size (add32 a long)) 3)

mark_order :
    (size a long edge : ℕ)
    → IsSide a long
    → edge ≤ 25
    → size + 3 < 2 ^ 31
    → mark_from size a edge ≤ mark_to size a long
mark_order size a long edge is thin small = ground (arith, is)

mark_range : (size a : ℕ) → size + 3 < 2 ^ 31 → clamp size a < 2 ^ 31
mark_range size a small = ground arith

-- A place that is not marked along one side is in none of the window's rectangles.
outside_x :
    (size a long p : ℕ)
    → IsSide a long
    → size + 3 < 2 ^ 31
    → p < size
    → (leb (mark_from size a 3) p && ltb p (mark_to size a long)) ≡ false
    → (ltb (sub32 p a) long ≡ false)
      × (ltb (sub32 p (sub32 a 3)) (add32 long 6) ≡ false)
      × (ltb (sub32 p (sub32 a 3)) 3 ≡ false)
      × (ltb (sub32 p (add32 a long)) 3 ≡ false)
      × (ltb (sub32 p (sub32 (add32 a 5) 3)) (long / 4) ≡ false)
outside_x size a long p is small on out = (
  ground (arith, is, out),
  ground (arith, is, out),
  ground (arith, is, out),
  ground (arith, is, out),
  ground (arith, is, out),
)

outside_y :
    (size a long p : ℕ)
    → IsSide a long
    → size + 3 < 2 ^ 31
    → p < size
    → (leb (mark_from size a 25) p && ltb p (mark_to size a long)) ≡ false
    → (ltb (sub32 p a) long ≡ false)
      × (ltb (sub32 p (sub32 a 25)) 25 ≡ false)
      × (ltb (sub32 p (sub32 a 20)) 15 ≡ false)
      × (ltb (sub32 p a) (add32 long 3) ≡ false)
      × (ltb (sub32 p (add32 a long)) 3 ≡ false)
outside_y size a long p is small on out = (
  ground (arith, is, out),
  ground (arith, is, out),
  ground (arith, is, out),
  ground (arith, is, out),
  ground (arith, is, out),
)

-- Of the state, a mark changes the regions only.
pub update_region_fields :
    (wm : Wm) (a b : Point)
    → IsValid wm
    → update_region wm a b ≡ record wm {
      updates = (update_region wm a b).updates;
      num_updates = (update_region wm a b).num_updates;
    }
unfolding write_update set_full_update
update_region_fields wm a b valid = elim (dec_lt wm.num_updates 127) [
  | yes room ↦ rw (update_region_next wm a b room) refl
  | no full ↦ rw (update_region_last wm a b (omega (arith, valid.0))) refl
]

-- A place of the screen is clean when it is in no region that is to be drawn.
abbrev pub IsClean : Wm → ℕ → ℕ → Type 0
IsClean wm px py = dirty wm px py ≡ false

-- What is clean after a mark was clean before it, and is outside of the mark.
pub update_region-IsClean :
    (wm : Wm) (a b : Point) (px py : ℕ)
    → IsValid wm
    → a.x ≤ b.x
    → a.y ≤ b.y
    → b.x < 2 ^ 31
    → b.y < 2 ^ 31
    → px < wm.width
    → py < wm.height
    → IsClean (update_region wm a b) px py
    → IsClean wm px py × ((leb a.x px && ltb px b.x && (leb a.y py && ltb py b.y)) ≡ false)
update_region-IsClean wm a b px py valid hx hy bx by on_x on_y clean =
    let all = dirty-update_region wm a b px py valid hx hy bx by in
    (ground (arith, clean, all), ground (arith, clean, all))

pub record IsOutside (r : Rect) (px py : ℕ) : Type 0 where
  pub own : in_rect r px py ≡ false
  pub title : in_rect (titlebar r) px py ≡ false
  pub text : in_rect (text_placeholder r) px py ≡ false
  pub left : in_rect (left_border r) px py ≡ false
  pub right : in_rect (right_border r) px py ≡ false
  pub bottom : in_rect (bottom_border r) px py ≡ false

-- A clean place after a window was marked: the window and its decorations are elsewhere.
pub update_window_region-IsOutside :
    (wm : Wm) (window : Window) (px py : ℕ)
    → IsValid wm
    → Fits wm.width wm.height
    → IsSide window.rect.coord.x window.rect.rect_width
    → IsSide window.rect.coord.y window.rect.rect_height
    → px < wm.width
    → py < wm.height
    → IsClean (update_window_region wm window) px py
    → IsClean wm px py × IsOutside window.rect px py
unfolding update_window_region rect_max_coord normalize_point
update_window_region-IsOutside wm window px py valid fits sx sy on_x on_y clean =
    let r = window.rect in
    let max = rect_max_coord wm r in
    let a = normalize_point wm (record { x = sub32 r.coord.x 3; y = sub32 r.coord.y 25 }) in
    let b = normalize_point wm (record { x = add32 max.x 3; y = add32 max.y 3 }) in
    let (before, out) =
      update_region-IsClean wm a b px py valid
        (mark_order wm.width r.coord.x r.rect_width 3 sx (omega arith) fits.0)
        (mark_order wm.height r.coord.y r.rect_height 25 sy (omega arith) fits.1)
        (mark_range wm.width (add32 max.x 3) fits.0) (mark_range wm.height (add32 max.y 3) fits.1)
        on_x on_y clean in
    let both : ((leb (mark_from wm.width r.coord.x 3) px
            && ltb px (mark_to wm.width r.coord.x r.rect_width))
          && (leb (mark_from wm.height r.coord.y 25) py
              && ltb py (mark_to wm.height r.coord.y r.rect_height)))
        ≡ false =
      out in
    (
      before,
      elim (Bool-cases (
          leb (mark_from wm.width r.coord.x 3) px
          && ltb px (mark_to wm.width r.coord.x r.rect_width))) [
            | inl e ↦
                let o =
                  outside_y wm.height r.coord.y r.rect_height py sy fits.1 on_y
                    (ground (arith, e, both)) in
                record {
                  own = rw o.0 refl;
                  title = rw o.1 refl;
                  text = rw o.2 refl;
                  left = rw o.3 refl;
                  right = rw o.3 refl;
                  bottom = rw o.4 refl;
                }
            | inr e ↦
                let o = outside_x wm.width r.coord.x r.rect_width px sx fits.0 on_x e in
                record {
                  own = ground (arith, o.0);
                  title = ground (arith, o.1);
                  text = ground (arith, o.4);
                  left = ground (arith, o.2);
                  right = ground (arith, o.3);
                  bottom = ground (arith, o.0);
                }
          ],
    )
