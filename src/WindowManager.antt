-- ===== src/WindowManager.antt =====
-- programs/stubbywm/src/main.c: the window manager's state and the list of screen regions that it
-- has to draw again. An `int32_t` is its bit pattern, below `2 ^ 32`.
pub mod Screen
pub mod Draw
pub mod Events
mod Tests
use c4_os.Prelude.{
  ℕ, zero, suc, ◌+◌, ◌-◌, ◌%◌, ◌^◌, Bool, ◌&&◌, ◌||◌, ◌==◌, ltb, leb, if◌then◌else◌, add32, sub32,
  List,
}

-- `stubby_point_t`.
pub record Point : Type 0 where
  pub x : ℕ
  pub y : ℕ

-- `stubby_rect_t`.
pub record Rect : Type 0 where
  pub coord : Point
  pub rect_height : ℕ
  pub rect_width : ℕ

-- `window_t`; `pixels` is the memory at `buffer.vaddrptr`, by pixel.
pub record Window : Type 0 where
  pub rect : Rect
  pub pixels : ℕ → ℕ
  pub color : ℕ
  pub has_buffer : Bool
  pub to_port : ℕ
  pub from_port : ℕ
  pub sync_port : ℕ

-- `wm_update_t`.
pub record Update : Type 0 where
  pub lower : Point
  pub upper : Point

-- `ppm_t`; `pixbuf` is the memory from there on.
pub record Ppm : Type 0 where
  pub version : ℕ
  pub ppm_width : ℕ
  pub ppm_height : ℕ
  pub pixbuf : ℕ → ℕ

-- `wm_t`, with its list of windows from the bottom to the top of the stack. Both display buffers are
-- memories by pixel.
pub record Wm : Type 0 where
  pub windows : List Window
  pub mouse : Point
  pub mouse_cursor : Ppm
  pub updates : ℕ → Update
  pub num_updates : ℕ
  pub buffer : ℕ → ℕ
  pub framebuffer : ℕ → ℕ
  pub width : ℕ
  pub height : ℕ

abbrev pub max_updates : ℕ
max_updates = 128

-- `<` on `int32_t`, by the order of the patterns with the sign bit turned over.
abbrev pub int_less : ℕ → ℕ → Bool
int_less a b = ltb (add32 a (2 ^ 31)) (add32 b (2 ^ 31))

unfoldable pub reset_updates : Wm → Wm
reset_updates wm = record wm { num_updates = 0 }

-- One coordinate of `normalize_point`. The comparison with the size is unsigned.
abbrev pub clamp : ℕ → ℕ → ℕ
clamp size v = let low = if int_less v 0 then 0 else v in if ltb size low then size else low

unfoldable pub normalize_point : Wm → Point → Point
normalize_point wm p = record { x = clamp wm.width p.x; y = clamp wm.height p.y }

-- A write through a pointer into `updates`.
unfoldable pub write_update : Wm → ℕ → Update → Wm
write_update wm k up = record wm { updates = λ j. if j == k then up else wm.updates j }

-- `set_full_update`, with the result of its call of `alloc_update`: an index and the state.
unfoldable pub set_full_update : ℕ × Wm → Wm
unfolding write_update
set_full_update (k, wm) =
    write_update wm k
      (record { lower = record { x = 0; y = 0 }; upper = record { x = wm.width; y = wm.height } })

-- `alloc_update` and `set_full_update` call each other; the fuel bounds the depth. The result is the
-- index of the update that the source points to.
unfoldable pub alloc_update : ℕ → Wm → ℕ × Wm
unfolding reset_updates set_full_update
alloc_update zero wm = (wm.num_updates, wm)
alloc_update (suc fuel) wm =
    let next = record wm { num_updates = wm.num_updates + 1 } in
    let full = set_full_update (alloc_update fuel (reset_updates next)) in
    let after = if leb max_updates next.num_updates then full else next in
    (wm.num_updates, record after { num_updates = after.num_updates % max_updates })

-- Deep enough.
abbrev pub update_depth : ℕ
update_depth = 2

unfoldable pub point_less_than : Point → Point → Bool
point_less_than a b = int_less a.y b.y || (a.y == b.y && int_less a.x b.x)

unfoldable pub update_region : Wm → Point → Point → Wm
unfolding write_update
update_region wm a b =
    let (k, allocated) = alloc_update update_depth wm in
    let in_order = point_less_than a b in
    write_update allocated k (record {
      lower = normalize_point wm (if in_order then a else b);
      upper = normalize_point wm (if in_order then b else a);
    })

-- The lower right corner of a rectangle, on the screen.
unfoldable pub rect_max_coord : Wm → Rect → Point
unfolding normalize_point
rect_max_coord wm r =
    normalize_point wm
      (record { x = add32 r.coord.x r.rect_width; y = add32 r.coord.y r.rect_height })

unfoldable pub update_mouse_region : Wm → Wm
unfolding update_region
update_mouse_region wm = update_region wm wm.mouse (record {
  x = add32 wm.mouse.x wm.mouse_cursor.ppm_width;
  y = add32 wm.mouse.y wm.mouse_cursor.ppm_height;
})

abbrev pub border_size : ℕ
border_size = 3

abbrev pub titlebar_size : ℕ
titlebar_size = 25

-- The rectangle with its decorations.
unfoldable pub update_window_region : Wm → Window → Wm
unfolding update_region rect_max_coord normalize_point
update_window_region wm window =
    let b = rect_max_coord wm window.rect in
    update_region wm
      (normalize_point wm (record {
        x = sub32 window.rect.coord.x border_size;
        y = sub32 window.rect.coord.y titlebar_size;
      }))
      (normalize_point wm (record { x = add32 b.x border_size; y = add32 b.y border_size }))
