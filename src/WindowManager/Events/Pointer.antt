-- ===== src/WindowManager/Events/Pointer.antt =====
-- On what the framebuffer shows outside of the regions to draw: the place of the mouse.
use c4_os.Prelude.{append-nil, ℕ, ◌<◌, ◌≡◌, refl, ap, ap₂, ◌∙◌, sym, false, arith, []}
use c4_os.WindowManager.{Point, Rect, Ppm, Wm, update_mouse_region, normalize_point}
use c4_os.WindowManager.Screen.{IsValid}
use c4_os.WindowManager.Draw.Pixels.{in_rect, image_rect}
use c4_os.WindowManager.Events.{rejoin, MouseEvent, mouse_windows, handle_mouse, move_mouse}
use c4_os.WindowManager.Events.Marks.{IsClean, update_region_fields, update_region-IsClean}
use c4_os.WindowManager.Events.Shown.{IsSteady, IsShown, update_region-IsShown, rejoin-rejoin}
use c4_os.WindowManager.Events.Mouse.{mouse_windows-IsCarried}

-- What is clean after the cursor's place was marked is not under the cursor.
mouse_away :
    (wm : Wm) (px py : ℕ)
    → IsSteady wm
    → px < wm.width
    → py < wm.height
    → IsClean (update_mouse_region wm) px py
    → IsClean wm px py × (in_rect (image_rect wm.mouse_cursor wm.mouse) px py ≡ false)
unfolding update_mouse_region
mouse_away wm px py steady on_x on_y clean =
    let mx = steady.pointer.mouse_x in
    let my = steady.pointer.mouse_y in
    let cx = steady.pointer.cursor_x in
    let cy = steady.pointer.cursor_y in
    let (before, out) =
      update_region-IsClean wm wm.mouse _ px py steady.valid (omega (arith, mx, cx))
        (omega (arith, my, cy)) (omega (arith, mx, cx)) (omega (arith, my, cy)) on_x on_y clean in
    (before, ground (arith, out, mx, my, cx, cy))

-- `update_mouse_region` and a new place of the mouse.
pub mouse_marked-IsShown : (wm : Wm) → IsShown wm → IsShown (update_mouse_region wm)
unfolding update_mouse_region
mouse_marked-IsShown wm shown = update_region-IsShown wm _ _ shown.steady (λ px py on_x on_y clean.
    shown.shows px py on_x on_y (mouse_away wm px py shown.steady on_x on_y clean).0)

moved-IsSteady : (wm : Wm) (ev : MouseEvent) → IsSteady wm → IsSteady (move_mouse wm ev)
unfolding move_mouse normalize_point
moved-IsSteady wm ev steady = record {
  valid = steady.valid;
  fits = steady.fits;
  placed = steady.placed;
  pointer = record {
    mouse_x = ground arith;
    mouse_y = ground arith;
    cursor_x = steady.pointer.cursor_x;
    cursor_y = steady.pointer.cursor_y;
    cursor_bytes = steady.pointer.cursor_bytes;
  };
}

-- The mouse moves from a place that is marked to one that is marked then.
moved-IsShown :
    (wm : Wm) (ev : MouseEvent)
    → IsShown wm
    → ((px py : ℕ)
        → px < wm.width
        → py < wm.height
        → IsClean wm px py
        → in_rect (image_rect wm.mouse_cursor wm.mouse) px py ≡ false)
    → IsShown (update_mouse_region (move_mouse wm ev))
unfolding update_mouse_region move_mouse
moved-IsShown wm ev shown away =
    let moved = move_mouse wm ev in
    let steady = moved-IsSteady wm ev shown.steady in
    update_region-IsShown moved _ _ steady (λ px py on_x on_y clean.
      let (before, new) = mouse_away moved px py steady on_x on_y clean in
      let old = away px py on_x on_y before in
      shown.shows px py on_x on_y before ∙ rw (old, new) refl)

pub mouse_fields :
    (wm : Wm)
    → IsValid wm
    → update_mouse_region wm ≡ record wm {
      updates = (update_mouse_region wm).updates;
      num_updates = (update_mouse_region wm).num_updates;
    }
unfolding update_mouse_region
mouse_fields wm valid = update_region_fields wm _ _ valid

-- A mouse event keeps the framebuffer showing the scene outside of the regions to draw.
pub handle_mouse-IsShown : (wm : Wm) (ev : MouseEvent) → IsShown wm → IsShown (handle_mouse wm ev)
unfolding handle_mouse rejoin
handle_mouse-IsShown wm ev shown =
    let marked = update_mouse_region wm in
    let f = mouse_fields wm shown.steady.valid in
    let c =
      mouse_windows-IsCarried marked ev (rejoin marked.windows []) []
        (mouse_marked-IsShown wm shown)
        (sym (rejoin-rejoin marked.windows [] [] ∙ append-nil marked.windows)) in
    let acted = mouse_windows marked ev (rejoin marked.windows []) [] in
    let same : image_rect acted.mouse_cursor acted.mouse ≡ image_rect wm.mouse_cursor wm.mouse =
      ap₂ (λ (ppm : Ppm) (at : Point). image_rect ppm at) c.same_cursor c.same_mouse
      ∙ ap (λ (s : Wm). image_rect s.mouse_cursor s.mouse) f in
    let wide = ap (λ (s : Wm). s.width) f in
    let high = ap (λ (s : Wm). s.height) f in
    moved-IsShown acted ev c.shown (λ px py on_x on_y clean.
      let marked_x : px < marked.width = omega (arith, on_x, c.same_width) in
      let marked_y : py < marked.height = omega (arith, on_y, c.same_height) in
      ap (λ (r : Rect). in_rect r px py) same
      ∙ (mouse_away wm px py shown.steady (omega (arith, marked_x, wide))
          (omega (arith, marked_y, high)) (c.clean px py marked_x marked_y clean)).1)
