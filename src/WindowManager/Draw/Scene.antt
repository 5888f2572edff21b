-- ===== src/WindowManager/Draw/Scene.antt =====
-- A description of the screen by pixel, against which a frame is compared.
use c4_os.Prelude.{ℕ, ◌&&◌, ◌==◌, if◌then◌else◌, sub32, not, List, [], ◌∷◌}
use c4_os.WindowManager.{Point, Rect, Window, Ppm, Wm}
use c4_os.WindowManager.Draw.{
  background, ppm_pixel, see_through, titlebar, text_placeholder, left_border, right_border,
  bottom_border, bar, placeholder, window_pixel,
}
use c4_os.WindowManager.Draw.Pixels.{in_rect, image_rect}

-- A colour over what is below, in a rectangle.
abbrev pub over : Rect → ℕ → ℕ → ℕ → ℕ → ℕ
over r color px py below = if in_rect r px py then color else below

-- What a window and its decoration show of a place.
abbrev pub decoration_scene : Rect → ℕ → ℕ → ℕ → ℕ
decoration_scene r px py below =
    let top = over (text_placeholder r) 0xc0c0c0 px py (over (titlebar r) 0x202020 px py below) in
    let sides = over (right_border r) 0x202020 px py (over (left_border r) 0x202020 px py top) in
    over (bottom_border r) 0x202020 px py sides

-- The windows, the last one on top.
unfoldable pub windows_scene : List Window → ℕ → ℕ → ℕ → ℕ
windows_scene [] px py below = below
windows_scene (window ∷ rest) px py below =
    windows_scene rest px py (
      decoration_scene window.rect px py (over window.rect (window_pixel window px py) px py below))

abbrev pub status_scene : ℕ → ℕ → ℕ → ℕ → ℕ → ℕ
status_scene width height px py below =
    let low =
      over (placeholder height 5 15) 0x202020 px py
        (over (bar width height) 0xc0c0c0 px py below) in
    over (placeholder height (sub32 width 65) 60) 0x808080 px py
      (over (placeholder height 25 60) 0x808080 px py low)

-- The mouse cursor, whose transparent pixels show what is below.
abbrev pub cursor_scene : Ppm → Point → ℕ → ℕ → ℕ → ℕ
cursor_scene ppm at px py below =
    let pixel = ppm_pixel ppm (sub32 px at.x) (sub32 py at.y) in
    if in_rect (image_rect ppm at) px py && not (pixel == see_through) then pixel else below

-- The whole screen: the background, the windows, the status bar and the cursor.
abbrev pub scene : Wm → ℕ → ℕ → ℕ
scene wm px py =
    cursor_scene wm.mouse_cursor wm.mouse px py
      (status_scene wm.width wm.height px py (windows_scene wm.windows px py (background px py)))
