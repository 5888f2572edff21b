-- ===== src/WindowManager/Draw/Frame.antt =====
-- One frame, against a description of the screen by pixel.
use c4_os.Prelude.{
  ℕ, ◌+◌, ◌*◌, ◌%◌, ◌<◌, ◌^◌, ◌≡◌, refl, ap, ◌∙◌, true, ◌&&◌, if◌then◌else◌, arith, sub32,
  Bool-cases, inl, inr, List, [], ◌∷◌, All,
}
use c4_os.Prelude.Bits.{bit_or_shifted}
use c4_os.WindowManager.{Point, Rect, Window, Ppm, Wm, reset_updates}
use c4_os.WindowManager.Screen.{dirty}
use c4_os.WindowManager.Draw.{
  ppm_pixel, titlebar, text_placeholder, left_border, right_border, bottom_border, bar, placeholder,
  draw_rect, ppm_draw, draw_window_decoration, draw_status_bar, draw_background, window_pixel,
  draw_window, draw_windows_from, draw_windows, draw_framebuffer, frame,
}
use c4_os.WindowManager.Draw.Pixels.{
  Fits, pixel_at, in_rect, IsRect, image_rect, draw_rect_lem, ppm_draw_lem,
}
use c4_os.WindowManager.Draw.Colors.{shade-opaque}
use c4_os.WindowManager.Draw.Regions.{IsDrawable, draw_background_lem, draw_framebuffer_lem}
use c4_os.WindowManager.Draw.Windows.{IsPlain, draw_window_lem}
use c4_os.WindowManager.Draw.Scene.{
  over, decoration_scene, windows_scene, status_scene, cursor_scene, scene,
}

module _ (width height : ℕ) (fits : Fits width height) where
  rect_over :
      (r : Rect) (color px py : ℕ) (buf : ℕ → ℕ)
      → IsRect r
      → color < 2 ^ 24
      → px < width
      → py < height
      → pixel_at width (draw_rect width height r color buf) px py
        ≡ over r color px py (pixel_at width buf px py)
  rect_over r color px py buf is small hx hy =
      draw_rect_lem width height fits r color px py buf is hx hy
      ∙ ap (λ c. if in_rect r px py then c else pixel_at width buf px py)
          (shade-opaque (pixel_at width buf px py) color small)

  decoration_over :
      (window : Window) (px py : ℕ) (buf : ℕ → ℕ)
      → IsRect window.rect
      → px < width
      → py < height
      → pixel_at width (draw_window_decoration width height window buf) px py
        ≡ decoration_scene window.rect px py (pixel_at width buf px py)
  unfolding draw_window_decoration
  decoration_over window px py buf is hx hy =
      let r = window.rect in
      let gray : ℕ = 0x202020 in
      let a = draw_rect width height (titlebar r) gray buf in
      let b = draw_rect width height (text_placeholder r) 0xc0c0c0 a in
      let c = draw_rect width height (left_border r) gray b in
      let d = draw_rect width height (right_border r) gray c in
      let small : gray < 2 ^ 24 = omega arith in
      rect_over (bottom_border r) gray px py d (omega (arith, is)) small hx hy
      ∙ ap (over (bottom_border r) gray px py) (
          rect_over (right_border r) gray px py c (omega (arith, is)) small hx hy
          ∙ ap (over (right_border r) gray px py) (
              rect_over (left_border r) gray px py b (omega (arith, is)) small hx hy
              ∙ ap (over (left_border r) gray px py) (
                  rect_over (text_placeholder r) 0xc0c0c0 px py a (omega (arith, is)) (omega arith)
                    hx hy
                  ∙ ap (over (text_placeholder r) 0xc0c0c0 px py)
                      (rect_over (titlebar r) gray px py buf (omega (arith, is)) small hx hy))))

  status_over :
      (px py : ℕ) (buf : ℕ → ℕ)
      → px < width
      → py < height
      → pixel_at width (draw_status_bar width height buf) px py
        ≡ status_scene width height px py (pixel_at width buf px py)
  unfolding draw_status_bar
  status_over px py buf hx hy =
      let gray : ℕ = 0x808080 in
      let icon = placeholder height 5 15 in
      let text = placeholder height 25 60 in
      let time = placeholder height (sub32 width 65) 60 in
      let a = draw_rect width height (bar width height) 0xc0c0c0 buf in
      let b = draw_rect width height icon 0x202020 a in
      let c = draw_rect width height text gray b in
      let small : gray < 2 ^ 24 = omega arith in
      rect_over time gray px py c (omega (arith, fits)) small hx hy
      ∙ ap (over time gray px py) (
          rect_over text gray px py b (omega (arith, fits)) small hx hy
          ∙ ap (over text gray px py) (
              rect_over icon 0x202020 px py a (omega (arith, fits)) (omega arith) hx hy
              ∙ ap (over icon 0x202020 px py) (
                  rect_over (bar width height) 0xc0c0c0 px py buf (omega (arith, fits))
                    (omega arith) hx hy)))

  -- The bytes of an image make a colour without an alpha value.
  ppm_pixel_range :
      (ppm : Ppm) (x y : ℕ) → ((i : ℕ) → ppm.pixbuf i < 2 ^ 8) → ppm_pixel ppm x y < 2 ^ 24
  unfolding ppm_pixel
  ppm_pixel_range ppm x y bytes =
      let i = (y * ppm.ppm_width + x) % 2 ^ 32 * 3 % 2 ^ 32 in
      let red = ppm.pixbuf i in
      let green = ppm.pixbuf (i + 1) in
      let low : red * 2 ^ 16 + green * 2 ^ 8 ≡ (red * 2 ^ 8 + green) * 2 ^ 8 = omega arith in
      let r = bytes i in
      let g = bytes (i + 1) in
      let b = bytes (i + 2) in
      rw
        (
          bit_or_shifted 16 red (green * 2 ^ 8) (omega (arith, g)),
          low,
          bit_or_shifted 8 (red * 2 ^ 8 + green) (ppm.pixbuf (i + 2)) b,
        )
        (omega (arith, r, g, b))

  cursor_over :
      (ppm : Ppm) (at : Point) (px py : ℕ) (buf : ℕ → ℕ)
      → IsRect (image_rect ppm at)
      → ((i : ℕ) → ppm.pixbuf i < 2 ^ 8)
      → px < width
      → py < height
      → pixel_at width (ppm_draw width height ppm at buf) px py
        ≡ cursor_scene ppm at px py (pixel_at width buf px py)
  cursor_over ppm at px py buf is bytes hx hy =
      let pixel = ppm_pixel ppm (sub32 px at.x) (sub32 py at.y) in
      let small = ppm_pixel_range ppm (sub32 px at.x) (sub32 py at.y) bytes in
      let one = ppm_draw_lem width height fits ppm at px py buf is hx hy in
      let clear = shade-opaque (pixel_at width buf px py) pixel small in one ∙ ground (arith, clear)

-- Every layer of a place that is to be drawn.
windows_over :
    (wm : Wm) (windows : List Window) (px py : ℕ) (buf : ℕ → ℕ)
    → IsDrawable wm
    → All IsPlain windows
    → px < wm.width
    → py < wm.height
    → dirty wm px py ≡ true
    → pixel_at wm.width (draw_windows_from wm windows buf) px py
      ≡ windows_scene windows px py (pixel_at wm.width buf px py)
unfolding draw_windows_from windows_scene
windows_over wm [] px py buf ok plain hx hy is = refl
windows_over wm (window ∷ rest) px py buf ok plain hx hy is =
    let one = draw_window wm window buf in
    let p = plain.0 in
    let rect : IsRect window.rect = (p.side_x.0, p.side_y.0, p.side_x.1, p.side_y.1) in
    let own =
      draw_window_lem wm window px py buf ok p hx hy
      ∙ ap
          (λ t.
            if t && in_rect window.rect px py
            then window_pixel window px py
            else pixel_at wm.width buf px py)
          is in
    let framed = decoration_over wm.width wm.height ok.0 window px py one rect hx hy in
    windows_over wm rest px py (draw_window_decoration wm.width wm.height window one) ok plain.1 hx
      hy is
    ∙ ap (windows_scene rest px py) (framed ∙ ap (decoration_scene window.rect px py) own)

-- What the screen's picture is made of: sizes and coordinates of 32 bits, and no alpha values.
pub record IsPicture (wm : Wm) : Type 0 where
  pub windows_plain : All IsPlain wm.windows
  pub cursor_rect : IsRect (image_rect wm.mouse_cursor wm.mouse)
  pub cursor_bytes : (i : ℕ) → wm.mouse_cursor.pixbuf i < 2 ^ 8

-- On a screen below 2 ^ 31 in both sizes that memory can hold, with valid regions, windows that do
-- not come near the ends of the range of coordinates and no alpha values, one frame shows exactly the scene
-- (the background, the windows with their decorations from the bottom to the top, the status bar and
-- the cursor) in every place of a region that was to be drawn, leaves every other place of the
-- framebuffer as it was, and has no region left to draw.
pub frame-scene :
    (wm : Wm) (px py : ℕ)
    → IsDrawable wm
    → IsPicture wm
    → px < wm.width
    → py < wm.height
    → (pixel_at wm.width (frame wm).framebuffer px py
        ≡ (if dirty wm px py then scene wm px py else pixel_at wm.width wm.framebuffer px py))
      × ((frame wm).num_updates ≡ 0)
unfolding frame reset_updates draw_windows draw_background draw_framebuffer
frame-scene wm px py ok picture hx hy =
    let painted = draw_background wm in
    let below = draw_windows painted in
    let bar_drawn = draw_status_bar wm.width wm.height below.buffer in
    let all = ppm_draw wm.width wm.height wm.mouse_cursor wm.mouse bar_drawn in
    let shown = draw_framebuffer_lem (record below { buffer = all }) px py ok hx hy in
    let cursor =
      cursor_over wm.width wm.height ok.0 wm.mouse_cursor wm.mouse px py bar_drawn
        picture.cursor_rect picture.cursor_bytes hx hy in
    let status = status_over wm.width wm.height ok.0 px py below.buffer hx hy in
    let ground_layer = draw_background_lem wm px py ok hx hy in
    (
      shown ∙ (elim (Bool-cases (dirty wm px py)) [
        | inl e ↦
            let layers =
              windows_over painted wm.windows px py painted.buffer ok picture.windows_plain hx hy
                e in
            rw e (
              cursor
              ∙ ap (cursor_scene wm.mouse_cursor wm.mouse px py) (
                  status
                  ∙ ap (status_scene wm.width wm.height px py)
                      (layers ∙ ap (windows_scene wm.windows px py) (ground_layer ∙ rw e refl))))
        | inr e ↦ rw e refl
      ]),
      refl,
    )
