-- ===== src/WindowManager/Draw.antt =====
-- programs/stubbywm/src/main.c and ppm.c: drawing into the buffer, and one frame of `event_loop`.
-- Loops that count up by one are calls of `for_range`.
pub mod Pixels
pub mod Colors
pub mod Regions
pub mod Windows
pub mod Scene
pub mod Frame
use Prim.Native.Nat.{bit_or, bit_xor}
use c4_os.Prelude.{
  ℕ, zero, suc, ◌+◌, ◌-◌, ◌*◌, ◌/◌, ◌%◌, ◌^◌, min, Bool, ◌||◌, ◌==◌, ltb, leb, not, if◌then◌else◌,
  add32, sub32, List, [], ◌∷◌,
}
use c4_os.WindowManager.{
  Point, Rect, Window, Update, Ppm, Wm, int_less, rect_max_coord, reset_updates, border_size,
  titlebar_size,
}

-- `for (i = from; i < from + n; i++)`.
unfoldable pub for_range {ℓ} : {S : Type ℓ} → ℕ → ℕ → (ℕ → S → S) → S → S
for_range zero from body s = s
for_range (suc n) from body s = for_range n (from + 1) body (body from s)

unfoldable pub mix_channel : ℕ → ℕ → ℕ → ℕ
mix_channel a b alpha = (a * (255 - alpha) + b * alpha) / 255 % 2 ^ 8

-- What `draw_pixel` leaves of a pixel that was `temp`.
unfoldable pub shade : ℕ → ℕ → ℕ
unfolding mix_channel
shade temp pixel =
    let alpha = pixel / 2 ^ 24 % 2 ^ 8 in
    let red = mix_channel (temp / 2 ^ 16 % 2 ^ 8) (pixel / 2 ^ 16 % 2 ^ 8) alpha in
    let green = mix_channel (temp / 2 ^ 8 % 2 ^ 8) (pixel / 2 ^ 8 % 2 ^ 8) alpha in
    let blue = mix_channel (temp % 2 ^ 8) (pixel % 2 ^ 8) alpha in
    if pixel / 2 ^ 24 % 2 ^ 8 == 0
    then pixel
    else bit_or (bit_or (red * 2 ^ 16) (green * 2 ^ 8)) blue

-- The pattern of the background.
unfoldable pub background : ℕ → ℕ → ℕ
background x y =
    let thing = (bit_xor x y / 4 + 0xa0) % 2 ^ 8 in
    bit_or (bit_or (thing / 2 * 2 ^ 16) (thing * 2 ^ 9)) thing

-- The pixel of an image, from its three bytes.
unfoldable pub ppm_pixel : Ppm → ℕ → ℕ → ℕ
ppm_pixel ppm x y =
    let start = (y * ppm.ppm_width + x) % 2 ^ 32 * 3 % 2 ^ 32 in
    bit_or (bit_or (ppm.pixbuf start * 2 ^ 16) (ppm.pixbuf (start + 1) * 2 ^ 8))
      (ppm.pixbuf (start + 2))

-- Pixels of this colour are not drawn.
abbrev pub see_through : ℕ
see_through = 0x00ff00

-- The rectangles of a window's decoration.
abbrev pub titlebar : Rect → Rect
titlebar r = record {
  coord = record { x = sub32 r.coord.x border_size; y = sub32 r.coord.y titlebar_size };
  rect_height = titlebar_size;
  rect_width = add32 r.rect_width (border_size * 2);
}

abbrev pub text_placeholder : Rect → Rect
text_placeholder r = record {
  coord = record { x = sub32 (add32 r.coord.x 5) border_size; y = sub32 r.coord.y 20 };
  rect_height = 15;
  rect_width = r.rect_width / 4;
}

abbrev pub left_border : Rect → Rect
left_border r = record {
  coord = record { x = sub32 r.coord.x border_size; y = r.coord.y };
  rect_height = add32 r.rect_height border_size;
  rect_width = border_size;
}

abbrev pub right_border : Rect → Rect
right_border r = record {
  coord = record { x = add32 r.coord.x r.rect_width; y = r.coord.y };
  rect_height = add32 r.rect_height border_size;
  rect_width = border_size;
}

abbrev pub bottom_border : Rect → Rect
bottom_border r = record {
  coord = record { x = r.coord.x; y = add32 r.coord.y r.rect_height };
  rect_height = border_size;
  rect_width = r.rect_width;
}

-- The status bar.
abbrev pub bar : ℕ → ℕ → Rect
bar width height = record {
  coord = record { x = 0; y = sub32 height 25 };
  rect_height = 25;
  rect_width = width;
}

-- The rectangles that stand for the contents of the status bar.
abbrev pub placeholder : ℕ → ℕ → ℕ → Rect
placeholder height left wide = record {
  coord = record { x = left; y = sub32 height 20 };
  rect_height = 15;
  rect_width = wide;
}

-- The part of the state that drawing reads and does not change is `width` and `height`; the part that
-- it changes, the buffer, is the last argument.
module _ (width height : ℕ) where
  abbrev pub index : ℕ → ℕ → ℕ
  index x y = add32 (y * width % 2 ^ 32) x

  -- The guards ask whether a coordinate is negative, then, without signs, for the size.
  unfoldable pub draw_pixel : ℕ → ℕ → ℕ → (ℕ → ℕ) → ℕ → ℕ
  unfolding shade
  draw_pixel x y pixel buf =
      if int_less x 0 || int_less y 0
      then buf
      else if leb width x || leb height y
      then buf
      else λ j. if j == index x y then shade (buf j) pixel else buf j

  unfoldable pub draw_rect : Rect → ℕ → (ℕ → ℕ) → ℕ → ℕ
  unfolding for_range draw_pixel
  draw_rect r color =
      for_range r.rect_height 0
        λ y. for_range r.rect_width 0 λ x. draw_pixel (add32 x r.coord.x) (add32 y r.coord.y) color

  unfoldable pub ppm_draw : Ppm → Point → (ℕ → ℕ) → ℕ → ℕ
  unfolding for_range draw_pixel
  ppm_draw ppm coord = for_range ppm.ppm_height 0 λ y. for_range ppm.ppm_width 0 λ x buf.
      let pixel = ppm_pixel ppm x y in
      if pixel == see_through then buf else draw_pixel (add32 x coord.x) (add32 y coord.y) pixel buf

  unfoldable pub draw_window_decoration : Window → (ℕ → ℕ) → ℕ → ℕ
  draw_window_decoration window buf =
      let r = window.rect in
      let drawn = draw_rect (text_placeholder r) 0xc0c0c0 (draw_rect (titlebar r) 0x202020 buf) in
      let sides = draw_rect (right_border r) 0x202020 (draw_rect (left_border r) 0x202020 drawn) in
      draw_rect (bottom_border r) 0x202020 sides

  unfoldable pub draw_status_bar : (ℕ → ℕ) → ℕ → ℕ
  draw_status_bar buf =
      let icon =
        draw_rect (placeholder height 5 15) 0x202020 (draw_rect (bar width height) 0xc0c0c0 buf) in
      draw_rect (placeholder height (sub32 width 65) 60) 0x808080
        (draw_rect (placeholder height 25 60) 0x808080 icon)

unfoldable pub draw_background : Wm → Wm
unfolding for_range draw_pixel
draw_background wm = record wm {
  buffer =
      (for_range wm.num_updates 0 λ k.
          let up = wm.updates k in
          for_range (up.upper.y - up.lower.y) up.lower.y λ y.
            for_range (up.upper.x - up.lower.x) up.lower.x
              λ x. draw_pixel wm.width wm.height x y (background x y))
        wm.buffer;
}

-- The colour of a window at a place of the screen; `index` has the type `int32_t`.
unfoldable pub window_pixel : Window → ℕ → ℕ → ℕ
window_pixel window x y =
    let yoff = sub32 y window.rect.coord.y * window.rect.rect_width % 2 ^ 32 in
    let xoff = sub32 x window.rect.coord.x in
    if window.has_buffer then window.pixels (add32 yoff xoff) else window.color

-- The rounds of `draw_window` for one region.
unfoldable pub draw_window_part : Wm → Window → Update → (ℕ → ℕ) → ℕ → ℕ
unfolding for_range draw_pixel
draw_window_part wm window up buf =
    let a = window.rect.coord in
    let b = rect_max_coord wm window.rect in
    let y_start = if int_less up.lower.y a.y then a.y else up.lower.y in
    let x_start = if int_less up.lower.x a.x then a.x else up.lower.x in
    let drawn =
      (for_range (min b.y up.upper.y - y_start) y_start λ y.
          for_range (min b.x up.upper.x - x_start) x_start
            λ x. draw_pixel wm.width wm.height x y (window_pixel window x y))
        buf in
    if not (int_less a.y up.upper.y) || int_less b.y up.lower.y
    then buf
    else if not (int_less a.x up.upper.x) || int_less b.x up.lower.x
    then buf
    else drawn

unfoldable pub draw_window : Wm → Window → (ℕ → ℕ) → ℕ → ℕ
unfolding for_range draw_window_part
draw_window wm window = for_range wm.num_updates 0 λ k. draw_window_part wm window (wm.updates k)

-- The loop of `draw_windows`, over the windows left.
unfoldable pub draw_windows_from : Wm → List Window → (ℕ → ℕ) → ℕ → ℕ
draw_windows_from wm [] buf = buf
draw_windows_from wm (window ∷ rest) buf =
    draw_windows_from wm rest
      (draw_window_decoration wm.width wm.height window (draw_window wm window buf))

unfoldable pub draw_windows : Wm → Wm
draw_windows wm = record wm { buffer = draw_windows_from wm wm.windows wm.buffer }

unfoldable pub draw_framebuffer : Wm → Wm
unfolding for_range
draw_framebuffer wm = record wm {
  framebuffer =
      (for_range wm.num_updates 0 λ k.
          let up = wm.updates k in
          for_range (up.upper.y - up.lower.y) up.lower.y λ y.
            for_range (up.upper.x - up.lower.x) up.lower.x
              λ x fbuf j. if j == index wm.width wm.height x y then wm.buffer j else fbuf j)
        wm.framebuffer;
}

-- The drawing of one round of `event_loop`.
unfoldable pub frame : Wm → Wm
unfolding reset_updates
frame wm =
    let below = draw_windows (draw_background wm) in
    let bar = draw_status_bar wm.width wm.height below.buffer in
    let all = ppm_draw wm.width wm.height wm.mouse_cursor wm.mouse bar in
    reset_updates (draw_framebuffer (record below { buffer = all }))
