-- ===== src/Console.antt =====
-- programs/display/src/display.c and programs/display/src/textmode.c: the console's cursor, the VGA
-- text screen below it, and the messages that drive them.
pub mod Cursor
pub mod Scroll
pub mod Clear
pub mod Memory
mod Tests
use c4_os.Prelude.{
  ℕ, zero, suc, ◌+◌, ◌-◌, ◌*◌, ◌%◌, ◌^◌, Bool, true, false, ◌&&◌, Option, none, some, List, [], ◌∷◌,
  ◌==◌, ltb, leb, if◌then◌else◌,
}

-- `vga_char_t`.
pub record Cell : Type 0 where
  pub text : ℕ
  pub color : ℕ

-- `display_t`. The screen is the memory from `textbuf` on, by cell, and what follows it.
pub record Display : Type 0 where
  pub textbuf : ℕ → Cell
  pub fb_width : ℕ
  pub fb_height : ℕ
  pub width : ℕ
  pub height : ℕ
  pub x : ℕ
  pub y : ℕ

-- The function pointers of `display_t` that the console calls.
pub record Driver : Type 0 where
  pub draw_char : Display → ℕ → ℕ → ℕ → Display
  pub scroll : Display → Display

abbrev pub newline_char : ℕ
newline_char = 10

abbrev pub backspace_char : ℕ
backspace_char = 8

abbrev pub space : ℕ
space = 32

-- `VGA_TEXT_COLOR`.
abbrev pub vga_text_color : ℕ
vga_text_color = 0x17

-- An assignment to one cell.
unfoldable pub poke : (ℕ → Cell) → ℕ → Cell → ℕ → Cell
poke m i c j = if j == i then c else m j

-- `text_draw_char` takes the cursor's place, whatever the coordinates it is given.
unfoldable pub text_draw_char : Display → ℕ → ℕ → ℕ → Display
unfolding poke
text_draw_char s px py c = record s {
  textbuf = poke s.textbuf (s.width * s.y + s.x) (record { text = c; color = vga_text_color });
}

-- The first inner loop of `text_scroll`: `n` cells from `w` further on to `to` and on.
unfoldable pub copy_cells : ℕ → ℕ → ℕ → (ℕ → Cell) → ℕ → Cell
unfolding poke
copy_cells w zero to m = m
copy_cells w (suc n) to m = copy_cells w n (to + 1) (poke m to (m (to + w)))

-- The second: the colour of the `n` cells stays.
unfoldable pub blank_cells : ℕ → ℕ → (ℕ → Cell) → ℕ → Cell
unfolding poke
blank_cells zero to m = m
blank_cells (suc n) to m = blank_cells n (to + 1) (poke m to (record (m to) { text = space }))

-- The outer loop, over the rows left; `to` is `width * (i - 1)`.
unfoldable pub scroll_rows : ℕ → ℕ → ℕ → (ℕ → Cell) → ℕ → Cell
unfolding copy_cells blank_cells
scroll_rows w zero to m = m
scroll_rows w (suc n) to m = scroll_rows w n (to + w) (blank_cells w (to + w) (copy_cells w w to m))

unfoldable pub text_scroll : Display → Display
unfolding scroll_rows
text_scroll s = record s { textbuf = scroll_rows s.width (s.height - 1) 0 s.textbuf }

abbrev pub text_driver : Driver
text_driver = record { draw_char = text_draw_char; scroll = text_scroll }

unfoldable pub do_set_position : Display → ℕ → ℕ → Display
do_set_position s px py =
    if ltb px s.width && ltb py s.height then record s { x = px; y = py } else s

-- The replies of `send_info` and `send_framebuf_info`.
pub data Reply : Type 0 where
  console_info : ℕ → ℕ → ℕ → ℕ → Reply
  framebuffer_info : ℕ → ℕ → ℕ → Reply

-- The messages that `main` handles without the kernel's capabilities.
pub data Message : Type 0 where
  put_char : ℕ → Message
  set_position : ℕ → ℕ → Message
  clear : Message
  get_info : Message
  framebuffer_get_info : Message
  unknown : Message

module _ (driver : Driver) where
  -- The row is compared after it went up; `height` is at least 1.
  unfoldable pub do_newline : Display → Display
  do_newline s =
      let down = record s { y = s.y + 1 } in
      let up = driver.scroll down in
      if leb (s.height - 1) (s.y + 1)
      then record up { y = up.height - 1; x = 0 }
      else record down { x = 0 }

  unfoldable pub do_draw_char : Display → ℕ → Display
  unfolding do_newline
  do_draw_char s c =
      let back = record s { x = s.x - 1 } in
      let drawn = driver.draw_char s s.x s.y c in
      let next = record drawn { x = drawn.x + 1 } in
      if c == newline_char
      then do_newline s
      else if c == backspace_char && ltb 0 s.x
      then driver.draw_char back back.x back.y space
      else if leb drawn.width drawn.x
      then do_newline next
      else next

  -- The loop of `do_clear` over the rounds left.
  unfoldable pub newlines : ℕ → Display → Display
  newlines zero s = s
  newlines (suc n) s = newlines n (do_newline s)

  -- A scroll does not change the height, the bound of the loop.
  unfoldable pub do_clear : Display → Display
  unfolding newlines do_set_position
  do_clear s = do_set_position (newlines s.height s) 0 0

  -- One round of the loop of `main`: the state after the message and what is sent back.
  unfoldable pub handle : Display → Message → Display × Option Reply
  unfolding do_draw_char do_set_position do_clear
  handle s (put_char c) = (do_draw_char s (c % 2 ^ 8), none)
  handle s (set_position px py) = (do_set_position s px py, none)
  handle s clear = (do_clear s, none)
  handle s get_info = (s, some (console_info s.x s.y s.width s.height))
  handle s framebuffer_get_info = (s, some (framebuffer_info s.fb_width s.fb_height 32))
  handle s unknown = (s, none)
