-- ===== src/Console/Tests.antt =====
-- Runs of the console of programs/display/src/display.c on small text screens.
use c4_os.Prelude.{ℕ, ◌+◌, ◌≡◌, refl, [], ◌∷◌, arith, inl, min}
use c4_os.Console.{
  Display, put_char, set_position, clear, text_scroll, do_clear, do_newline, do_draw_char,
  do_set_position, newlines, handle, text_driver, text_draw_char, newline_char,
}
use c4_os.Console.Cursor.{IsOnScreen, text_driver-IsDriver, handle_all, handle_all-IsOnScreen}
use c4_os.Console.Clear.{text_below, do_clear_lem}
use c4_os.Console.Memory.{handle-outside}

-- Cell `i` holds the text `i + 65`: three rows of two.
abbrev letters : Display
letters = record {
  textbuf = λ i. record { text = i + 65; color = 7 };
  fb_width = 0;
  fb_height = 0;
  width = 2;
  height = 3;
  x = 0;
  y = 0;
}

letters-IsOnScreen : IsOnScreen letters
letters-IsOnScreen = record { column = omega arith; row = omega arith }

abbrev text_at : Display → ℕ → ℕ
text_at s i = (s.textbuf i).text

-- The last row's letters are still there after the clear.
abbrev cleared : Display
cleared = do_clear text_driver letters

clear_leaves : (text_at cleared 0 ≡ 69) × (text_at cleared 1 ≡ 70) × (text_at cleared 2 ≡ 32)
unfolding do_clear newlines do_newline do_set_position text_scroll
clear_leaves = (refl, refl, refl)

-- The third character of a row of two goes to the next row's first cell, and a third one in the last
-- row behind the screen.
abbrev corner : Display
corner = record letters { x = 2; y = 2 }

corner_writes : text_at (handle text_driver corner (put_char 90)).0 6 ≡ 90
unfolding handle do_newline do_draw_char text_draw_char text_scroll
corner_writes = refl

handle_all-IsOnScreen_example : IsOnScreen (
    handle_all text_driver text_driver-IsDriver letters
      (put_char 65 ∷ put_char newline_char ∷ put_char 66 ∷ set_position 1 1 ∷ clear ∷ []))
handle_all-IsOnScreen_example =
    handle_all-IsOnScreen text_driver text_driver-IsDriver letters
      (put_char 65 ∷ put_char newline_char ∷ put_char 66 ∷ set_position 1 1 ∷ clear ∷ [])
      letters-IsOnScreen

do_clear_lem_example :
    (text_at cleared 1 ≡ text_below letters (min 3 2) 1) × (cleared.x ≡ 0) × (cleared.y ≡ 0)
do_clear_lem_example = do_clear_lem letters 1 (omega arith) letters-IsOnScreen (omega arith)

handle-outside_example : (handle text_driver letters (put_char 65)).0.textbuf 6 ≡ letters.textbuf 6
handle-outside_example =
    handle-outside 6 letters (put_char 65) (omega arith) letters-IsOnScreen (inl (omega arith))
      (omega arith)
