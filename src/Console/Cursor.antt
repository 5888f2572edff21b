-- ===== src/Console/Cursor.antt =====
-- Where the cursor can be, and which cells a drawn character can touch.
use c4_os.Prelude.{
  ℕ, zero, suc, ◌+◌, ◌-◌, ◌%◌, ◌^◌, ◌∙◌, ◌≤◌, ◌<◌, ◌≡◌, inl, inr, refl, List, [], ◌∷◌, arith,
  Bool-cases, ltb, ◌==◌, ◌&&◌, leb,
}
use c4_os.Console.{
  Display, Driver, Message, put_char, set_position, clear, get_info, framebuffer_get_info, unknown,
  do_newline, do_draw_char, do_set_position, do_clear, newlines, handle, text_driver,
  text_draw_char, text_scroll, newline_char, backspace_char,
}

-- What stays.
pub record IsSame (s t : Display) : Type 0 where
  pub same_x : t.x ≡ s.x
  pub same_y : t.y ≡ s.y
  pub same_width : t.width ≡ s.width
  pub same_height : t.height ≡ s.height

-- What the console relies on: the driver writes pixels or cells only.
pub record IsDriver (driver : Driver) : Type 0 where
  pub draw-same : (s : Display) (px py c : ℕ) → IsSame s (driver.draw_char s px py c)
  pub scroll-same : (s : Display) → IsSame s (driver.scroll s)

pub text_driver-IsDriver : IsDriver text_driver
unfolding text_draw_char text_scroll
text_driver-IsDriver = record {
  draw-same =
      λ s px py c. record { same_x = refl; same_y = refl; same_width = refl; same_height = refl };
  scroll-same = λ s. record { same_x = refl; same_y = refl; same_width = refl; same_height = refl };
}

-- The column can be one past the row's end: a full row is left only by the next character.
pub record IsOnScreen (s : Display) : Type 0 where
  pub column : s.x ≤ s.width
  pub row : s.y < s.height

module _ (driver : Driver) (law : IsDriver driver) where
  -- The cursor stays on the screen, which keeps its size.
  pub record IsKept (s t : Display) : Type 0 where
    pub OnScreen : IsOnScreen t
    pub kept_width : t.width ≡ s.width
    pub kept_height : t.height ≡ s.height

  pub do_newline-IsKept : (s : Display) → s.y < s.height → IsKept s (do_newline driver s)
  unfolding do_newline
  do_newline-IsKept s row =
      let h = law.scroll-same (record s { y = s.y + 1 }) in
      elim (Bool-cases (leb (s.height - 1) (s.y + 1))) [
        | inl last ↦ rw last (record {
          OnScreen = record { column = omega arith; row = omega (arith, h.same_height) };
          kept_width = h.same_width;
          kept_height = h.same_height;
        })
        | inr more ↦ rw more (record {
          OnScreen = record { column = omega arith; row = ground arith };
          kept_width = refl;
          kept_height = refl;
        })
      ]

  do_draw_char-IsKept : (s : Display) (c : ℕ) → IsOnScreen s → IsKept s (do_draw_char driver s c)
  unfolding do_draw_char
  do_draw_char-IsKept s c on =
      let row = on.row in
      let column = on.column in
      let h = law.draw-same s s.x s.y c in
      elim (Bool-cases (c == newline_char)) [
        | inl e ↦ rw e (do_newline-IsKept s row)
        | inr e ↦ rw e (elim (Bool-cases (c == backspace_char && ltb 0 s.x)) [
          | inl b ↦
              let g = law.draw-same (record s { x = s.x - 1 }) (s.x - 1) s.y 32 in
              rw b (record {
                OnScreen = record {
                  column = omega (arith, g.same_x, g.same_width);
                  row = omega (arith, g.same_y, g.same_height);
                };
                kept_width = g.same_width;
                kept_height = g.same_height;
              })
          | inr b ↦
              let drawn = driver.draw_char s s.x s.y c in
              rw b (elim (Bool-cases (leb drawn.width drawn.x)) [
                | inl full ↦
                    let k =
                      do_newline-IsKept (record drawn { x = drawn.x + 1 })
                        (omega (arith, h.same_y, h.same_height)) in
                    rw full (record {
                      OnScreen = k.OnScreen;
                      kept_width = k.kept_width ∙ h.same_width;
                      kept_height = k.kept_height ∙ h.same_height;
                    })
                | inr more ↦ rw more (record {
                  OnScreen = record {
                    column = ground arith;
                    row = omega (arith, h.same_y, h.same_height);
                  };
                  kept_width = h.same_width;
                  kept_height = h.same_height;
                })
              ])
        ])
      ]

  do_set_position-IsKept :
      (s : Display) (px py : ℕ) → IsOnScreen s → IsKept s (do_set_position s px py)
  unfolding do_set_position
  do_set_position-IsKept s px py on = elim (Bool-cases (ltb px s.width && ltb py s.height)) [
    | inl e ↦ rw e (record {
      OnScreen = record { column = ground arith; row = ground arith };
      kept_width = refl;
      kept_height = refl;
    })
    | inr e ↦ rw e (record { OnScreen = on; kept_width = refl; kept_height = refl })
  ]

  IsKept-trans : (s t u : Display) → IsKept s t → IsKept t u → IsKept s u
  IsKept-trans s t u a b = record {
    OnScreen = b.OnScreen;
    kept_width = b.kept_width ∙ a.kept_width;
    kept_height = b.kept_height ∙ a.kept_height;
  }

  pub newlines-IsKept : (n : ℕ) (s : Display) → IsOnScreen s → IsKept s (newlines driver n s)
  unfolding newlines
  newlines-IsKept zero s on = record { OnScreen = on; kept_width = refl; kept_height = refl }
  newlines-IsKept (suc n) s on =
      let first = do_newline-IsKept s on.row in
      IsKept-trans s (do_newline driver s) _ first
        (newlines-IsKept n (do_newline driver s) first.OnScreen)

  handle-IsKept : (s : Display) (m : Message) → IsOnScreen s → IsKept s (handle driver s m).0
  unfolding handle do_clear
  handle-IsKept s (put_char c) on = do_draw_char-IsKept s (c % 2 ^ 8) on
  handle-IsKept s (set_position px py) on = do_set_position-IsKept s px py on
  handle-IsKept s clear on =
      let cleared = newlines-IsKept s.height s on in
      IsKept-trans s (newlines driver s.height s) _ cleared
        (do_set_position-IsKept _ 0 0 cleared.OnScreen)
  handle-IsKept s get_info on = record { OnScreen = on; kept_width = refl; kept_height = refl }
  handle-IsKept s framebuffer_get_info on = record {
    OnScreen = on;
    kept_width = refl;
    kept_height = refl;
  }
  handle-IsKept s unknown on = record { OnScreen = on; kept_width = refl; kept_height = refl }

  -- The state after a sequence of messages.
  unfoldable pub handle_all : Display → List Message → Display
  handle_all s [] = s
  handle_all s (m ∷ ms) = handle_all (handle driver s m).0 ms

  -- With a driver that leaves the cursor and the size alone, every sequence of messages leaves a
  -- cursor that is on the screen, or just behind the end of a row of it, in such a place.
  pub handle_all-IsOnScreen :
      (s : Display) (ms : List Message) → IsOnScreen s → IsOnScreen (handle_all s ms)
  unfolding handle_all
  handle_all-IsOnScreen s [] on = on
  handle_all-IsOnScreen s (m ∷ ms) on =
      handle_all-IsOnScreen (handle driver s m).0 ms (handle-IsKept s m on).OnScreen
