-- ===== src/Console/Memory.antt =====
-- The cells that the console writes.
use native.Mathlib.Nat.{mul-le-mul_left}
use native.Mathlib.Decide.{dec_lt}
use c4_os.Prelude.{
  ℕ, zero, suc, ◌+◌, ◌-◌, ◌*◌, ◌%◌, ◌^◌, ◌≤◌, ◌<◌, ◌≡◌, ◌⊎◌, inl, inr, refl, ap₂, ◌∙◌, arith,
  Bool-cases, ltb, leb, ◌==◌, ◌&&◌,
}
use c4_os.Console.{
  Display, Message, put_char, set_position, clear, get_info, framebuffer_get_info, unknown,
  do_newline, do_draw_char, do_set_position, do_clear, newlines, handle, text_driver,
  text_draw_char, text_scroll, scroll_rows, newline_char, backspace_char, poke, space,
}
use c4_os.Console.Cursor.{IsOnScreen, do_newline-IsKept, text_driver-IsDriver}
use c4_os.Console.Scroll.{text_scroll_lem}

module _ (j : ℕ) where
  text_scroll-outside :
      (s : Display)
      → 0 < s.height
      → s.width * s.height ≤ j
      → (text_scroll s).textbuf j ≡ s.textbuf j
  unfolding text_scroll scroll_rows
  text_scroll-outside s some_row h = elim (dec_lt 1 s.height) [
    | yes tall ↦
        let below : s.height - 1 ≤ s.height = omega arith in
        let less = mul-le-mul_left s.width below in ground (arith, text_scroll_lem s j tall, less)
    | no flat ↦ let e : s.height - 1 ≡ 0 = omega arith in rw e refl
  ]

  do_newline-outside :
      (s : Display)
      → s.y < s.height
      → s.width * s.height ≤ j
      → (do_newline text_driver s).textbuf j ≡ s.textbuf j
  unfolding do_newline
  do_newline-outside s row h = elim (Bool-cases (leb (s.height - 1) (s.y + 1))) [
    | inl last ↦ rw last (text_scroll-outside (record s { y = s.y + 1 }) (omega arith) h)
    | inr more ↦ rw more refl
  ]

  newlines-outside :
      (n : ℕ) (s : Display)
      → IsOnScreen s
      → s.width * s.height ≤ j
      → (newlines text_driver n s).textbuf j ≡ s.textbuf j
  unfolding newlines
  newlines-outside zero s on h = refl
  newlines-outside (suc n) s on h =
      let k = do_newline-IsKept text_driver text_driver-IsDriver s on.row in
      let e = ap₂ (λ (a b : ℕ). a * b) k.kept_width k.kept_height in
      newlines-outside n (do_newline text_driver s) k.OnScreen (omega (arith, e, h))
      ∙ do_newline-outside s on.row h

  text_draw_char-outside :
      (s : Display) (px py c : ℕ)
      → s.width * s.y + s.x < s.width * s.height
      → s.width * s.height ≤ j
      → (text_draw_char s px py c).textbuf j ≡ s.textbuf j
  unfolding text_draw_char poke
  text_draw_char-outside s px py c inside h = ground arith

  -- Where the cursor is not behind the last row's last cell, it is at a cell of the screen.
  in_row :
      (s : Display)
      → 0 < s.width
      → s.y < s.height
      → s.x ≤ s.width
      → (s.y + 1 < s.height) ⊎ (s.x < s.width)
      → s.width * s.y + s.x < s.width * s.height
  in_row s wide row column (inl above) =
      let below : s.y + 2 ≤ s.height = omega arith in
      let less = mul-le-mul_left s.width below in omega (arith, less)
  in_row s wide row column (inr within) =
      let below : s.y + 1 ≤ s.height = omega arith in
      let less = mul-le-mul_left s.width below in omega (arith, less)

  do_draw_char-outside :
      (s : Display) (c : ℕ)
      → 0 < s.width
      → IsOnScreen s
      → (s.y + 1 < s.height) ⊎ (s.x < s.width)
      → s.width * s.height ≤ j
      → (do_draw_char text_driver s c).textbuf j ≡ s.textbuf j
  unfolding do_draw_char text_draw_char
  do_draw_char-outside s c wide on free h =
      let row = on.row in
      let column = on.column in
      elim (Bool-cases (c == newline_char)) [
        | inl e ↦ rw e (do_newline-outside s row h)
        | inr e ↦ rw e (elim (Bool-cases (c == backspace_char && ltb 0 s.x)) [
          | inl b ↦ rw b (
              text_draw_char-outside (record s { x = s.x - 1 }) (s.x - 1) s.y space
                (in_row (record s { x = s.x - 1 }) wide row (omega arith) (inr (ground arith))) h)
          | inr b ↦
              let drawn : Display = text_draw_char s s.x s.y c in
              let stays = text_draw_char-outside s s.x s.y c (in_row s wide row column free) h in
              rw b (elim (Bool-cases (leb s.width s.x)) [
                | inl full ↦
                    rw full (do_newline-outside (record drawn { x = drawn.x + 1 }) row h ∙ stays)
                | inr more ↦ rw more stays
              ])
        ])
      ]

  -- On a text screen with at least one column, and with the cursor on the screen but not behind the
  -- end of its last row, no message makes the console write behind the screen.
  pub handle-outside :
      (s : Display) (m : Message)
      → 0 < s.width
      → IsOnScreen s
      → (s.y + 1 < s.height) ⊎ (s.x < s.width)
      → s.width * s.height ≤ j
      → (handle text_driver s m).0.textbuf j ≡ s.textbuf j
  unfolding handle do_clear do_set_position
  handle-outside s (put_char c) wide on free h = do_draw_char-outside s (c % 2 ^ 8) wide on free h
  handle-outside s (set_position px py) wide on free h =
      elim (Bool-cases (ltb px s.width && ltb py s.height)) [
        | inl e ↦ rw e refl
        | inr e ↦ rw e refl
      ]
  handle-outside s clear wide on free h =
      let t : Display = newlines text_driver s.height s in
      let stays = newlines-outside s.height s on h in
      elim (Bool-cases (ltb 0 t.width && ltb 0 t.height)) [
        | inl e ↦ rw e stays
        | inr e ↦ rw e stays
      ]
  handle-outside s get_info wide on free h = refl
  handle-outside s framebuffer_get_info wide on free h = refl
  handle-outside s unknown wide on free h = refl
