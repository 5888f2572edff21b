-- ===== src/Console/Clear.antt =====
-- What `do_clear` leaves on the text screen.
use native.Mathlib.Decide.{dec_lt}
use c4_os.Prelude.{
  true, false, ℕ, zero, suc, ◌+◌, ◌-◌, ◌*◌, ◌≤◌, ◌<◌, ◌≡◌, inl, inr, refl, ap, ◌∙◌, arith,
  Bool-cases, ltb, leb, ◌&&◌, if◌then◌else◌, min,
}
use c4_os.Console.{
  Display, do_newline, do_set_position, do_clear, newlines, text_driver, text_scroll, space,
}
use c4_os.Console.Cursor.{IsOnScreen, newlines-IsKept, text_driver-IsDriver}
use c4_os.Console.Scroll.{text_scroll_lem}

-- Text of the screen `n` rows on, blank from its end on.
abbrev pub text_below : Display → ℕ → ℕ → ℕ
text_below s n j =
    if ltb (j + n * s.width) (s.width * s.height) then (s.textbuf (j + n * s.width)).text else space

-- A scroll leaves the rows below to be read one row further on.
text_below-text_scroll :
    (s : Display) (k j : ℕ)
    → 2 ≤ s.height
    → text_below (record s { textbuf = (text_scroll s).textbuf; x = 0; y = s.height - 1 }) k j
      ≡ text_below s (suc k) j
text_below-text_scroll s k j tall =
    let h : s.height ≡ suc (s.height - 1) = omega arith in
    let whole : s.width * s.height ≡ s.width * (s.height - 1) + s.width =
      omega (arith, ap (λ (h : ℕ). s.width * h) h) in
    let far : j + k * s.width + s.width ≡ j + suc k * s.width = omega arith in
    ground (
      arith,
      text_scroll_lem s (j + k * s.width) tall,
      whole,
      ap (λ (i : ℕ). (s.textbuf i).text) far,
      far,
    )

do_newline-last :
    (s : Display)
    → leb (s.height - 1) (s.y + 1) ≡ true
    → do_newline text_driver s
      ≡ record s { textbuf = (text_scroll s).textbuf; x = 0; y = s.height - 1 }
unfolding do_newline text_scroll
do_newline-last s last = rw last refl

do_newline-more :
    (s : Display)
    → leb (s.height - 1) (s.y + 1) ≡ false
    → do_newline text_driver s ≡ record s { x = 0; y = s.y + 1 }
unfolding do_newline
do_newline-more s more = rw more refl

newlines-text :
    (n : ℕ) (s : Display) (j : ℕ)
    → 2 ≤ s.height
    → s.y < s.height
    → j < s.width * s.height
    → ((newlines text_driver n s).textbuf j).text ≡ text_below s (n - (s.height - 2 - s.y)) j
unfolding newlines
newlines-text zero s j tall row inside = ground arith
newlines-text (suc n) s j tall row inside = elim (Bool-cases (leb (s.height - 1) (s.y + 1))) [
  | inl last ↦
      let scrolled : Display = record s {
        textbuf = (text_scroll s).textbuf;
        x = 0;
        y = s.height - 1;
      } in
      let rounds : n - (s.height - 2 - (s.height - 1)) ≡ n = omega arith in
      let all : suc n ≡ suc n - (s.height - 2 - s.y) = ground arith in
      ap (λ t. ((newlines text_driver n t).textbuf j).text) (do_newline-last s last)
      ∙ newlines-text n scrolled j tall (omega arith) inside
      ∙ ap (λ (k : ℕ). text_below scrolled k j) rounds
      ∙ text_below-text_scroll s n j tall
      ∙ ap (λ (k : ℕ). text_below s k j) all
  | inr more ↦
      let down : Display = record s { x = 0; y = s.y + 1 } in
      let rounds : n - (s.height - 2 - (s.y + 1)) ≡ suc n - (s.height - 2 - s.y) = ground arith in
      ap (λ t. ((newlines text_driver n t).textbuf j).text) (do_newline-more s more)
      ∙ newlines-text n down j tall (ground arith) inside
      ∙ ap (λ (k : ℕ). text_below s k j) rounds
]

-- On a text screen of two rows or more with the cursor on it, `do_clear` moves the screen up by two
-- rows more than lie above the cursor, at most by all, blanks the text of the rows that come in
-- from below, and puts the cursor in the first cell. The rows from two below the cursor on stay on
-- the screen.
pub do_clear_lem :
    (s : Display) (j : ℕ)
    → 2 ≤ s.height
    → IsOnScreen s
    → j < s.width * s.height
    → let t = do_clear text_driver s in
      ((t.textbuf j).text ≡ text_below s (min s.height (s.y + 2)) j) × (t.x ≡ 0) × (t.y ≡ 0)
unfolding do_clear do_set_position
do_clear_lem s j tall on inside =
    let row = on.row in
    let kept = newlines-IsKept text_driver text_driver-IsDriver s.height s on in
    let wide : 0 < s.width = omega (
      arith,
      elim (dec_lt 0 s.width) as (λ d. 0 < s.width) [
        | yes p ↦ p
        | no np ↦
            let e : s.width ≡ 0 = omega arith in
            absurd (omega (arith, inside, ap (λ (w : ℕ). w * s.height) e))
      ],
    ) in
    let rounds : s.height - (s.height - 2 - s.y) ≡ min s.height (s.y + 2) = ground arith in
    let inner : ltb 0 (newlines text_driver s.height s).width
          && ltb 0 (newlines text_driver s.height s).height
        ≡ true =
      ground (arith, kept.kept_width, kept.kept_height) in
    rw inner (
      newlines-text s.height s j tall row inside ∙ ap (λ (k : ℕ). text_below s k j) rounds,
      refl,
      refl,
    )
