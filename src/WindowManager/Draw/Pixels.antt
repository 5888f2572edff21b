-- ===== src/WindowManager/Draw/Pixels.antt =====
-- What the drawing loops do to one pixel of the screen.
use c4_os.Prelude.{
  ℕ, zero, suc, ◌+◌, ◌*◌, ◌≤◌, ◌<◌, ◌^◌, ◌≡◌, refl, ap₂, ◌∙◌, Bool, true, false, ◌&&◌, ◌||◌, ◌==◌,
  ltb, leb, if◌then◌else◌, arith, add32, sub32, Bool-cases, inl, inr, ◌⊎◌,
}
use c4_os.WindowManager.{Point, Rect, Ppm, int_less}
use c4_os.WindowManager.Draw.{
  for_range, shade, index, draw_pixel, draw_rect, ppm_draw, ppm_pixel, see_through,
}

-- Where only the round `t` changes what is observed, by `f`, so does the loop.
pub for_range_once {ℓ κ} :
    {S : Type ℓ} {A : Type κ} (obs : S → A) (f : A → A) (body : ℕ → S → S) (t n from : ℕ)
    → ((i : ℕ) (s : S)
        → from ≤ i
        → i < from + n
        → obs (body i s) ≡ (if i == t then f (obs s) else obs s))
    → (s : S)
    → obs (for_range n from body s) ≡ (if leb from t && ltb t (from + n) then f (obs s) else obs s)
unfolding for_range
for_range_once obs f body t zero from step s =
    let outside : (leb from t && ltb t (from + 0)) ≡ false = ground arith in rw outside refl
for_range_once obs f body t (suc n) from step s =
    let ih =
      for_range_once obs f body t n (from + 1) (λ i r g h. step i r (omega arith) (omega arith))
        (body from s) in
    let here = step from s (omega arith) (omega arith) in
    ih ∙ (elim (Bool-cases (from == t)) [
      | inl e ↦
          let now : (leb from t && ltb t (from + suc n)) ≡ true = ground arith in
          let past : (leb (from + 1) t && ltb t (from + 1 + n)) ≡ false = ground arith in
          rw (past, now, here, e) refl
      | inr e ↦
          let same : (leb (from + 1) t && ltb t (from + 1 + n))
              ≡ (leb from t && ltb t (from + suc n)) =
            ground arith in
          rw (same, here, e) refl
    ])

compare_cases : (a b : ℕ) → (a < b) ⊎ ((a ≡ b) ⊎ (b < a))
compare_cases a b = ground arith

-- A memory of the screen has no more pixels than there are addresses.
abbrev pub Fits : ℕ → ℕ → Type 0
Fits width height = (width + 3 < 2 ^ 31) × (height + 3 < 2 ^ 31) × (height * width ≤ 2 ^ 32)

abbrev pub pixel_at : ℕ → (ℕ → ℕ) → ℕ → ℕ → ℕ
pixel_at width buf x y = buf (y * width + x)

-- The place of the screen, counted from a corner that may lie outside.
abbrev pub in_rect : Rect → ℕ → ℕ → Bool
in_rect r px py = ltb (sub32 py r.coord.y) r.rect_height && ltb (sub32 px r.coord.x) r.rect_width

abbrev pub IsRect : Rect → Type 0
IsRect r =
    (r.coord.x < 2 ^ 32) × (r.coord.y < 2 ^ 32) × (r.rect_width < 2 ^ 32) × (r.rect_height < 2 ^ 32)

abbrev pub image_rect : Ppm → Point → Rect
image_rect ppm coord = record {
  coord = coord;
  rect_height = ppm.ppm_height;
  rect_width = ppm.ppm_width;
}

abbrev pub shade_image : ℕ → ℕ → ℕ
shade_image pixel below = if pixel == see_through then below else shade below pixel

module _ (width height : ℕ) (fits : Fits width height) where
  pub index_lem : (x y : ℕ) → x < width → y < height → index width height x y ≡ y * width + x
  index_lem x y hx hy =
      let below : y * width + x < height * width = grind arith in omega (arith, below, fits)

  rows_apart : (x y px py : ℕ) → px < width → py < y → py * width + px < y * width + x
  rows_apart x y px py hp low = grind arith

  -- Different places have different indices.
  pub index_same :
      (x y px py : ℕ)
      → x < width
      → px < width
      → (py * width + px == y * width + x) ≡ (px == x && py == y)
  index_same x y px py hx hp = elim (compare_cases py y) [
    | inl below ↦ let apart = rows_apart x y px py hp below in ground (arith, apart, below)
    | inr (inl same) ↦ rw same (ground arith)
    | inr (inr above) ↦ let apart = rows_apart px py x y hx above in ground (arith, apart, above)
  ]

  pub draw_pixel_lem :
      (x y pixel px py : ℕ) (buf : ℕ → ℕ)
      → px < width
      → py < height
      → x < 2 ^ 32
      → y < 2 ^ 32
      → pixel_at width (draw_pixel width height x y pixel buf) px py ≡ (
          if x == px && y == py
          then shade (pixel_at width buf px py) pixel
          else pixel_at width buf px py)
  unfolding draw_pixel
  draw_pixel_lem x y pixel px py buf hx hy bx by = elim (Bool-cases (ltb x width && ltb y height)) [
    | inl e ↦
        let inside_x : x < width = ground (arith, e) in
        let inside_y : y < height = ground (arith, e) in
        let guard : (int_less x 0 || int_less y 0) ≡ false = ground (arith, fits.0, fits.1) in
        let limit : (leb width x || leb height y) ≡ false = ground arith in
        let at = index_lem x y inside_x inside_y in
        let same = index_same x y px py inside_x hx in rw (guard, limit, at, same) (ground arith)
    | inr e ↦
        let other : (x == px && y == py) ≡ false = ground (arith, e) in rw other (ground (arith, e))
  ]

  -- A loop over a rectangle of which one place is drawn on the pixel observed.
  pub for_place :
      (body : ℕ → ℕ → (ℕ → ℕ) → ℕ → ℕ) (f : ℕ → ℕ) (px py tx ty rows columns top left : ℕ)
      → ((x y : ℕ) (buf : ℕ → ℕ)
          → left ≤ x
          → x < left + columns
          → top ≤ y
          → y < top + rows
          → pixel_at width (body x y buf) px py ≡ (
              if y == ty
              then if x == tx then f (pixel_at width buf px py) else pixel_at width buf px py
              else pixel_at width buf px py))
      → (buf : ℕ → ℕ)
      → pixel_at width (for_range rows top (λ y. for_range columns left (λ x. body x y)) buf) px py
        ≡ (if leb top ty && ltb ty (top + rows)
            then if leb left tx && ltb tx (left + columns)
              then f (pixel_at width buf px py)
              else pixel_at width buf px py
            else pixel_at width buf px py)
  for_place body f px py tx ty rows columns top left step buf =
      for_range_once (λ (b : ℕ → ℕ). pixel_at width b px py)
        (λ c. if leb left tx && ltb tx (left + columns) then f c else c)
        (λ y. for_range columns left (λ x. body x y)) ty rows top
        (λ y s gy hy.
          for_range_once (λ (b : ℕ → ℕ). pixel_at width b px py) (λ c. if y == ty then f c else c)
            (λ x. body x y) tx columns left (λ x b gx hx. step x y b gx hx gy hy ∙ ground arith) s
          ∙ ground arith)
        buf

  -- Drawing a rectangle, which may wrap around or reach beyond the screen, shades each of its pixels
  -- on the screen exactly once, and no other.
  pub draw_rect_lem :
      (r : Rect) (color px py : ℕ) (buf : ℕ → ℕ)
      → IsRect r
      → px < width
      → py < height
      → pixel_at width (draw_rect width height r color buf) px py ≡ (
          if in_rect r px py
          then shade (pixel_at width buf px py) color
          else pixel_at width buf px py)
  unfolding draw_rect
  draw_rect_lem r color px py buf is hx hy =
      for_place (λ x y. draw_pixel width height (add32 x r.coord.x) (add32 y r.coord.y) color)
        (λ c. shade c color) px py (sub32 px r.coord.x) (sub32 py r.coord.y) r.rect_height
        r.rect_width 0 0
        (λ x y b gx lx gy ly.
          let bx : x < 2 ^ 32 = omega (arith, lx, is) in
          let by : y < 2 ^ 32 = omega (arith, ly, is) in
          let one =
            draw_pixel_lem (add32 x r.coord.x) (add32 y r.coord.y) color px py b hx hy (omega arith)
              (omega arith) in
          let same_x : (add32 x r.coord.x == px) ≡ (x == sub32 px r.coord.x) =
            ground (arith, is.0, bx, hx, fits.0) in
          let same_y : (add32 y r.coord.y == py) ≡ (y == sub32 py r.coord.y) =
            ground (arith, is.1, by, hy, fits.1) in
          one ∙ (rw (same_x, same_y) (ground arith)))
        buf
      ∙ ground arith

  -- Drawing an image shades each of its pixels that is on the screen and not of the transparent
  -- colour exactly once, and no other pixel of the screen.
  pub ppm_draw_lem :
      (ppm : Ppm) (coord : Point) (px py : ℕ) (buf : ℕ → ℕ)
      → IsRect (image_rect ppm coord)
      → px < width
      → py < height
      → pixel_at width (ppm_draw width height ppm coord buf) px py ≡ (
          if in_rect (image_rect ppm coord) px py
          then shade_image
              (ppm_pixel ppm (sub32 px coord.x) (sub32 py coord.y))
              (pixel_at width buf px py)
          else pixel_at width buf px py)
  unfolding ppm_draw
  ppm_draw_lem ppm coord px py buf is hx hy =
      let tx = sub32 px coord.x in
      let ty = sub32 py coord.y in
      for_place
        (λ x y b.
          if ppm_pixel ppm x y == see_through
          then b
          else draw_pixel width height (add32 x coord.x) (add32 y coord.y) (ppm_pixel ppm x y) b)
        (shade_image (ppm_pixel ppm tx ty)) px py tx ty ppm.ppm_height ppm.ppm_width 0 0
        (λ x y b gx lx gy ly.
          let bx : x < 2 ^ 32 = omega (arith, lx, is) in
          let by : y < 2 ^ 32 = omega (arith, ly, is) in
          let one =
            draw_pixel_lem (add32 x coord.x) (add32 y coord.y) (ppm_pixel ppm x y) px py b hx hy
              (omega arith) (omega arith) in
          let same_x : (add32 x coord.x == px) ≡ (x == tx) = ground (arith, is.0, bx, hx, fits.0) in
          let same_y : (add32 y coord.y == py) ≡ (y == ty) = ground (arith, is.1, by, hy, fits.1) in
          elim (Bool-cases (y == ty)) [
            | inl e ↦ elim (Bool-cases (x == tx)) [
              | inl e' ↦
                  let at_y : y ≡ ty = ground (arith, e) in
                  let at_x : x ≡ tx = ground (arith, e') in
                  let pixel = ap₂ (λ (u v : ℕ). ppm_pixel ppm u v) at_x at_y in
                  ground (arith, one, same_x, same_y, e, e', pixel)
              | inr e' ↦ ground (arith, one, same_x, same_y, e, e')
            ]
            | inr e ↦ ground (arith, one, same_x, same_y, e)
          ])
        buf
      ∙ ground arith
