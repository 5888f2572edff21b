-- ===== src/WindowManager/Draw/Regions.antt =====
-- What the loops over the regions that are to be drawn do to one pixel of the screen.
use c4_os.Prelude.{
  ℕ, zero, suc, ◌+◌, ◌-◌, ◌≤◌, ◌<◌, ◌≡◌, refl, ap, ◌∙◌, Bool, true, ◌&&◌, ◌==◌, if◌then◌else◌,
  arith, Bool-cases, inl, inr,
}
use c4_os.WindowManager.{Update, Wm}
use c4_os.WindowManager.Screen.{inside, covered, dirty, IsValid}
use c4_os.WindowManager.Draw.{
  for_range, background, index, draw_pixel, draw_background, draw_framebuffer,
}
use c4_os.WindowManager.Draw.Pixels.{
  Fits, pixel_at, for_place, draw_pixel_lem, index_lem, index_same,
}
use c4_os.WindowManager.Draw.Colors.{shade-opaque, background_range}

-- The last round by itself.
for_range_last {ℓ} :
    {S : Type ℓ} (n from : ℕ) (body : ℕ → S → S) (s : S)
    → for_range (suc n) from body s ≡ body (from + n) (for_range n from body s)
unfolding for_range
for_range_last zero from body s = ap (λ (i : ℕ). body i s) (omega arith)
for_range_last (suc n) from body s =
    for_range_last n (from + 1) body (body from s)
    ∙ ap (λ (i : ℕ). body i (for_range n (from + 1) body (body from s))) (omega arith)

for_range_top {ℓ} :
    {S : Type ℓ} (n : ℕ) (body : ℕ → S → S) (s : S)
    → for_range (suc n) 0 body s ≡ body n (for_range n 0 body s)
for_range_top n body s =
    for_range_last n 0 body s ∙ ap (λ (i : ℕ). body i (for_range n 0 body s)) (omega arith)

-- Rounds that each leave a value on the pixels of their region leave it on those of all regions.
pub for_regions :
    (width px py value : ℕ) (ups : ℕ → Update) (inner : Bool) (body : ℕ → (ℕ → ℕ) → ℕ → ℕ) (n : ℕ)
    → ((k : ℕ) (buf : ℕ → ℕ)
        → k < n
        → pixel_at width (body k buf) px py
          ≡ (if inside (ups k) px py && inner then value else pixel_at width buf px py))
    → (buf : ℕ → ℕ)
    → pixel_at width (for_range n 0 body buf) px py
      ≡ (if covered n ups px py && inner then value else pixel_at width buf px py)
unfolding covered for_range
for_regions width px py value ups inner body zero step buf = refl
for_regions width px py value ups inner body (suc n) step buf =
    let ih = for_regions width px py value ups inner body n (λ k b h. step k b (omega arith)) buf in
    let last = ap (λ (b : ℕ → ℕ). pixel_at width b px py) (for_range_top n body buf) in
    let here = step n (for_range n 0 body buf) (omega arith) in last ∙ here ∙ ground (arith, ih)

pub at_place :
    (v : ℕ → ℕ → ℕ) (x y px py other : ℕ)
    → (if x == px && y == py then v x y else other)
      ≡ (if y == py then if x == px then v px py else other else other)
at_place v x y px py other = elim (Bool-cases (x == px && y == py)) [
  | inl e ↦
      let same_x : x ≡ px = ground (arith, e) in
      let same_y : y ≡ py = ground (arith, e) in rw (same_x, same_y) (ground arith)
  | inr e ↦ ground (arith, e)
]

module _ (width height : ℕ) (fits : Fits width height) where
  -- A region's loops, which leave the value `v x y` at each place.
  pub region_loops :
      (up : Update) (v : ℕ → ℕ → ℕ) (body : ℕ → ℕ → (ℕ → ℕ) → ℕ → ℕ) (px py : ℕ)
      → up.upper.x ≤ width
      → up.upper.y ≤ height
      → up.lower.x ≤ width
      → up.lower.y ≤ height
      → ((x y : ℕ) (b : ℕ → ℕ)
          → x < width
          → y < height
          → pixel_at width (body x y b) px py
            ≡ (if x == px && y == py then v x y else pixel_at width b px py))
      → (buf : ℕ → ℕ)
      → pixel_at width
          (for_range
            (up.upper.y - up.lower.y)
            up.lower.y
            (λ y. for_range (up.upper.x - up.lower.x) up.lower.x (λ x. body x y))
            buf)
          px
          py
        ≡ (if inside up px py then v px py else pixel_at width buf px py)
  region_loops up v body px py hx hy lx ly step buf =
      for_place width height fits body (λ c. v px py) px py px py (up.upper.y - up.lower.y)
        (up.upper.x - up.lower.x) up.lower.y up.lower.x
        (λ x y b jx ix jy iy.
          step x y b (omega (arith, ix, jx)) (omega (arith, iy, jy))
          ∙ at_place v x y px py (pixel_at width b px py))
        buf
      ∙ ground arith

  background_round :
      (up : Update) (px py : ℕ) (buf : ℕ → ℕ)
      → up.upper.x ≤ width
      → up.upper.y ≤ height
      → up.lower.x ≤ width
      → up.lower.y ≤ height
      → px < width
      → py < height
      → pixel_at width
          (for_range
            (up.upper.y - up.lower.y)
            up.lower.y
            (λ y.
              for_range
                (up.upper.x - up.lower.x)
                up.lower.x
                (λ x. draw_pixel width height x y (background x y)))
            buf)
          px
          py
        ≡ (if inside up px py && true then background px py else pixel_at width buf px py)
  background_round up px py buf hx hy lx ly bx by =
      region_loops up background (λ x y. draw_pixel width height x y (background x y)) px py hx hy
        lx ly
        (λ x y b sx sy.
          draw_pixel_lem width height fits x y (background x y) px py b bx by
            (omega (arith, sx, fits)) (omega (arith, sy, fits))
          ∙ ap (λ c. if x == px && y == py then c else pixel_at width b px py)
              (shade-opaque (pixel_at width b px py) (background x y) (background_range x y)))
        buf
      ∙ ground arith

  framebuffer_round :
      (up : Update) (dbuf : ℕ → ℕ) (px py : ℕ) (buf : ℕ → ℕ)
      → up.upper.x ≤ width
      → up.upper.y ≤ height
      → up.lower.x ≤ width
      → up.lower.y ≤ height
      → px < width
      → py < height
      → pixel_at width
          (for_range
            (up.upper.y - up.lower.y)
            up.lower.y
            (λ y.
              for_range
                (up.upper.x - up.lower.x)
                up.lower.x
                (λ x fbuf j. if j == index width height x y then dbuf j else fbuf j))
            buf)
          px
          py
        ≡ (if inside up px py && true then pixel_at width dbuf px py else pixel_at width buf px py)
  framebuffer_round up dbuf px py buf hx hy lx ly bx by =
      region_loops up (λ x y. pixel_at width dbuf x y)
        (λ x y fbuf j. if j == index width height x y then dbuf j else fbuf j) px py hx hy lx ly
        (λ x y b sx sy.
          let at = index_lem width height fits x y sx sy in
          let same = index_same width height fits x y px py sx bx in rw at (ground (arith, same)))
        buf
      ∙ ground arith

-- A state with its regions on a screen that memory can hold.
abbrev pub IsDrawable : Wm → Type 0
IsDrawable wm = Fits wm.width wm.height × IsValid wm

-- `draw_background` leaves its pattern on the pixels of the screen that lie in a region.
pub draw_background_lem :
    (wm : Wm) (px py : ℕ)
    → IsDrawable wm
    → px < wm.width
    → py < wm.height
    → pixel_at wm.width (draw_background wm).buffer px py
      ≡ (if dirty wm px py then background px py else pixel_at wm.width wm.buffer px py)
unfolding draw_background
draw_background_lem wm px py ok hx hy =
    for_regions wm.width px py (background px py) wm.updates true _ wm.num_updates
      (λ k b h.
        let (low, high) = ok.1.1 k h in
        background_round wm.width wm.height ok.0 (wm.updates k) px py b high.0 high.1 low.0 low.1 hx
          hy)
      wm.buffer
    ∙ ground arith

-- `draw_framebuffer` copies to the framebuffer the pixels of the screen that lie in a region.
pub draw_framebuffer_lem :
    (wm : Wm) (px py : ℕ)
    → IsDrawable wm
    → px < wm.width
    → py < wm.height
    → pixel_at wm.width (draw_framebuffer wm).framebuffer px py ≡ (
        if dirty wm px py
        then pixel_at wm.width wm.buffer px py
        else pixel_at wm.width wm.framebuffer px py)
unfolding draw_framebuffer
draw_framebuffer_lem wm px py ok hx hy =
    for_regions wm.width px py (pixel_at wm.width wm.buffer px py) wm.updates true _ wm.num_updates
      (λ k b h.
        let (low, high) = ok.1.1 k h in
        framebuffer_round wm.width wm.height ok.0 (wm.updates k) wm.buffer px py b high.0 high.1
          low.0 low.1 hx hy)
      wm.framebuffer
    ∙ ground arith
