-- ===== src/WindowManager/Screen.antt =====
-- The regions of the screen that are to be drawn again.
use native.Mathlib.Decide.{dec_lt}
use c4_os.Prelude.{
  ap, sym, Bool-cases, inl, inr, ℕ, ◌%◌, false, zero, suc, ◌+◌, ◌≤◌, ◌<◌, ◌^◌, ◌≡◌, refl, Bool,
  false, ◌&&◌, ◌||◌, ◌==◌, ltb, leb, if◌then◌else◌, arith,
}
use c4_os.WindowManager.{
  set_full_update, write_update, normalize_point, point_less_than, Point, Update, Wm, max_updates,
  clamp, alloc_update, update_depth, update_region,
}

-- A pixel of a region, whose upper corner is excluded.
abbrev pub inside : Update → ℕ → ℕ → Bool
inside up x y = leb up.lower.x x && ltb x up.upper.x && (leb up.lower.y y && ltb y up.upper.y)

-- A pixel in one of the first `n` regions.
unfoldable pub covered : ℕ → (ℕ → Update) → ℕ → ℕ → Bool
covered zero ups x y = false
covered (suc n) ups x y = let rest = covered n ups x y in inside (ups n) x y || rest

-- A pixel that is to be drawn again.
abbrev pub dirty : Wm → ℕ → ℕ → Bool
dirty wm x y = covered wm.num_updates wm.updates x y

abbrev pub OnScreen : Wm → Point → Type 0
OnScreen wm p = (p.x ≤ wm.width) × (p.y ≤ wm.height)

-- Regions on the screen, fewer than the array holds.
abbrev pub IsValid : Wm → Type 0
IsValid wm =
    (wm.num_updates < max_updates)
    × ((k : ℕ)
        → k < wm.num_updates
        → OnScreen wm (wm.updates k).lower × OnScreen wm (wm.updates k).upper)

covered-write :
    (n k : ℕ) (ups : ℕ → Update) (up : Update) (x y : ℕ)
    → n ≤ k
    → covered n (λ j. if j == k then up else ups j) x y ≡ covered n ups x y
unfolding covered
covered-write zero k ups up x y h = refl
covered-write (suc n) k ups up x y h = ground (arith, covered-write n k ups up x y (omega arith))

clamp_range : (size v : ℕ) → clamp size v ≤ size
clamp_range size v = ground arith

-- The depth allowed for `alloc_update` and `set_full_update` calling each other is enough: with more,
-- the result is the same.
pub alloc_update_enough :
    (more : ℕ) (wm : Wm) → alloc_update (more + update_depth) wm ≡ alloc_update update_depth wm
unfolding alloc_update
alloc_update_enough more wm = ground arith

-- With room for one more, the next one.
alloc_next :
    (wm : Wm)
    → wm.num_updates < 127
    → alloc_update update_depth wm
      ≡ (wm.num_updates, record wm { num_updates = suc wm.num_updates })
unfolding alloc_update
alloc_next wm room =
    let e : (wm.num_updates + 1) % 128 ≡ suc wm.num_updates = omega arith in
    let t : leb max_updates (wm.num_updates + 1) ≡ false = ground arith in rw (t, e) refl

-- The last one, which the full update stands in for.
alloc_last :
    (wm : Wm)
    → wm.num_updates ≡ 127
    → alloc_update update_depth wm ≡ (127, set_full_update (0, record wm { num_updates = 1 }))
unfolding alloc_update set_full_update write_update
alloc_last wm last = rw last refl

point_ext : {p q : Point} → p.x ≡ q.x → p.y ≡ q.y → p ≡ q
point_ext e f = λ i. record { x = e i; y = f i }

-- The region that `update_region` writes.
abbrev region : Wm → Point → Point → Update
region wm a b = record {
  lower = normalize_point wm (if point_less_than a b then a else b);
  upper = normalize_point wm (if point_less_than a b then b else a);
}

pub update_region_next :
    (wm : Wm) (a b : Point)
    → wm.num_updates < 127
    → update_region wm a b
      ≡ write_update (record wm { num_updates = suc wm.num_updates }) wm.num_updates (region wm a b)
unfolding update_region
update_region_next wm a b room =
    ap (λ (p : ℕ × Wm). write_update p.1 p.0 (region wm a b)) (alloc_next wm room)

pub update_region_last :
    (wm : Wm) (a b : Point)
    → wm.num_updates ≡ 127
    → update_region wm a b
      ≡ write_update (set_full_update (0, record wm { num_updates = 1 })) 127 (region wm a b)
unfolding update_region
update_region_last wm a b last =
    ap (λ (p : ℕ × Wm). write_update p.1 p.0 (region wm a b)) (alloc_last wm last)

-- Whatever its corners, `update_region` keeps the regions on the screen and fewer than the array
-- holds.
pub update_region-IsValid : (wm : Wm) (a b : Point) → IsValid wm → IsValid (update_region wm a b)
unfolding write_update set_full_update normalize_point
update_region-IsValid wm a b valid = elim (dec_lt wm.num_updates 127) [
  | yes room ↦
      rw (update_region_next wm a b room) (omega arith, λ k h. ground (arith, valid.1 k, h))
  | no full ↦
      let last : wm.num_updates ≡ 127 = omega (arith, valid.0) in
      rw (update_region_last wm a b last) (omega arith, λ k h. ground (arith, h))
]

-- Corners in order stay as they are.
corners :
    (a b : Point)
    → a.x ≤ b.x
    → a.y ≤ b.y
    → b.x < 2 ^ 31
    → b.y < 2 ^ 31
    → ((if point_less_than a b then a else b) ≡ a) × ((if point_less_than a b then b else a) ≡ b)
unfolding point_less_than
corners a b hx hy bx by = elim (Bool-cases (point_less_than a b)) [
  | inl e ↦ rw e (refl, refl)
  | inr e ↦
      let same_y : b.y ≡ a.y = ground (arith, e, hx, hy, bx, by) in
      let same_x : b.x ≡ a.x = ground (arith, e, hx, hy, bx, by) in
      rw e (point_ext same_x same_y, sym (point_ext same_x same_y))
]

clamped : (size v x : ℕ) → v < 2 ^ 31 → ltb x (clamp size v) ≡ (ltb x size && ltb x v)
clamped size v x small = ground arith

clamped_low :
    (size v x : ℕ) → v < 2 ^ 31 → (ltb x size && leb (clamp size v) x) ≡ (ltb x size && leb v x)
clamped_low size v x small = ground arith

inside-region :
    (wm : Wm) (a b : Point) (x y : ℕ)
    → a.x ≤ b.x
    → a.y ≤ b.y
    → b.x < 2 ^ 31
    → b.y < 2 ^ 31
    → inside (region wm a b) x y
      ≡ (ltb x wm.width && ltb y wm.height && (leb a.x x && ltb x b.x && (leb a.y y && ltb y b.y)))
unfolding normalize_point
inside-region wm a b x y hx hy bx by =
    let (low, high) = corners a b hx hy bx by in
    rw (low, high, clamped wm.width b.x x bx, clamped wm.height b.y y by)
      (ground (
        arith,
        clamped_low wm.width a.x x (omega arith),
        clamped_low wm.height a.y y (omega arith),
      ))

-- In a state with valid regions, for corners in order and below 2 ^ 31, `update_region` adds to the
-- places that are to be drawn exactly the region's part on the screen, or, when it takes the last
-- entry of the array, makes them the whole screen.
pub dirty-update_region :
    (wm : Wm) (a b : Point) (x y : ℕ)
    → IsValid wm
    → a.x ≤ b.x
    → a.y ≤ b.y
    → b.x < 2 ^ 31
    → b.y < 2 ^ 31
    → dirty (update_region wm a b) x y ≡ (
        if wm.num_updates == 127
        then ltb x wm.width && ltb y wm.height
        else (ltb x wm.width
            && ltb y wm.height
            && (leb a.x x && ltb x b.x && (leb a.y y && ltb y b.y)))
          || dirty wm x y)
unfolding write_update set_full_update covered
dirty-update_region wm a b x y valid hx hy bx by = elim (dec_lt wm.num_updates 127) [
  | yes room ↦
      let kept =
        covered-write wm.num_updates wm.num_updates wm.updates (region wm a b) x y (omega arith) in
      let new = inside-region wm a b x y hx hy bx by in
      let n : (wm.num_updates == 127) ≡ false = ground arith in
      rw (update_region_next wm a b room, n) (ground (arith, kept, new))
  | no full ↦
      let last : wm.num_updates ≡ 127 = omega (arith, valid.0) in
      rw (update_region_last wm a b last, last) (ground arith)
]
