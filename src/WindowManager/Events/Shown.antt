-- ===== src/WindowManager/Events/Shown.antt =====
-- On what the framebuffer shows outside of the regions to draw: the windows.
use mathlib.Core.Path.{subst}
use c4_os.Prelude.{
  append_assoc, ℕ, ◌+◌, ◌≤◌, ◌<◌, ◌^◌, ◌≡◌, refl, ap, ◌∙◌, sym, List, [], ◌∷◌, ◌++◌, All,
}
use c4_os.WindowManager.{Point, Window, Wm, update_region}
use c4_os.WindowManager.Screen.{IsValid, update_region-IsValid}
use c4_os.WindowManager.Draw.{window_pixel}
use c4_os.WindowManager.Draw.Pixels.{Fits, pixel_at}
use c4_os.WindowManager.Draw.Windows.{IsPlain}
use c4_os.WindowManager.Draw.Scene.{scene, windows_scene, decoration_scene, over}
use c4_os.WindowManager.Events.{rejoin}
use c4_os.WindowManager.Events.Marks.{IsClean, IsOutside, update_region_fields}

-- A window that stays within the coordinates wherever its corner is put on the screen.
pub record IsPlaced (width height : ℕ) (window : Window) : Type 0 where
  pub plain : IsPlain window
  pub wide : width + window.rect.rect_width + 6 < 2 ^ 31
  pub high : height + window.rect.rect_height + 6 < 2 ^ 31

-- The mouse is on the screen, and its cursor is made of bytes and stays within the coordinates.
pub record IsPointer (wm : Wm) : Type 0 where
  pub mouse_x : wm.mouse.x ≤ wm.width
  pub mouse_y : wm.mouse.y ≤ wm.height
  pub cursor_x : wm.width + wm.mouse_cursor.ppm_width < 2 ^ 31
  pub cursor_y : wm.height + wm.mouse_cursor.ppm_height < 2 ^ 31
  pub cursor_bytes : (i : ℕ) → wm.mouse_cursor.pixbuf i < 2 ^ 8

pub record IsSteady (wm : Wm) : Type 0 where
  pub valid : IsValid wm
  pub fits : Fits wm.width wm.height
  pub placed : All (IsPlaced wm.width wm.height) wm.windows
  pub pointer : IsPointer wm

-- The framebuffer shows the scene in every clean place of the screen.
pub record IsShown (wm : Wm) : Type 0 where
  pub steady : IsSteady wm
  pub shows :
      (px py : ℕ)
      → px < wm.width
      → py < wm.height
      → IsClean wm px py
      → pixel_at wm.width wm.framebuffer px py ≡ scene wm px py

-- A mark leaves a shown state, where the places that stay clean show the scene before it.
pub update_region-IsShown :
    (wm : Wm) (a b : Point)
    → IsSteady wm
    → ((px py : ℕ)
        → px < wm.width
        → py < wm.height
        → IsClean (update_region wm a b) px py
        → pixel_at wm.width wm.framebuffer px py ≡ scene wm px py)
    → IsShown (update_region wm a b)
update_region-IsShown wm a b steady shows =
    let marked = update_region wm a b in
    let fields = update_region_fields wm a b steady.valid in
    let result : IsShown
        (record wm { updates = marked.updates; num_updates = marked.num_updates }) =
      record {
        steady = record {
          valid = subst IsValid fields (update_region-IsValid wm a b steady.valid);
          fits = steady.fits;
          placed = steady.placed;
          pointer = record {
            mouse_x = steady.pointer.mouse_x;
            mouse_y = steady.pointer.mouse_y;
            cursor_x = steady.pointer.cursor_x;
            cursor_y = steady.pointer.cursor_y;
            cursor_bytes = steady.pointer.cursor_bytes;
          };
        };
        shows = shows;
      } in
    subst IsShown (sym fields) result

pub windows_scene-append :
    (xs ys : List Window) (px py c : ℕ)
    → windows_scene (xs ++ ys) px py c ≡ windows_scene ys px py (windows_scene xs px py c)
unfolding windows_scene
windows_scene-append [] ys px py c = refl
windows_scene-append (w ∷ xs) ys px py c =
    windows_scene-append xs ys px py
      (decoration_scene w.rect px py (over w.rect (window_pixel w px py) px py c))

-- A window that is elsewhere shows nothing at a place.
pub windows_scene-IsOutside :
    (window : Window) (rest : List Window) (px py c : ℕ)
    → IsOutside window.rect px py
    → windows_scene (window ∷ rest) px py c ≡ windows_scene rest px py c
unfolding windows_scene
windows_scene-IsOutside window rest px py c out =
    rw (out.own, out.title, out.text, out.left, out.right, out.bottom) refl

pub rejoin-append :
    (before behind : List Window) → rejoin before behind ≡ rejoin before [] ++ behind
unfolding rejoin
rejoin-append [] behind = refl
rejoin-append (w ∷ before) behind =
    rejoin-append before (w ∷ behind)
    ∙ sym (append_assoc (rejoin before []) (w ∷ []) behind)
    ∙ ap (λ ws. ws ++ behind) (sym (rejoin-append before (w ∷ [])))

pub rejoin-rejoin :
    (ws done behind : List Window) → rejoin (rejoin ws done) behind ≡ rejoin done (ws ++ behind)
unfolding rejoin
rejoin-rejoin [] done behind = refl
rejoin-rejoin (w ∷ ws) done behind = rejoin-rejoin ws (w ∷ done) behind
