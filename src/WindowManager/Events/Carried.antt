-- ===== src/WindowManager/Events/Carried.antt =====
-- On what the framebuffer shows outside of the regions to draw: steps that change the
-- windows where one of them lies.
use mathlib.Core.Path.{subst}
use c4_os.Prelude.{ℕ, ◌<◌, ◌≡◌, ap, ◌∙◌, sym, List, [], ◌∷◌, All, All-append, All-left, All-right}
use c4_os.WindowManager.{Window, Wm, Update, update_window_region}
use c4_os.WindowManager.Screen.{IsValid}
use c4_os.WindowManager.Draw.{background}
use c4_os.WindowManager.Draw.Scene.{windows_scene, cursor_scene, status_scene}
use c4_os.WindowManager.Events.{rejoin}
use c4_os.WindowManager.Events.Marks.{
  IsClean, IsOutside, update_region_fields, update_window_region-IsOutside,
}
use c4_os.WindowManager.Events.Shown.{
  IsPlaced, IsSteady, IsShown, update_region-IsShown, windows_scene-append, windows_scene-IsOutside,
  rejoin-append,
}

-- A step that leaves a shown state, the mouse where it was, and nothing clean that was not.
pub record IsCarried (wm after : Wm) : Type 0 where
  pub shown : IsShown after
  pub same_mouse : after.mouse ≡ wm.mouse
  pub same_cursor : after.mouse_cursor ≡ wm.mouse_cursor
  pub same_width : after.width ≡ wm.width
  pub same_height : after.height ≡ wm.height
  pub clean : (px py : ℕ) → px < wm.width → py < wm.height → IsClean after px py → IsClean wm px py

-- The windows may change where the mark of one of them lies.
module _ (wm : Wm) (ups : ℕ → Update) (n : ℕ) (windows : List Window) (window : Window)
    (shown : IsShown wm) where
  abbrev pub changed : Wm
  changed = record wm { updates = ups; num_updates = n; windows = windows }

  pub change-IsCarried :
      IsValid changed
      → All (IsPlaced wm.width wm.height) windows
      → IsPlaced wm.width wm.height window
      → ((px py : ℕ)
          → px < wm.width
          → py < wm.height
          → IsClean changed px py
          → IsOutside window.rect px py
          → IsClean wm px py
            × (windows_scene windows px py (background px py)
                ≡ windows_scene wm.windows px py (background px py)))
      → IsCarried wm (update_window_region changed window)
  unfolding update_window_region
  change-IsCarried valid placed is same =
      let steady = shown.steady in
      let known : IsSteady changed = record {
        valid = valid;
        fits = steady.fits;
        placed = placed;
        pointer = record {
          mouse_x = steady.pointer.mouse_x;
          mouse_y = steady.pointer.mouse_y;
          cursor_x = steady.pointer.cursor_x;
          cursor_y = steady.pointer.cursor_y;
          cursor_bytes = steady.pointer.cursor_bytes;
        };
      } in
      let after = update_window_region changed window in
      record {
        shown = update_region-IsShown changed _ _ known (λ px py on_x on_y clean.
            let o = outside px py on_x on_y known clean in
            let (before, scenes) = same px py on_x on_y o.0 o.1 in
            shown.shows px py on_x on_y before
            ∙ ap
                (λ (c : ℕ).
                  cursor_scene wm.mouse_cursor wm.mouse px py
                    (status_scene wm.width wm.height px py c))
                (sym scenes));
        same_mouse = ap (λ (s : Wm). s.mouse) fields;
        same_cursor = ap (λ (s : Wm). s.mouse_cursor) fields;
        same_width = ap (λ (s : Wm). s.width) fields;
        same_height = ap (λ (s : Wm). s.height) fields;
        clean = λ px py on_x on_y clean.
            let o = outside px py on_x on_y known clean in (same px py on_x on_y o.0 o.1).0;
      }
    where
      fields : update_window_region changed window ≡ record changed {
        updates = (update_window_region changed window).updates;
        num_updates = (update_window_region changed window).num_updates;
      }
      fields = update_region_fields changed _ _ valid

      outside :
          (px py : ℕ)
          → px < wm.width
          → py < wm.height
          → IsSteady changed
          → IsClean (update_window_region changed window) px py
          → IsClean changed px py × IsOutside window.rect px py
      outside px py on_x on_y known clean =
          update_window_region-IsOutside changed window px py valid known.fits is.plain.side_x
            is.plain.side_y on_x on_y clean

-- A window that lies elsewhere may be anywhere in the stack, or out of it.
pub without :
    (before : List Window) (window : Window) (behind : List Window) (px py c : ℕ)
    → IsOutside window.rect px py
    → windows_scene (rejoin before (window ∷ behind)) px py c
      ≡ windows_scene (rejoin before behind) px py c
without before window behind px py c out =
    let low = windows_scene (rejoin before []) px py c in
    ap (λ (ws : List Window). windows_scene ws px py c) (rejoin-append before (window ∷ behind))
    ∙ windows_scene-append (rejoin before []) (window ∷ behind) px py c
    ∙ windows_scene-IsOutside window behind px py low out
    ∙ sym (windows_scene-append (rejoin before []) behind px py c)
    ∙ ap (λ (ws : List Window). windows_scene ws px py c) (sym (rejoin-append before behind))

pub All-rejoin :
    (P : Window → Type 0) (before behind : List Window)
    → All P (rejoin before behind)
    → All P (rejoin before []) × All P behind
All-rejoin P before behind all =
    let split = subst (λ (ws : List Window). All P ws) (rejoin-append before behind) all in
    (All-left P (rejoin before []) behind split, All-right P (rejoin before []) behind split)

pub All-rejoined :
    (P : Window → Type 0) (before behind : List Window)
    → All P (rejoin before [])
    → All P behind
    → All P (rejoin before behind)
All-rejoined P before behind p q =
    subst (λ (ws : List Window). All P ws) (sym (rejoin-append before behind))
      (All-append P (rejoin before []) behind p q)
