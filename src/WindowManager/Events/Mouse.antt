-- ===== src/WindowManager/Events/Mouse.antt =====
-- On what the framebuffer shows outside of the regions to draw: `handle_mouse`.
use mathlib.Core.Path.{subst}
use c4_os.Prelude.{
  ℕ, ◌<◌, ◌≡◌, refl, ap, ◌∙◌, sym, arith, add32, sub32, Bool-cases, inl, inr, List, [], ◌∷◌, ◌++◌,
  All, All-append,
}
use c4_os.WindowManager.{Point, Window, Wm, update_window_region, normalize_point}
use c4_os.WindowManager.Screen.{IsValid, update_region-IsValid}
use c4_os.WindowManager.Draw.{background}
use c4_os.WindowManager.Draw.Pixels.{Fits}
use c4_os.WindowManager.Draw.Scene.{windows_scene}
use c4_os.WindowManager.Events.{
  rejoin, raise, drag, MouseEvent, window_set_pos, mouse_windows, under_mouse, flag_left,
  flag_right,
}
use c4_os.WindowManager.Events.Marks.{
  IsClean, IsOutside, update_region_fields, update_window_region-IsOutside,
}
use c4_os.WindowManager.Events.Shown.{
  IsPlaced, IsShown, windows_scene-append, windows_scene-IsOutside,
}
use c4_os.WindowManager.Events.Carried.{
  IsCarried, change-IsCarried, without, All-rejoin, All-rejoined,
}

module _ (wm : Wm) (before : List Window) (window : Window) (behind : List Window)
    (shown : IsShown wm) (split : wm.windows ≡ rejoin before (window ∷ behind)) where
  parts :
      All (IsPlaced wm.width wm.height) (rejoin before [])
      × All (IsPlaced wm.width wm.height) (window ∷ behind)
  parts =
      All-rejoin (IsPlaced wm.width wm.height) before (window ∷ behind) (
        subst (λ (ws : List Window). All (IsPlaced wm.width wm.height) ws) split
          shown.steady.placed)

  window_fields : update_window_region wm window ≡ record wm {
    updates = (update_window_region wm window).updates;
    num_updates = (update_window_region wm window).num_updates;
  }
  unfolding update_window_region
  window_fields = update_region_fields wm _ _ shown.steady.valid

  marked-IsValid : IsValid (update_window_region wm window)
  unfolding update_window_region
  marked-IsValid = update_region-IsValid wm _ _ shown.steady.valid

  window-IsValid : IsValid (record wm {
    updates = (update_window_region wm window).updates;
    num_updates = (update_window_region wm window).num_updates;
  })
  window-IsValid = subst IsValid window_fields marked-IsValid

  window_away :
      (px py : ℕ)
      → px < wm.width
      → py < wm.height
      → IsClean (update_window_region wm window) px py
      → IsClean wm px py × IsOutside window.rect px py
  window_away px py on_x on_y clean =
      let is = parts.1.0 in
      update_window_region-IsOutside wm window px py shown.steady.valid shown.steady.fits
        is.plain.side_x is.plain.side_y on_x on_y clean

  raise-IsCarried : IsCarried wm (raise wm before window behind)
  unfolding raise windows_scene
  raise-IsCarried =
      let ups = (update_window_region wm window).updates in
      let n = (update_window_region wm window).num_updates in
      let windows = rejoin before behind ++ window ∷ [] in
      let P = IsPlaced wm.width wm.height in
      let placed =
        All-append P (rejoin before behind) (window ∷ [])
          (All-rejoined P before behind parts.0 parts.1.1) (parts.1.0, tt) in
      let step =
        change-IsCarried wm ups n windows window shown window-IsValid placed parts.1.0
          (λ px py on_x on_y clean out.
            let c = background px py in
            (
              (window_away px py on_x on_y clean).0,
              windows_scene-append (rejoin before behind) (window ∷ []) px py c
                  ∙ windows_scene-IsOutside window [] px py _ out
                  ∙ sym (without before window behind px py c out)
                  ∙ ap (λ (ws : List Window). windows_scene ws px py c) (sym split),
            )) in
      subst
        (λ (s : Wm). IsCarried wm (update_window_region (record s { windows = windows }) window))
        (sym window_fields) step

  -- A window put elsewhere on the screen.
  moved-IsPlaced :
      (p : Point)
      → Fits wm.width wm.height
      → IsPlaced wm.width wm.height window
      → IsPlaced wm.width wm.height (window_set_pos window (normalize_point wm p))
  unfolding window_set_pos normalize_point
  moved-IsPlaced p fits is =
      let wide = is.wide in
      let high = is.high in
      let side_x = is.plain.side_x in
      let side_y = is.plain.side_y in
      record {
        plain = record {
          side_x =
              (ground (arith, fits), side_x.1, ground (arith, fits), ground (arith, fits, wide));
          side_y =
              (ground (arith, fits), side_y.1, ground (arith, fits), ground (arith, fits, high));
          opaque = is.plain.opaque;
        };
        wide = wide;
        high = high;
      }

  drag-IsCarried : (ev : MouseEvent) → IsCarried wm (drag wm ev before window behind)
  unfolding drag
  drag-IsCarried ev =
      let ups = (update_window_region wm window).updates in
      let n = (update_window_region wm window).num_updates in
      let P = IsPlaced wm.width wm.height in
      let pt : Point = record {
        x = add32 window.rect.coord.x ev.move_x;
        y = sub32 window.rect.coord.y ev.move_y;
      } in
      let moved = window_set_pos window (normalize_point wm pt) in
      let windows = rejoin before (moved ∷ behind) in
      let new = moved-IsPlaced pt shown.steady.fits parts.1.0 in
      let step =
        change-IsCarried wm ups n windows moved shown window-IsValid
          (All-rejoined P before (moved ∷ behind) parts.0 (new, parts.1.1)) new
          (λ px py on_x on_y clean out.
            let c = background px py in
            let away = window_away px py on_x on_y clean in
            (
              away.0,
              without before moved behind px py c out
                  ∙ sym (without before window behind px py c away.1)
                  ∙ ap (λ (ws : List Window). windows_scene ws px py c) (sym split),
            )) in
      subst
        (λ (s : Wm).
          let to = window_set_pos window (normalize_point s pt) in
          IsCarried wm
            (update_window_region (record s { windows = rejoin before (to ∷ behind) }) to))
        (sym window_fields) step

-- The loop over the windows, whatever it does.
pub mouse_windows-IsCarried :
    (wm : Wm) (ev : MouseEvent) (before behind : List Window)
    → IsShown wm
    → wm.windows ≡ rejoin before behind
    → IsCarried wm (mouse_windows wm ev before behind)
unfolding mouse_windows rejoin
mouse_windows-IsCarried wm ev [] behind shown split = record {
  shown = shown;
  same_mouse = refl;
  same_cursor = refl;
  same_width = refl;
  same_height = refl;
  clean = λ px py on_x on_y clean. clean;
}
mouse_windows-IsCarried wm ev (window ∷ before) behind shown split =
    let rest = mouse_windows-IsCarried wm ev before (window ∷ behind) shown split in
    elim (Bool-cases (under_mouse wm window)) [
      | inl hit ↦ elim (Bool-cases (flag_left ev.flags)) [
        | inl left ↦ rw (hit, left) (raise-IsCarried wm before window behind shown split)
        | inr none ↦ elim (Bool-cases (flag_right ev.flags)) [
          | inl right ↦
              rw (hit, none, right) (drag-IsCarried wm before window behind shown split ev)
          | inr other ↦ rw (hit, none, other) rest
        ]
      ]
      | inr missed ↦ rw missed rest
    ]
