-- ===== src/WindowManager/Events/Raise.antt =====
-- What `handle_mouse` does to the order of the windows.
use c4_os.Prelude.{◌≡◌, refl, ap, ◌∙◌, true, false, List, [], ◌∷◌, ◌++◌, All, All-mono, append-nil}
use c4_os.WindowManager.{
  Window, Wm, update_mouse_region, update_window_region, normalize_point, rect_max_coord,
}
use c4_os.WindowManager.Events.{
  rejoin, raise, MouseEvent, mouse_windows, under_mouse, flag_left, handle_mouse, move_mouse,
}
use c4_os.WindowManager.Screen.{IsValid, update_region-IsValid}
use c4_os.WindowManager.Events.Marks.{update_region_fields}
use c4_os.WindowManager.Events.Pointer.{mouse_fields}
use c4_os.WindowManager.Events.Shown.{rejoin-rejoin}

-- Windows that the mouse is not on are passed.
passed :
    (wm : Wm) (ev : MouseEvent) (behind before done : List Window)
    → All (λ w. under_mouse wm w ≡ false) behind
    → mouse_windows wm ev (rejoin behind before) done ≡ mouse_windows wm ev before (behind ++ done)
unfolding mouse_windows rejoin
passed wm ev [] before done missed = refl
passed wm ev (w ∷ behind) before done missed =
    passed wm ev behind (w ∷ before) done missed.1 ∙ rw missed.0 refl

pub rejoin-split :
    (before behind done : List Window)
    → rejoin (before ++ behind) done ≡ rejoin behind (rejoin before done)
unfolding rejoin
rejoin-split [] behind done = refl
rejoin-split (w ∷ before) behind done = rejoin-split before behind (w ∷ done)

-- Marking a window or the cursor keeps the windows.
window_fields :
    (wm : Wm) (window : Window)
    → IsValid wm
    → update_window_region wm window ≡ record wm {
      updates = (update_window_region wm window).updates;
      num_updates = (update_window_region wm window).num_updates;
    }
unfolding update_window_region
window_fields wm window valid = update_region_fields wm _ _ valid

window_mark-IsValid :
    (wm : Wm) (window : Window) → IsValid wm → IsValid (update_window_region wm window)
unfolding update_window_region
window_mark-IsValid wm window valid = update_region-IsValid wm _ _ valid

pub window_mark :
    (wm : Wm) (window : Window)
    → IsValid wm
    → ((update_window_region wm window).windows ≡ wm.windows)
      × IsValid (update_window_region wm window)
window_mark wm window valid =
    let f = window_fields wm window valid in
    (ap (λ (s : Wm). s.windows) f, window_mark-IsValid wm window valid)

mouse_mark-IsValid : (wm : Wm) → IsValid wm → IsValid (update_mouse_region wm)
unfolding update_mouse_region
mouse_mark-IsValid wm valid = update_region-IsValid wm _ _ valid

mouse_mark :
    (wm : Wm)
    → IsValid wm
    → ((update_mouse_region wm).windows ≡ wm.windows) × IsValid (update_mouse_region wm)
mouse_mark wm valid =
    let f = mouse_fields wm valid in (ap (λ (s : Wm). s.windows) f, mouse_mark-IsValid wm valid)

-- A raised window is the last one.
raised :
    (wm : Wm) (before : List Window) (window : Window) (behind : List Window)
    → IsValid wm
    → ((raise wm before window behind).windows ≡ rejoin before behind ++ window ∷ [])
      × IsValid (raise wm before window behind)
unfolding raise
raised wm before window behind valid =
    let marked = update_window_region wm window in
    window_mark (record marked { windows = rejoin before behind ++ window ∷ [] }) window
      (window_mark wm window valid).1

module _ (wm : Wm) (ev : MouseEvent) (before : List Window) (window : Window) (behind : List Window)
    (valid : IsValid wm) where
  abbrev marked : Wm
  marked = update_mouse_region wm

  -- The mark does not change what the mouse is on.
  under_marked : (w : Window) → under_mouse marked w ≡ under_mouse wm w
  unfolding under_mouse rect_max_coord normalize_point
  under_marked w = ap (λ (s : Wm). under_mouse s w) (mouse_fields wm valid)

  click :
      wm.windows ≡ before ++ window ∷ behind
      → under_mouse wm window ≡ true
      → All (λ w. under_mouse wm w ≡ false) behind
      → flag_left ev.flags ≡ true
      → mouse_windows marked ev (rejoin marked.windows []) []
        ≡ raise marked (rejoin before []) window (behind ++ [])
  unfolding mouse_windows rejoin
  click split hit missed left =
      let nodes =
        ap (λ (ws : List Window). rejoin ws []) ((mouse_mark wm valid).0 ∙ split)
        ∙ rejoin-split before (window ∷ behind) [] in
      let missed' =
        All-mono (λ w. under_mouse wm w ≡ false) (λ w. under_mouse marked w ≡ false) behind
          (λ w e. under_marked w ∙ e) missed in
      ap (λ (ws : List Window). mouse_windows marked ev ws []) nodes
      ∙ passed marked ev behind (window ∷ rejoin before []) [] missed'
      ∙ rw (under_marked window ∙ hit, left) refl

-- In a state with valid regions, where the mouse is on a window and on none of those above it, an
-- event with the left button down puts this window on top and leaves the others in their order.
pub handle_mouse-raise :
    (wm : Wm) (ev : MouseEvent) (before : List Window) (window : Window) (behind : List Window)
    → IsValid wm
    → wm.windows ≡ before ++ window ∷ behind
    → under_mouse wm window ≡ true
    → All (λ w. under_mouse wm w ≡ false) behind
    → flag_left ev.flags ≡ true
    → (handle_mouse wm ev).windows ≡ (before ++ behind) ++ window ∷ []
unfolding handle_mouse move_mouse rejoin
handle_mouse-raise wm ev before window behind valid split hit missed left =
    let acted = raise (update_mouse_region wm) (rejoin before []) window (behind ++ []) in
    let r =
      raised (update_mouse_region wm) (rejoin before []) window (behind ++ [])
        (mouse_mark wm valid).1 in
    let all = rejoin-rejoin before [] (behind ++ []) in
    ap (λ (s : Wm). (update_mouse_region (move_mouse s ev)).windows)
      (click wm ev before window behind valid split hit missed left)
    ∙ (mouse_mark (move_mouse acted ev) r.1).0
    ∙ r.0
    ∙ ap (λ (ws : List Window). ws ++ window ∷ []) all
    ∙ ap (λ (ws : List Window). (before ++ ws) ++ window ∷ []) (append-nil behind)
