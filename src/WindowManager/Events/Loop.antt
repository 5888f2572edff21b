-- ===== src/WindowManager/Events/Loop.antt =====
-- On what the framebuffer shows outside of the regions to draw: the event loop.
use c4_os.Prelude.{
  ℕ, ◌<◌, ◌≡◌, refl, ◌∙◌, ◌==◌, arith, Bool-cases, inl, inr, List, [], ◌∷◌, All, All-mono, Option,
  none, some,
}
use c4_os.WindowManager.{
  Window, Wm, update_window_region, set_full_update, alloc_update, write_update, reset_updates,
  update_depth,
}
use c4_os.WindowManager.Screen.{dirty, covered}
use c4_os.WindowManager.Draw.{frame, draw_windows, draw_background, draw_framebuffer}
use c4_os.WindowManager.Draw.Pixels.{pixel_at}
use c4_os.WindowManager.Draw.Windows.{IsPlain}
use c4_os.WindowManager.Draw.Scene.{scene}
use c4_os.WindowManager.Draw.Frame.{IsPicture, frame-scene}
use c4_os.WindowManager.Events.{
  handle_client_update, find_client, Event, mouse_event, keyboard_event, client_update, other_event,
  dispatch, dispatch_all, round, rounds, event_loop,
}
use c4_os.WindowManager.Events.Marks.{update_window_region-IsOutside}
use c4_os.WindowManager.Events.Shown.{IsPlaced, IsSteady, IsShown, update_region-IsShown}
use c4_os.WindowManager.Events.Pointer.{handle_mouse-IsShown}

abbrev IsFound {κ} : (Window → Type κ) → Option Window → Type κ
IsFound P none = Unit
IsFound P (some window) = P window

find_client-IsFound :
    (P : Window → Type 0) (windows : List Window) (id : ℕ)
    → All P windows
    → IsFound P (find_client windows id)
unfolding find_client
find_client-IsFound P [] id all = tt
find_client-IsFound P (window ∷ rest) id all = elim (Bool-cases (id == window.color)) [
  | inl e ↦ rw e all.0
  | inr e ↦ rw e (find_client-IsFound P rest id all.1)
]

marked-IsShown :
    (wm : Wm) (window : Window)
    → IsShown wm
    → IsPlaced wm.width wm.height window
    → IsShown (update_window_region wm window)
unfolding update_window_region
marked-IsShown wm window shown is =
    let steady = shown.steady in
    update_region-IsShown wm _ _ steady (λ px py on_x on_y clean.
      shown.shows px py on_x on_y
        (update_window_region-IsOutside wm window px py steady.valid steady.fits is.plain.side_x
          is.plain.side_y on_x on_y clean).0)

-- A client's message only marks its window.
handle_client_update-IsShown :
    (wm : Wm) (id : ℕ) → IsShown wm → IsShown (handle_client_update wm id)
unfolding handle_client_update
handle_client_update-IsShown wm id shown =
    mark (find_client wm.windows id)
      (find_client-IsFound (IsPlaced wm.width wm.height) wm.windows id shown.steady.placed)
  where
    mark :
        (found : Option Window)
        → IsFound (IsPlaced wm.width wm.height) found
        → IsShown (elim found [ none ↦ wm | some window ↦ update_window_region wm window ])
    mark none is = shown
    mark (some window) is = marked-IsShown wm window shown is

dispatch-IsShown : (wm : Wm) (event : Event) → IsShown wm → IsShown (dispatch wm event).0
unfolding dispatch
dispatch-IsShown wm (mouse_event ev) shown = handle_mouse-IsShown wm ev shown
dispatch-IsShown wm (keyboard_event key) shown = shown
dispatch-IsShown wm (client_update id) shown = handle_client_update-IsShown wm id shown
dispatch-IsShown wm other_event shown = shown

dispatch_all-IsShown :
    (wm : Wm) (events : List Event) → IsShown wm → IsShown (dispatch_all wm events)
unfolding dispatch_all
dispatch_all-IsShown wm [] shown = shown
dispatch_all-IsShown wm (event ∷ rest) shown =
    dispatch_all-IsShown (dispatch wm event).0 rest (dispatch-IsShown wm event shown)

steady-IsPicture : (wm : Wm) → IsSteady wm → IsPicture wm
steady-IsPicture wm steady =
    let fits = steady.fits in
    let p = steady.pointer in
    let mx = p.mouse_x in
    let my = p.mouse_y in
    let cx = p.cursor_x in
    let cy = p.cursor_y in
    record {
      windows_plain =
          All-mono (IsPlaced wm.width wm.height) IsPlain wm.windows (λ w is. is.plain)
            steady.placed;
      cursor_rect =
          (omega (arith, mx, cx), omega (arith, my, cy), omega (arith, cx), omega (arith, cy));
      cursor_bytes = p.cursor_bytes;
    }

-- After a frame the framebuffer shows the scene everywhere.
frame_shows :
    (wm : Wm) (px py : ℕ)
    → IsShown wm
    → px < wm.width
    → py < wm.height
    → pixel_at wm.width (frame wm).framebuffer px py ≡ scene wm px py
frame_shows wm px py shown on_x on_y =
    let steady = shown.steady in
    let drawn =
      frame-scene wm px py (steady.fits, steady.valid) (steady-IsPicture wm steady) on_x on_y in
    elim (Bool-cases (dirty wm px py)) [
      | inl e ↦ drawn.0 ∙ rw e refl
      | inr e ↦ drawn.0 ∙ rw e (shown.shows px py on_x on_y e)
    ]

frame-IsShown : (wm : Wm) → IsShown wm → IsShown (frame wm)
unfolding frame reset_updates draw_windows draw_background draw_framebuffer covered
frame-IsShown wm shown = record {
  steady = record {
    valid = (omega arith, λ k h. absurd (omega (arith, h)));
    fits = shown.steady.fits;
    placed = shown.steady.placed;
    pointer = record {
      mouse_x = shown.steady.pointer.mouse_x;
      mouse_y = shown.steady.pointer.mouse_y;
      cursor_x = shown.steady.pointer.cursor_x;
      cursor_y = shown.steady.pointer.cursor_y;
      cursor_bytes = shown.steady.pointer.cursor_bytes;
    };
  };
  shows = λ px py on_x on_y clean. frame_shows wm px py shown on_x on_y;
}

rounds-IsShown : (wm : Wm) (events : List (List Event)) → IsShown wm → IsShown (rounds wm events)
unfolding rounds round
rounds-IsShown wm [] shown = shown
rounds-IsShown wm (now ∷ rest) shown =
    rounds-IsShown (round wm now) rest
      (dispatch_all-IsShown (frame wm) now (frame-IsShown wm shown))

-- The loop starts with the whole screen to draw.
pub start-IsShown :
    (wm : Wm)
    → IsSteady wm
    → IsShown (set_full_update (alloc_update update_depth (reset_updates wm)))
unfolding set_full_update alloc_update reset_updates write_update covered
start-IsShown wm steady = record {
  steady = record {
    valid = (omega arith, λ k h. ground (arith, h));
    fits = steady.fits;
    placed = steady.placed;
    pointer = record {
      mouse_x = steady.pointer.mouse_x;
      mouse_y = steady.pointer.mouse_y;
      cursor_x = steady.pointer.cursor_x;
      cursor_y = steady.pointer.cursor_y;
      cursor_bytes = steady.pointer.cursor_bytes;
    };
  };
  shows = λ px py on_x on_y clean. absurd (ground (arith, on_x, on_y, clean));
}

-- From a state whose windows and cursor stay within the coordinates, on a screen that memory can
-- hold, and with opaque windows whose memory stays as it is: whatever the rounds' mouse, keyboard and
-- client messages are, after the next frame every pixel of the framebuffer shows the scene of the
-- state that they led to.
pub event_loop-scene :
    (wm : Wm) (events : List (List Event)) (px py : ℕ)
    → IsSteady wm
    → px < (event_loop wm events).width
    → py < (event_loop wm events).height
    → let s = event_loop wm events in pixel_at s.width (frame s).framebuffer px py ≡ scene s px py
unfolding event_loop
event_loop-scene wm events px py steady on_x on_y =
    frame_shows (event_loop wm events) px py
      (rounds-IsShown (set_full_update (alloc_update update_depth (reset_updates wm))) events
        (start-IsShown wm steady))
      on_x on_y
