-- ===== src/WindowManager/Tests.antt =====
-- Runs of the window manager of programs/stubbywm.
use c4_os.WindowManager.{update_depth}
use c4_os.Prelude.{
  ℕ, ◌^◌, ◌≡◌, refl, arith, true, false, [], ◌∷◌, ◌++◌, if◌then◌else◌, ltb, leb, ◌&&◌, ◌||◌, ◌==◌,
  ◌-◌,
}
use c4_os.WindowManager.{
  Window, Wm, update_region, alloc_update, set_full_update, reset_updates, write_update,
  update_mouse_region, update_window_region, rect_max_coord, normalize_point, point_less_than,
}
use c4_os.WindowManager.Screen.{IsValid, dirty, covered, dirty-update_region}
use c4_os.WindowManager.Draw.{
  mix_channel, frame, shade, draw_windows, draw_background, draw_framebuffer,
}
use c4_os.WindowManager.Draw.Pixels.{Fits, pixel_at}
use c4_os.WindowManager.Draw.Windows.{IsPlain}
use c4_os.WindowManager.Draw.Scene.{scene}
use c4_os.WindowManager.Draw.Frame.{frame-scene}
use c4_os.WindowManager.Events.{
  MouseEvent, mouse_event, handle_mouse, under_mouse, event_loop, rounds, round, dispatch_all,
  dispatch, mouse_windows, raise, move_mouse, rejoin,
}
use c4_os.WindowManager.Events.{Resources, server_handle_new_window}
use c4_os.WindowManager.Events.Shown.{IsShown, IsSteady}
use c4_os.WindowManager.Events.Server.{new_window, server_handle_new_window-IsShown}
use c4_os.WindowManager.Events.Loop.{start-IsShown, event_loop-scene}
use c4_os.WindowManager.Events.Raise.{handle_mouse-raise}

abbrev red_window : Window
red_window = record {
  rect = record { coord = record { x = 2; y = 1 }; rect_height = 3; rect_width = 4 };
  pixels = λ i. 0xff0000;
  color = 7;
  has_buffer = true;
  to_port = 1;
  from_port = 2;
  sync_port = 3;
}

-- One that starts left of the screen.
abbrev blue_window : Window
blue_window = record {
  rect = record { coord = record { x = 2 ^ 32 - 1; y = 0 }; rect_height = 2; rect_width = 3 };
  pixels = λ i. i;
  color = 9;
  has_buffer = true;
  to_port = 4;
  from_port = 5;
  sync_port = 6;
}

abbrev desk : Wm
desk = record {
  windows = red_window ∷ blue_window ∷ [];
  mouse = record { x = 3; y = 2 };
  mouse_cursor = record { version = 54; ppm_width = 1; ppm_height = 1; pixbuf = λ i. 0 };
  updates = λ k. record { lower = record { x = 0; y = 0 }; upper = record { x = 6; y = 5 } };
  num_updates = 1;
  buffer = λ i. 0;
  framebuffer = λ i. 0x80808080;
  width = 8;
  height = 6;
}

abbrev click : MouseEvent
click = record { flags = 1; move_x = 1; move_y = 2 ^ 32 - 1 }

desk-Fits : Fits desk.width desk.height
desk-Fits = (omega arith, omega arith, omega arith)

desk-IsValid : IsValid desk
desk-IsValid = (omega arith, λ k h. ((omega arith, omega arith), (omega arith, omega arith)))

red-IsPlain : IsPlain red_window
red-IsPlain = record {
  side_x = (omega arith, omega arith, omega arith, omega arith);
  side_y = (omega arith, omega arith, omega arith, omega arith);
  opaque = λ i. omega arith;
}

-- The second one is cut to a transparent free window for the theorems.
abbrev left_window : Window
left_window = record blue_window { pixels = λ i. 255 }

abbrev desktop : Wm
desktop = record desk { windows = red_window ∷ left_window ∷ [] }

left-IsPlain : IsPlain left_window
left-IsPlain = record {
  side_x = (omega arith, omega arith, omega arith, omega arith);
  side_y = (omega arith, omega arith, omega arith, omega arith);
  opaque = λ i. omega arith;
}

desktop-IsSteady : IsSteady desktop
desktop-IsSteady = record {
  valid = desk-IsValid;
  fits = desk-Fits;
  placed = (
    record { plain = red-IsPlain; wide = omega arith; high = omega arith },
    (record { plain = left-IsPlain; wide = omega arith; high = omega arith }, tt),
  );
  pointer = record {
    mouse_x = omega arith;
    mouse_y = omega arith;
    cursor_x = omega arith;
    cursor_y = omega arith;
    cursor_bytes = λ i. omega arith;
  };
}

abbrev later : Wm
later = event_loop desktop ((mouse_event click ∷ []) ∷ [])

later_size : (later.width ≡ 8) × (later.height ≡ 6)
unfolding event_loop rounds round dispatch_all dispatch handle_mouse update_mouse_region
    update_region alloc_update write_update reset_updates set_full_update mouse_windows under_mouse
    rect_max_coord normalize_point raise update_window_region move_mouse rejoin frame draw_windows
    draw_background draw_framebuffer
later_size = (refl, refl)

event_loop-scene_example : pixel_at later.width (frame later).framebuffer 3 2 ≡ scene later 3 2
event_loop-scene_example =
    event_loop-scene desktop ((mouse_event click ∷ []) ∷ []) 3 2 desktop-IsSteady
      (omega (arith, later_size.0)) (omega (arith, later_size.1))

frame-scene_example :
    (pixel_at 8 (frame desktop).framebuffer 3 2
      ≡ (if dirty desktop 3 2 then scene desktop 3 2 else 0x80808080))
    × ((frame desktop).num_updates ≡ 0)
frame-scene_example =
    frame-scene desktop 3 2 (desk-Fits, desk-IsValid)
      (record {
        windows_plain = (red-IsPlain, (left-IsPlain, tt));
        cursor_rect = (omega arith, omega arith, omega arith, omega arith);
        cursor_bytes = λ i. omega arith;
      })
      (omega arith) (omega arith)

shaded : shade 0 0x40ffffff ≡ 0x404040
unfolding shade mix_channel
shaded = refl

dirty-update_region_example :
    dirty (update_region desktop (record { x = 1; y = 1 }) (record { x = 9; y = 4 })) 7 3 ≡ (
      if desktop.num_updates == 127
      then ltb 7 8 && ltb 3 6
      else (ltb 7 8 && ltb 3 6 && (leb 1 7 && ltb 7 9 && (leb 1 3 && ltb 3 4)))
        || dirty desktop 7 3)
dirty-update_region_example =
    dirty-update_region desktop (record { x = 1; y = 1 }) (record { x = 9; y = 4 }) 7 3 desk-IsValid
      (omega arith) (omega arith) (omega arith) (omega arith)

-- The mouse is on the lower window only.
handle_mouse-raise_example :
    (handle_mouse desktop click).windows ≡ ([] ++ left_window ∷ []) ++ red_window ∷ []
unfolding under_mouse rect_max_coord normalize_point
handle_mouse-raise_example =
    handle_mouse-raise desktop click [] red_window (left_window ∷ []) desk-IsValid refl refl
      (refl, tt) refl

-- Corners out of order are exchanged as wholes, so that the region can be empty.
crossed :
    dirty
      (update_region (reset_updates desk) (record { x = 5; y = 1 }) (record { x = 2; y = 4 }))
      3
      2
    ≡ false
unfolding update_region alloc_update write_update reset_updates covered normalize_point
    point_less_than
crossed = refl

-- The desktop when the loop starts, all of it to draw.
abbrev started : Wm
started = set_full_update (alloc_update update_depth (reset_updates desktop))

abbrev given : Resources
given = record { new_color = 77; new_to_port = 10; new_from_port = 11; new_sync_port = 12 }

abbrev black : ℕ → ℕ → ℕ
black size i = 0

started_size : (started.width ≡ 8) × (started.height ≡ 6)
unfolding alloc_update set_full_update write_update reset_updates
started_size = (refl, refl)

server_handle_new_window-IsShown_example :
    let (after, reply) = server_handle_new_window black started 5 6 3 2 given in
    IsShown after
    × (after.windows ≡ started.windows ++ new_window black 3 2 given ∷ [])
    × (reply ≡ 5 ∷ 6 ∷ 3 ∷ 2 ∷ 77 ∷ [])
server_handle_new_window-IsShown_example =
    server_handle_new_window-IsShown black started 5 6 3 2 given
      (start-IsShown desktop desktop-IsSteady) (omega (arith, started_size.0))
      (omega (arith, started_size.1)) (λ size i. omega arith)
