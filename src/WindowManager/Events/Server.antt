-- ===== src/WindowManager/Events/Server.antt =====
-- What a new window and a key do.
use c4_os.Prelude.{
  ℕ, ◌+◌, ◌*◌, ◌%◌, ◌^◌, ◌<◌, ◌≡◌, refl, ap, ◌∙◌, arith, true, List, [], ◌∷◌, ◌++◌, All-append,
  Option, none, some, if◌then◌else◌,
}
use c4_os.WindowManager.{Window, Wm}
use c4_os.WindowManager.Draw.{background}
use c4_os.WindowManager.Draw.Scene.{windows_scene}
use c4_os.WindowManager.Events.{
  Resources, window_create, server_handle_new_window, handle_keyboard, rejoin,
}
use c4_os.WindowManager.Events.Shown.{
  IsPlaced, IsShown, windows_scene-append, windows_scene-IsOutside,
}
use c4_os.WindowManager.Events.Raise.{window_mark, rejoin-split}
use c4_os.WindowManager.Events.Carried.{change-IsCarried}

module _ (memobj_alloc : ℕ → ℕ → ℕ) where
  -- The window that is made for a request.
  abbrev pub new_window : ℕ → ℕ → Resources → Window
  new_window wide high given = record {
    rect = record { coord = record { x = 0; y = 0 }; rect_height = high; rect_width = wide };
    pixels = memobj_alloc (wide * high * 4 % 2 ^ 32);
    color = given.new_color;
    has_buffer = true;
    to_port = given.new_to_port;
    from_port = given.new_from_port;
    sync_port = given.new_sync_port;
  }

  new_window-IsPlaced :
      (wm : Wm) (wide high : ℕ) (given : Resources)
      → wm.width + wide + 6 < 2 ^ 31
      → wm.height + high + 6 < 2 ^ 31
      → ((size i : ℕ) → memobj_alloc size i < 2 ^ 24)
      → IsPlaced wm.width wm.height (new_window wide high given)
  new_window-IsPlaced wm wide high given fits_x fits_y opaque = record {
    plain = record {
      side_x = (omega arith, omega (arith, fits_x), omega arith, omega (arith, fits_x));
      side_y = (omega arith, omega (arith, fits_y), omega arith, omega (arith, fits_y));
      opaque = λ i. opaque (wide * high * 4 % 2 ^ 32) i;
    };
    wide = fits_x;
    high = fits_y;
  }

  -- In a state where the framebuffer shows the scene outside of the regions to draw, and for a size that
  -- stays within the coordinates and memory without alpha values, a request for a window puts the new
  -- window on top of the others, keeps the framebuffer showing the scene outside of the regions to draw,
  -- and is answered with the request's data and the window's number.
  pub server_handle_new_window-IsShown :
      (wm : Wm) (left top wide high : ℕ) (given : Resources)
      → IsShown wm
      → wm.width + wide + 6 < 2 ^ 31
      → wm.height + high + 6 < 2 ^ 31
      → ((size i : ℕ) → memobj_alloc size i < 2 ^ 24)
      → let (after, reply) = server_handle_new_window memobj_alloc wm left top wide high given in
        IsShown after
        × (after.windows ≡ wm.windows ++ new_window wide high given ∷ [])
        × (reply ≡ left ∷ top ∷ wide ∷ high ∷ given.new_color ∷ [])
  unfolding server_handle_new_window window_create windows_scene
  server_handle_new_window-IsShown wm left top wide high given shown fits_x fits_y opaque =
      let window = new_window wide high given in
      let placed = new_window-IsPlaced wm wide high given fits_x fits_y opaque in
      let windows = wm.windows ++ window ∷ [] in
      let carried =
        change-IsCarried wm wm.updates wm.num_updates windows window shown shown.steady.valid
          (All-append (IsPlaced wm.width wm.height) wm.windows (window ∷ []) shown.steady.placed
            (placed, tt))
          placed
          (λ px py on_x on_y clean out.
            let c = background px py in
            (
              clean,
              windows_scene-append wm.windows (window ∷ []) px py c
                  ∙ windows_scene-IsOutside window [] px py (windows_scene wm.windows px py c) out,
            )) in
      (
        carried.shown,
        (window_mark (record wm { windows = windows }) window shown.steady.valid).0,
        refl,
      )

-- A key goes to the top window, when that has a buffer.
pub handle_keyboard_lem :
    (wm : Wm) (below : List Window) (window : Window) (key : List ℕ)
    → wm.windows ≡ below ++ window ∷ []
    → handle_keyboard wm key ≡ (if window.has_buffer then some (window.to_port, key) else none)
unfolding handle_keyboard rejoin
handle_keyboard_lem wm below window key split =
    ap
      (λ (ws : List Window). elim ws as (λ ws. Option (ℕ × List ℕ)) [
        | [] ↦ none
        | top ∷ _ ↦ if top.has_buffer then some (top.to_port, key) else none
      ])
      (ap (λ (ws : List Window). rejoin ws []) split ∙ rejoin-split below (window ∷ []) [])
