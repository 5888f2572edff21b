-- ===== src/WindowManager/Events.antt =====
-- programs/stubbywm/src/main.c: what the window manager does with a message. The window list is in
-- the order of its links, the top window last.
pub mod Marks
pub mod Shown
pub mod Carried
pub mod Mouse
pub mod Raise
pub mod Server
pub mod Pointer
pub mod Loop
use c4_os.Prelude.{
  ℕ, ◌+◌, ◌*◌, ◌/◌, ◌%◌, ◌^◌, Bool, true, false, ◌&&◌, Option, none, some, ◌==◌, if◌then◌else◌, not,
  add32, sub32, List, [], ◌∷◌, ◌++◌,
}
use c4_os.WindowManager.{
  Point, Rect, Window, Wm, int_less, alloc_update, set_full_update, reset_updates, update_depth,
  normalize_point, rect_max_coord, update_mouse_region, update_window_region,
}
use c4_os.WindowManager.Draw.{frame}

-- `mouse_event_t`.
pub record MouseEvent : Type 0 where
  pub flags : ℕ
  pub move_x : ℕ
  pub move_y : ℕ

-- `MOUSE_FLAG_LEFT` and `MOUSE_FLAG_RIGHT`.
abbrev pub flag_left : ℕ → Bool
flag_left flags = flags % 2 == 1

abbrev pub flag_right : ℕ → Bool
flag_right flags = flags / 2 % 2 == 1

unfoldable pub window_set_pos : Window → Point → Window
window_set_pos window p = record window {
  rect = record {
    coord = p;
    rect_height = window.rect.rect_height;
    rect_width = window.rect.rect_width;
  };
}

-- The test of `handle_mouse`: the mouse is on the window, without its decorations.
unfoldable pub under_mouse : Wm → Window → Bool
unfolding rect_max_coord
under_mouse wm window =
    let a = window.rect.coord in
    let b = rect_max_coord wm window.rect in
    not (int_less wm.mouse.x a.x)
    && not (int_less wm.mouse.y a.y)
    && (int_less wm.mouse.x b.x && int_less wm.mouse.y b.y)

-- Nodes before the current one, the nearest first, in front of those behind it; of a whole list, the
-- way along the `prev` links.
unfoldable pub rejoin : List Window → List Window → List Window
rejoin [] behind = behind
rejoin (window ∷ before) behind = rejoin before (window ∷ behind)

-- A click with the left button: the node is removed and its window inserted at the end.
unfoldable pub raise : Wm → List Window → Window → List Window → Wm
unfolding rejoin
raise wm before window behind =
    let marked = update_window_region wm window in
    let removed = rejoin before behind in
    update_window_region (record marked { windows = removed ++ window ∷ [] }) window

-- A move with the right button down takes the window along.
unfoldable pub drag : Wm → MouseEvent → List Window → Window → List Window → Wm
unfolding rejoin window_set_pos normalize_point
drag wm ev before window behind =
    let marked = update_window_region wm window in
    let pt : Point = record {
      x = add32 window.rect.coord.x ev.move_x;
      y = sub32 window.rect.coord.y ev.move_y;
    } in
    let moved = window_set_pos window (normalize_point marked pt) in
    update_window_region (record marked { windows = rejoin before (moved ∷ behind) }) moved

-- The loop from the last node to the first: the nodes left, the last one first, and those passed.
unfoldable pub mouse_windows : Wm → MouseEvent → List Window → List Window → Wm
mouse_windows wm ev [] behind = wm
mouse_windows wm ev (window ∷ before) behind =
    let rest = mouse_windows wm ev before (window ∷ behind) in
    if under_mouse wm window
    then if flag_left ev.flags
      then raise wm before window behind
      else if flag_right ev.flags
      then drag wm ev before window behind
      else rest
    else rest

unfoldable pub move_mouse : Wm → MouseEvent → Wm
unfolding normalize_point
move_mouse wm ev = record wm {
  mouse =
      normalize_point wm
        (record { x = add32 wm.mouse.x ev.move_x; y = sub32 wm.mouse.y ev.move_y });
}

unfoldable pub handle_mouse : Wm → MouseEvent → Wm
unfolding rejoin
handle_mouse wm ev =
    let marked = update_mouse_region wm in
    let acted = mouse_windows marked ev (rejoin marked.windows []) [] in
    update_mouse_region (move_mouse acted ev)

-- The data of a key event, and the port it is sent to.
unfoldable pub handle_keyboard : Wm → List ℕ → Option (ℕ × List ℕ)
unfolding rejoin
handle_keyboard wm key = elim (rejoin wm.windows []) [
  | [] ↦ none
  | window ∷ _ ↦ if window.has_buffer then some (window.to_port, key) else none
]

unfoldable pub find_client : List Window → ℕ → Option Window
find_client [] id = none
find_client (window ∷ rest) id =
    let later = find_client rest id in if id == window.color then some window else later

unfoldable pub handle_client_update : Wm → ℕ → Wm
unfolding find_client
handle_client_update wm id = elim (find_client wm.windows id) [
  | none ↦ wm
  | some window ↦ update_window_region wm window
]

-- What the kernel and the generator give for a new window.
pub record Resources : Type 0 where
  pub new_color : ℕ
  pub new_to_port : ℕ
  pub new_from_port : ℕ
  pub new_sync_port : ℕ

-- `memobj_alloc` takes a size in bytes and gives a memory by pixel. The request is a position and a
-- size; the reply repeats them with the colour, which the client uses as the window's number.
module _ (memobj_alloc : ℕ → ℕ → ℕ) where
  unfoldable pub window_create : ℕ → ℕ → ℕ → Window
  window_create wide high color = record {
    rect = record { coord = record { x = 0; y = 0 }; rect_height = high; rect_width = wide };
    pixels = λ i. 0;
    color = color;
    has_buffer = false;
    to_port = 0;
    from_port = 0;
    sync_port = 0;
  }

  unfoldable pub server_handle_new_window : Wm → ℕ → ℕ → ℕ → ℕ → Resources → Wm × List ℕ
  unfolding window_create
  server_handle_new_window wm left top wide high given =
      let size = wide * high * 4 % 2 ^ 32 in
      let newwin = record (window_create wide high given.new_color) {
        pixels = memobj_alloc size;
        has_buffer = true;
        to_port = given.new_to_port;
        from_port = given.new_from_port;
        sync_port = given.new_sync_port;
      } in
      (
        update_window_region (record wm { windows = wm.windows ++ newwin ∷ [] }) newwin,
        left ∷ top ∷ wide ∷ high ∷ given.new_color ∷ [],
      )

-- The messages of the inner loop of `event_loop`.
pub data Event : Type 0 where
  mouse_event : MouseEvent → Event
  keyboard_event : List ℕ → Event
  client_update : ℕ → Event
  other_event : Event

-- The state after a message, and what is sent.
unfoldable pub dispatch : Wm → Event → Wm × Option (ℕ × List ℕ)
unfolding handle_keyboard handle_client_update
dispatch wm (mouse_event ev) = (handle_mouse wm ev, none)
dispatch wm (keyboard_event key) = (wm, handle_keyboard wm key)
dispatch wm (client_update id) = (handle_client_update wm id, none)
dispatch wm other_event = (wm, none)

-- One round of `event_loop`: a frame, then the messages that have come.
unfoldable pub dispatch_all : Wm → List Event → Wm
unfolding dispatch
dispatch_all wm [] = wm
dispatch_all wm (event ∷ rest) = dispatch_all (dispatch wm event).0 rest

unfoldable pub round : Wm → List Event → Wm
unfolding dispatch_all
round wm events = dispatch_all (frame wm) events

-- The state of `event_loop` after rounds with the messages given, from its start on.
unfoldable pub rounds : Wm → List (List Event) → Wm
unfolding round
rounds wm [] = wm
rounds wm (events ∷ rest) = rounds (round wm events) rest

unfoldable pub event_loop : Wm → List (List Event) → Wm
unfolding rounds alloc_update set_full_update reset_updates
event_loop wm events =
    rounds (set_full_update (alloc_update update_depth (reset_updates wm))) events
